-- ===== src/Control/Delete.antt =====
-- `DeleteAgent`: delete an agent in its runtime, and mark it deleted here.
use Prim.Native.Char.{Char, code}
use Prim.Native.String.{[], ◌∷◌}
use capcom.Prelude.{ℕ, ◌+◌, String, Bool, true, false, ◌&&◌, Option, none, some}
use capcom.Prelude.{if◌then◌else◌, ◌<>◌, ◌==◌, leb, nat_eq, ◌≡◌, refl}
use capcom.Prelude.Text.{trim_space}
use capcom.Prelude.Text.Quote.{quote}
use capcom.Errors.{message}
use capcom.Domain.Values.{text, flag, obj, Fields, end, field, get, as_text, as_map}
use capcom.Domain.Runtime.{RuntimeConnection, kind_langgraph}
use capcom.Domain.Agents.{PersistedAgentDetail}
use capcom.Domain.Control.{no_action, queued}
use capcom.Control.World.{Env, Adapter, delete}
use capcom.Control.Repository.{Outcome, get_runtime}
use capcom.Control.Exec.{Exec, ◌>>=◌, ◌>>◌, require, read}
use capcom.Control.Audit.{all_given, replay}
use capcom.Control.Protocol.{Plan, perform, unless_error}
use capcom.Control.Reject.{Subject, reject_control_action, validate_capability}

pub record DeleteAgentInput : Type 0 where
  pub agent_id : String
  pub confirmation : String
  pub actor : String
  pub reason : String
  pub idempotency_key : String
  pub dry_run : Bool

-- `unicode.SimpleFold` onto the lower-case ASCII letters: besides the capitals, the long s and the
-- Kelvin sign.
fold : Char → ℕ
fold c =
    let n = code c in
    if leb b'A' n && leb n b'Z'
    then n + 32
    else if nat_eq n 0x17f
    then b's'
    else if nat_eq n 0x212a
    then b'k'
    else n

-- `strings.EqualFold` against a text of lower-case ASCII letters.
unfoldable pub equal_fold : String → String → Bool
unfolding fold
equal_fold [] [] = true
equal_fold (c ∷ s) (d ∷ t) = nat_eq (fold c) (code d) && equal_fold s t
equal_fold _ _ = false

abbrev created_by : Option Fields → String
created_by none = ""
created_by (some m) = as_text (get "created_by" m)

-- `isLangGraphSystemManaged`; without the map the answer is false, as the empty text is.
unfoldable pub is_lang_graph_system_managed : Fields → Bool
unfolding equal_fold trim_space get as_text as_map
is_lang_graph_system_managed metadata =
    equal_fold (trim_space (created_by (as_map (get "assistant_metadata" metadata)))) "system"

system_managed :
    is_lang_graph_system_managed
      (field "assistant_metadata" (obj (field "created_by" (text " SyStem") end)) end)
    ≡ true
unfolding is_lang_graph_system_managed
system_managed = refl

module _ (env : Env) (org : String) where
  abbrev pub delete_plan :
      DeleteAgentInput → String → RuntimeConnection → Fields → Fields → Adapter → Plan
  delete_plan input runtime_agent_id conn before after adapter = record {
    target_type = "agent";
    target_id = input.agent_id;
    before = before;
    after = after;
    dry_run = input.dry_run;
    dry_result =
        field "dry_run" (flag true)
          (field "validated" (flag true) (field "runtime_agent_id" (text runtime_agent_id) end));
    conn = conn;
    call = delete runtime_agent_id;
    answer = λ w.
        unless_error
          (field "deleted" (flag true) (field "runtime_agent_id" (text runtime_agent_id) end))
          (adapter.delete_agent w conn runtime_agent_id);
    prefix = "delete runtime agent";
    tombstone = some input.agent_id;
    actor = input.actor;
    sync_reason = "verify agent deletion: " <> input.reason;
  }

  unfoldable pub admit_delete :
      DeleteAgentInput → PersistedAgentDetail → RuntimeConnection → Subject → Exec Outcome
  admit_delete input detail conn subject =
      let id = detail.agent.runtime_agent_id in
      if trim_space input.confirmation == id
      then (if conn.kind == kind_langgraph && is_lang_graph_system_managed detail.agent.metadata
          then reject_control_action env org subject
              "LangGraph system-managed assistants are recreated from graph configuration and cannot be deleted through Capcom"
              "system_managed_agent"
          else validate_capability env org conn subject (λ c. c.delete_agent)
              "runtime adapter does not support agent deletion"
              (λ adapter.
                perform env org (delete_plan input id conn subject.before subject.after adapter)
                  subject.action))
      else reject_control_action env org subject
          ("confirmation must exactly match runtime agent id " <> quote id) "confirmation_mismatch"

  unfoldable pub delete_agent : DeleteAgentInput → Exec Outcome
  delete_agent input = do
    require (all_given input.agent_id input.actor input.reason input.idempotency_key)
        (message "agent id, actor, reason, and idempotency_key are required")
    replay env org input.idempotency_key
    detail ← read (λ w. env.get_persisted_agent w input.agent_id)
    conn ← read (get_runtime env org detail.agent.runtime_connection_id)
    let before : Fields =
        field "runtime_agent_id" (text detail.agent.runtime_agent_id)
          (field "name" (text detail.agent.name) (field "status" (text detail.agent.status) end))
    let after : Fields = field "deleted" (flag true) end
    admit_delete input detail conn (record {
      action = record no_action {
        runtime_connection_id = conn.id;
        agent_id = input.agent_id;
        action_type = "delete_agent";
        status = queued;
        actor = trim_space input.actor;
        reason = trim_space input.reason;
        idempotency_key = trim_space input.idempotency_key;
        before = some before;
        after = some after;
      };
      target_type = "agent";
      target_id = input.agent_id;
      before = before;
      after = after;
    })
