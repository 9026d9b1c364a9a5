-- ===== src/Sync/Validate.antt =====
-- `validateRuntimeSnapshot` of internal/services/runtime_sync.go.
use capcom.Prelude.{
  String, ◌<>◌, Bool, false, not, ◌&&◌, ◌||◌, Option, none, some, List, [], ◌∷◌, ◌==◌,
  if◌then◌else◌,
}
use capcom.Prelude.Text.{trim_space, blank}
use capcom.Prelude.Text.Quote.{quote}
use capcom.Errors.{Error, message}
use capcom.Domain.Agents.{AgentSkillSnapshot}
use capcom.Domain.Snapshot.{
  RuntimeSnapshot, RuntimeDiagnosticSnapshot, RuntimeInventorySnapshot, RuntimeCapabilitySnapshot,
  AgentDelegationSnapshot, SnapshotAgent, RuntimeExecutionSnapshot, SubagentExecutionSnapshot,
}

-- The keys of a `map[string]struct{}`.
unfoldable pub has : String → List String → Bool
has k [] = false
has k (x ∷ seen) = k == x || has k seen

infixr 15 ◌or_else◌
abbrev pub ◌or_else◌ : Option Error → Option Error → Option Error
none or_else e = e
some e or_else _ = some e

-- `if bad { return err }`
abbrev pub when : Bool → Error → Option Error
when bad e = if bad then some e else none

-- One of the loops: what is wrong with an item itself, the key that must be new, the error of a
-- key that is not, and what is looked at once the key is stored.
pub record Check (A : Type 0) : Type 0 where
  pub before : A → Option Error
  pub key : A → String
  pub duplicate : A → Error
  pub after : A → Option Error

unfoldable pub scan : {A : Type 0} → Check A → List String → List A → Option Error
unfolding has
scan c seen [] = none
scan c seen (a ∷ l) =
    let rest = scan c (c.key a ∷ seen) l in
    c.before a or_else when (has (c.key a) seen) (c.duplicate a) or_else c.after a or_else rest

abbrev pub quoted : String → String → Error
quoted said key = message (said <> (" " <> quote key))

abbrev pub diagnostics_check : Check RuntimeDiagnosticSnapshot
diagnostics_check = record {
  before = λ i. when (blank i.check_id) (message "snapshot contains a diagnostic without check id");
  key = λ i. trim_space i.check_id;
  duplicate = λ i. quoted "snapshot contains duplicate diagnostic" (trim_space i.check_id);
  after = λ _. none;
}

abbrev pub inventory_key : RuntimeInventorySnapshot → String
inventory_key i = i.kind <> (":" <> i.runtime_item_id)

abbrev pub inventory_check : Check RuntimeInventorySnapshot
inventory_check = record {
  before = λ i.
      when (blank i.kind || blank i.runtime_item_id)
        (message "snapshot contains inventory without kind or runtime id");
  key = inventory_key;
  duplicate = λ i. quoted "snapshot contains duplicate inventory item" (inventory_key i);
  after = λ _. none;
}

abbrev pub capability_key : RuntimeCapabilitySnapshot → String
capability_key i = i.runtime_capability_id <> (":" <> i.version)

abbrev pub capabilities_check : Check RuntimeCapabilitySnapshot
capabilities_check = record {
  before = λ i.
      when (blank i.runtime_capability_id || blank i.version)
        (message "snapshot contains capability without runtime id or version");
  key = capability_key;
  duplicate = λ i. quoted "snapshot contains duplicate capability" (capability_key i);
  after = λ _. none;
}

abbrev pub delegation_key : AgentDelegationSnapshot → String
delegation_key i =
    if blank i.delegate_ref
    then trim_space i.orchestrator_runtime_agent_id
      <> (":agent:" <> trim_space i.delegate_runtime_agent_id)
    else trim_space i.orchestrator_runtime_agent_id <> (":ref:" <> trim_space i.delegate_ref)

abbrev pub delegations_check : Check AgentDelegationSnapshot
delegations_check = record {
  before = λ i.
      when
        (blank i.orchestrator_runtime_agent_id
          || (blank i.delegate_runtime_agent_id && blank i.delegate_ref))
        (message "snapshot contains delegation without orchestrator or delegate identity");
  key = delegation_key;
  duplicate = λ i. quoted "snapshot contains duplicate agent delegation" (delegation_key i);
  after = λ _. none;
}

abbrev pub skills_check : String → Check AgentSkillSnapshot
skills_check id = record {
  before = λ i.
      when (blank i.runtime_skill_id)
        (message ("agent " <> (quote id <> " has skill without runtime id")));
  key = λ i. i.runtime_skill_id;
  duplicate = λ i.
      message ("agent " <> (quote id <> (" has duplicate skill " <> quote i.runtime_skill_id)));
  after = λ _. none;
}

abbrev pub agent_id_of : SnapshotAgent → String
agent_id_of i = trim_space i.agent.runtime_agent_id

abbrev pub agents_check : Check SnapshotAgent
agents_check = record {
  before = λ i.
      when (blank i.agent.runtime_agent_id)
        (message "snapshot contains an agent without runtime id");
  key = agent_id_of;
  duplicate = λ i. quoted "snapshot contains duplicate runtime agent id" (agent_id_of i);
  after = λ i.
      when (not (i.access.agent_id == "") && not (i.access.agent_id == agent_id_of i)) (
        message (
          "access document agent id "
          <> (quote i.access.agent_id <> (" does not match " <> quote (agent_id_of i)))))
      or_else scan (skills_check (agent_id_of i)) [] i.skills;
}

abbrev pub execution_key : RuntimeExecutionSnapshot → String
execution_key i = i.kind <> (":" <> trim_space i.runtime_execution_id)

abbrev pub executions_check : Check RuntimeExecutionSnapshot
executions_check = record {
  before = λ i.
      when (blank i.runtime_execution_id || blank i.kind)
        (message "snapshot contains a runtime execution without kind or runtime id");
  key = execution_key;
  duplicate = λ i. quoted "snapshot contains duplicate runtime execution" (execution_key i);
  after = λ _. none;
}

abbrev pub subagents_check : Check SubagentExecutionSnapshot
subagents_check = record {
  before = λ i.
      when (blank i.runtime_execution_id)
        (message "snapshot contains a subagent execution without runtime id");
  key = λ i. trim_space i.runtime_execution_id;
  duplicate = λ i.
      quoted "snapshot contains duplicate subagent execution id"
        (trim_space i.runtime_execution_id);
  after = λ _. none;
}

unfoldable pub validate_runtime_snapshot : RuntimeSnapshot → Option Error
validate_runtime_snapshot s =
    scan diagnostics_check [] s.diagnostics
    or_else scan inventory_check [] s.inventory
    or_else scan capabilities_check [] s.capability_catalog
    or_else scan delegations_check [] s.agent_delegations
    or_else scan agents_check [] s.agents
    or_else scan executions_check [] s.executions
    or_else scan subagents_check [] s.subagent_executions
