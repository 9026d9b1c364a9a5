-- ===== src/Examples/Gantries.antt =====
-- A gantry with one agent, its access, its delegates and a doctor.
use capcom.Prelude.{String, true, ◌≡◌, refl, none, some, [], ◌∷◌, ◌++◌, map}
use capcom.Prelude.Text.{trim_space}
use capcom.Prelude.Text.Quote.{quote}
use capcom.Errors.{Result, ok, err, message}
use capcom.Domain.Values.{end, field, text, get as get_field}
use capcom.Domain.Runtime.{RuntimeConnection}
use capcom.Domain.Agents.{AccessDocument}
use capcom.Sync.Validate.{scan, delegations_check}
use capcom.Sync.Validated.{Each}
use capcom.Adapters.Gantry.Dto.{
  Json, GantryAccess, GantryDoctor, GantryDoctorCheck, GantryAgentDelegates, GantryResolvedDelegate,
}
use capcom.Adapters.Gantry.Doctor.{is_warning, is_failing, normalized, normalize_doctor}
use capcom.Adapters.Gantry.Worst.{worst, normalize_doctor-worst}
use capcom.Adapters.Gantry.Delegates.{delegations_of}
use capcom.Adapters.Gantry.Complete.{
  refs_of, named_refs, resolved_refs, unresolved_refs, IsFlagged, delegations_of-refs,
}
use capcom.Adapters.Gantry.Access.{replace_agent_access}
use capcom.Adapters.Gantry.Replaced.{IsReplaced, replace_agent_access-IsReplaced}
use capcom.Examples.Instances.{conn}
use capcom.Examples.Pages.{web}

abbrev doctor_check : String → GantryDoctorCheck
doctor_check status = record { id = "c-1"; status = status; message = ""; raw = end }

abbrev doctor : GantryDoctor
doctor = record {
  status = "ok";
  checks = doctor_check "warn" ∷ doctor_check " failed " ∷ doctor_check "degraded" ∷ [];
}

normalize_doctor-worst_example :
    (normalize_doctor web doctor 5).1
    ≡ worst (normalized web doctor.status ∷ map (λ c. normalized web c.status) doctor.checks)
normalize_doctor-worst_example = normalize_doctor-worst web doctor 5

doctor_failed : (normalize_doctor web doctor 5).1 ≡ "failed"
unfolding normalize_doctor is_warning is_failing
doctor_failed = refl

abbrev resolved : String → String → GantryResolvedDelegate
resolved ref id = record {
  ref = ref;
  agent_id = id;
  tool_name = "";
  display_name = "";
  persona = "";
  raw = end;
}

abbrev delegates : GantryAgentDelegates
delegates = record {
  agent_id = "agent:main_agent";
  revision = 3;
  delegates = " writer" ∷ "" ∷ "reviewer" ∷ [];
  resolved = resolved "writer" "agent:writer" ∷ resolved "" "agent:guest" ∷ [];
}

delegations_of-refs_example :
    (refs_of (delegations_of "agent:main_agent" 3 5 delegates)
      ≡ resolved_refs delegates.resolved ++ unresolved_refs delegates)
    × Each
        (IsFlagged (named_refs delegates.delegates) (resolved_refs delegates.resolved))
        (delegations_of "agent:main_agent" 3 5 delegates)
delegations_of-refs_example = delegations_of-refs "agent:main_agent" 3 5 delegates

refs_reported :
    refs_of (delegations_of "agent:main_agent" 3 5 delegates)
    ≡ "writer" ∷ "agent:guest" ∷ "reviewer" ∷ []
unfolding delegations_of trim_space
refs_reported = refl

-- A ref that is configured twice is reported twice, and validation refuses the snapshot.
twice :
    scan delegations_check [] (
      delegations_of "agent:a" 1 5 (record delegates { delegates = "b" ∷ "b" ∷ []; resolved = [] }))
    ≡ some (message "snapshot contains duplicate agent delegation \"agent:a:ref:b\"")
unfolding delegations_of scan trim_space quote
twice = refl

abbrev gantry : RuntimeConnection
gantry = record conn { base_url = "https://gantry/"; mode = "control_enabled" }

abbrev bad {ℓ} : {A : Type ℓ} → Result A
bad = err (message "not this document")

abbrev access : GantryAccess
access = record {
  agent_id = "agent:writer";
  selections = record { id = "web"; version = "1" } ∷ [];
  raw = none;
}

abbrev json : Json
json = record {
  map = λ _. ok (some (field "sources" (text "s-1") end));
  agent = λ _. bad;
  resolved_delegate = λ _. bad;
  access = λ _. ok access;
  doctor_check = λ _. bad;
  capability = λ _. bad;
  raw_message = λ s. ok s;
  agents = λ _ _. bad;
  agents_envelope = λ _ _. bad;
  delegates = λ _ _. bad;
  doctor = λ _ _. bad;
  inventory = λ _. bad;
  capabilities = λ _ _. bad;
  bindings = λ _. bad;
  skills = λ _. bad;
  runs = λ _. bad;
  jobs = λ _. bad;
  events = λ _. bad;
}

abbrev document : AccessDocument
document = record {
  agent_id = "agent:writer";
  selections = some [];
  raw = some (field "sources" (text "s-1") end);
  observed_at = 5;
  desired_at = none;
  source = "gantry";
  source_ref = "";
  source_sha256 = "";
}

abbrev written : AccessDocument
written = record document {
  selections = some (
      record {
        kind = "capability";
        id = "web";
        name = "web";
        allowed = true;
        attributes = some (field "version" (text "1") end);
      }
      ∷ []);
}

replaced : (replace_agent_access web json gantry "agent:writer" document []).0 ≡ ok written
unfolding replace_agent_access get_field
replaced = refl

replace_agent_access-IsReplaced_example :
    IsReplaced web json gantry "agent:writer" document []
      (replace_agent_access web json gantry "agent:writer" document []).1
replace_agent_access-IsReplaced_example =
    replace_agent_access-IsReplaced web json gantry "agent:writer" document written [] replaced
