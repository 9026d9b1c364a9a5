-- ===== src/Adapters/Gantry/Doctor.antt =====
-- `normalizeDoctor` and `Check` of internal/adapters/gantry/client.go.
use capcom.Prelude.{String, Bool, true, ◌||◌, ◌==◌, if◌then◌else◌, none, List, [], ◌∷◌}
use capcom.Prelude.Text.{trim_space}
use capcom.Effects.{Effect, ◌>>=◌, done, wrapping}
use capcom.Domain.Values.{Fields, end, field, obj, text}
use capcom.Domain.Runtime.{
  Time, RuntimeStatus, RuntimeConnection, mode_control_enabled, status_active, status_degraded,
  status_failed,
}
use capcom.Domain.Snapshot.{RuntimeDiagnosticSnapshot}
use capcom.Adapters.Http.{Web, Requests, clock, do_json as http_json}
use capcom.Adapters.Checked.{CheckResult, no_capabilities}
use capcom.Adapters.Gantry.Dto.{
  Json, GantryDoctor, GantryDoctorCheck, entries, unmarshal_doctor_check,
}
use capcom.Adapters.Gantry.Client.{do_json}

-- `case "warn", "warning", "degraded":`
unfoldable pub is_warning : String → Bool
is_warning s = s == "warn" || s == "warning" || s == "degraded"

-- `case "fail", "failed", "error", "critical":`
unfoldable pub is_failing : String → Bool
is_failing s = s == "fail" || s == "failed" || s == "error" || s == "critical"

abbrev pub normalized : Web → String → String
normalized web s = web.to_lower (trim_space s)

-- The switch, once for each check and once for the document.
unfoldable pub lowered : String → RuntimeStatus → RuntimeStatus
lowered said status =
    if is_warning said
    then (if status == status_active then status_degraded else status)
    else if is_failing said
    then status_failed
    else status

abbrev diagnostic : Web → Time → GantryDoctorCheck → RuntimeDiagnosticSnapshot
diagnostic web observed_at check = record {
  check_id = check.id;
  status = normalized web check.status;
  message = check.message;
  observed_at = observed_at;
  metadata = end;
  raw = check.raw;
}

-- The loop over the checks.
unfoldable pub normalize_checks :
    Web
    → Time
    → List GantryDoctorCheck
    → RuntimeStatus
    → List RuntimeDiagnosticSnapshot × RuntimeStatus
unfolding lowered trim_space
normalize_checks web observed_at [] status = ([], status)
normalize_checks web observed_at (check ∷ checks) status =
    let rest =
      normalize_checks web observed_at checks (lowered (normalized web check.status) status) in
    (diagnostic web observed_at check ∷ rest.0, rest.1)

unfoldable pub normalize_doctor :
    Web → GantryDoctor → Time → List RuntimeDiagnosticSnapshot × RuntimeStatus
unfolding normalize_checks lowered trim_space
normalize_doctor web doctor observed_at =
    let checked = normalize_checks web observed_at doctor.checks status_active in
    (checked.0, lowered (normalized web doctor.status) checked.1)

abbrev check_message : RuntimeStatus → String
check_message status =
    if status == status_failed
    then "gantry doctor reported failing checks"
    else if status == status_degraded
    then "gantry doctor reported warnings"
    else "gantry health and doctor checks succeeded"

abbrev is_controlled : RuntimeConnection → Bool
is_controlled conn = conn.mode == mode_control_enabled

abbrev check_result :
    RuntimeConnection
    → Fields
    → GantryDoctor
    → List RuntimeDiagnosticSnapshot × RuntimeStatus
    → CheckResult
check_result conn health doctor checked = record {
  status = checked.1;
  message = check_message checked.1;
  capabilities = record no_capabilities {
    read_agents = true;
    read_agent_delegates = true;
    read_agent_skills = true;
    read_agent_access = true;
    replace_agent_access = is_controlled conn;
    read_subagent_executions = true;
    read_diagnostics = true;
    read_inventory = true;
    read_capability_catalog = true;
    set_agent_status = is_controlled conn;
  };
  metadata = field "health" (obj health) (field "doctor_status" (text doctor.status) end);
  diagnostics = checked.0;
}

unfoldable pub check : Web → Json → RuntimeConnection → Effect Requests CheckResult
unfolding normalize_doctor http_json unmarshal_doctor_check
check web json conn = do
  health ← do_json web conn "GET" "/v1/health" none json.map
  doctor ←
      wrapping "gantry doctor failed"
        (do_json web conn "GET" "/v1/doctor" none (json.doctor (unmarshal_doctor_check json)))
  observed_at ← clock web
  done (check_result conn (entries health) doctor (normalize_doctor web doctor observed_at))
