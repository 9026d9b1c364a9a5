-- ===== src/Adapters/Gantry/Worst.antt =====
-- The status that `normalizeDoctor` of internal/adapters/gantry/client.go arrives at.
use capcom.Prelude.{
  String, Bool, true, false, false≢true, ◌||◌, ◌==◌, if◌then◌else◌, Bool-cases, ◌≡◌, refl, sym, ◌∙◌,
  inl, inr, List, [], ◌∷◌, map, arith, eq_iff,
}
use capcom.Prelude.Rows.{any}
use capcom.Domain.Runtime.{Time, RuntimeStatus, status_active, status_degraded, status_failed}
use capcom.Adapters.Http.{Web}
use capcom.Adapters.Gantry.Dto.{GantryDoctor, GantryDoctorCheck}
use capcom.Adapters.Gantry.Doctor.{
  is_warning, is_failing, normalized, lowered, normalize_checks, normalize_doctor,
}

-- The worst of what is said, in no order.
abbrev pub worst : List String → RuntimeStatus
worst said =
    if any is_failing said
    then status_failed
    else if any is_warning said
    then status_degraded
    else status_active

-- A status together with what is yet to be said.
abbrev worse : Bool → Bool → RuntimeStatus → RuntimeStatus
worse failing warning status =
    if failing
    then status_failed
    else if warning
    then (if status == status_active then status_degraded else status)
    else status

apart : (s w : String) → is_failing w ≡ false → is_failing s ≡ true → (s == w) ≡ false
apart s w h failing = elim (Bool-cases (s == w)) [
  | inr other ↦ other
  | inl same ↦
      let p : s ≡ w = ground (arith, same, eq_iff s w) in
      let both : is_failing s ≡ false = rw p h in absurd (false≢true (sym both ∙ failing))
]

-- Nothing is a warning and a failure.
is_failing-is_warning : (s : String) → is_failing s ≡ true → is_warning s ≡ false
unfolding is_failing is_warning
is_failing-is_warning s h =
    let a = apart s "warn" refl h in
    let b = apart s "warning" refl h in let c = apart s "degraded" refl h in rw a (rw b c)

statuses_of : Web → List GantryDoctorCheck → List String
statuses_of web checks = map (λ c. normalized web c.status) checks

worse_lowered :
    (failing warning is_active : Bool) (status : RuntimeStatus)
    → (status == status_active) ≡ is_active
    → worse failing warning (if is_active then status_degraded else status)
      ≡ worse failing true status
worse_lowered true warning is_active status h = refl
worse_lowered false true true status h = rw h refl
worse_lowered false true false status h = rw h refl
worse_lowered false false true status h = rw h refl
worse_lowered false false false status h = rw h refl

failed_stays : (failing warning : Bool) → worse failing warning status_failed ≡ status_failed
failed_stays true warning = refl
failed_stays false true = refl
failed_stays false false = refl

lowered-worse :
    (said : String) (failing warning : Bool) (status : RuntimeStatus)
    → worse failing warning (lowered said status)
      ≡ worse (is_failing said || failing) (is_warning said || warning) status
unfolding lowered
lowered-worse said failing warning status = elim (Bool-cases (is_failing said)) [
  | inl f ↦ rw (is_failing-is_warning said f) (rw f (failed_stays failing warning))
  | inr n ↦ elim (Bool-cases (is_warning said)) [
    | inl w ↦ rw n (rw w (worse_lowered failing warning (status == status_active) status refl))
    | inr m ↦ rw n (rw m refl)
  ]
]

or_assoc : (a b c : Bool) → ((a || b) || c) ≡ (a || (b || c))
or_assoc true b c = refl
or_assoc false b c = refl

normalize_checks-worse :
    (web : Web) (t : Time) (checks : List GantryDoctorCheck) (failing warning : Bool)
    (status : RuntimeStatus)
    → worse failing warning (normalize_checks web t checks status).1
      ≡ worse
          (any is_failing (statuses_of web checks) || failing)
          (any is_warning (statuses_of web checks) || warning)
          status
unfolding normalize_checks any statuses_of
normalize_checks-worse web t [] failing warning status = refl
normalize_checks-worse web t (c ∷ checks) failing warning status =
    let said = normalized web c.status in
    let failed = any is_failing (statuses_of web checks) in
    let warned = any is_warning (statuses_of web checks) in
    normalize_checks-worse web t checks failing warning (lowered said status)
    ∙ lowered-worse said (failed || failing) (warned || warning) status
    ∙ rw (or_assoc (is_failing said) failed failing)
        (rw (or_assoc (is_warning said) warned warning) refl)

either_order :
    (a b c d : Bool)
    → worse (b || (a || false)) (d || (c || false)) status_active
      ≡ (if a || b then status_failed else if c || d then status_degraded else status_active)
either_order a b c d = ground arith

-- The status of a doctor's report is the worst of what its checks and the report itself say: failed
-- if any of them is failing, or else degraded if any of them warns, or else active.
pub normalize_doctor-worst :
    (web : Web) (doctor : GantryDoctor) (t : Time)
    → (normalize_doctor web doctor t).1
      ≡ worst (normalized web doctor.status ∷ map (λ c. normalized web c.status) doctor.checks)
unfolding normalize_doctor any statuses_of
normalize_doctor-worst web doctor t =
    let said = normalized web doctor.status in
    let checked = (normalize_checks web t doctor.checks status_active).1 in
    lowered-worse said false false checked
    ∙ normalize_checks-worse web t doctor.checks (is_failing said || false)
        (is_warning said || false) status_active
    ∙ either_order (is_failing said) (any is_failing (statuses_of web doctor.checks))
        (is_warning said) (any is_warning (statuses_of web doctor.checks))
