-- ===== src/Runtimes/Updated.antt =====
-- What an update of the settings of a runtime connection gives back.
use capcom.Prelude.{
  ℕ, ◌≤◌, String, true, false, ◌≡◌, refl, sym, ap, ◌∙◌, Option-cases, inl, inr, Option, none, some,
  arith, eq_iff, ◌⊎◌,
}
use mathlib.Core.Path.{subst}
use capcom.Prelude.Text.{trim_space, blank}
use capcom.Errors.{Result, ok, err, Result-cases}
use capcom.Effects.{transaction}
use capcom.Tenant.{Context, organization_id}
use capcom.Domain.Values.{put, text}
use capcom.Domain.Runtime.{Time, RuntimeConnection}
use capcom.Runtimes.Input.{
  UpdateRuntimeInstanceSettingsInput, Texts, is_mode, is_environment, normalize_labels,
  normalize_runtime_endpoint,
}
use capcom.Prelude.Rows.{update_where}
use capcom.Runtimes.Table.{World, Env, find_visible, is_visible, endpoints_of}
use capcom.Runtimes.Changes
use capcom.Runtimes.Changes.{with_settings, write_settings}
use capcom.Runtimes.Repository
use capcom.Runtimes.Service.{checked, audited}
use capcom.Runtimes.Settings.{
  is_interval, is_attributed, is_referring, is_identified, update_settings, checked_endpoint,
  described, revised,
}
use capcom.Runtimes.Rows.{settled, find_visible-settings, find_visible-id}

-- What stays of a connection, whatever is set.
abbrev IsSame : RuntimeConnection → RuntimeConnection → Type 0
IsSame a b =
    (a.id ≡ b.id)
    × (a.organization_id ≡ b.organization_id)
    × (a.name ≡ b.name)
    × (a.kind ≡ b.kind)
    × (a.status ≡ b.status)
    × (a.created_at ≡ b.created_at)

-- What is set.
abbrev IsWritten : RuntimeConnection → RuntimeConnection → Type 0
IsWritten a b =
    (a.display_name ≡ b.display_name)
    × (a.environment ≡ b.environment)
    × (a.labels ≡ b.labels)
    × (a.mode ≡ b.mode)
    × (a.base_url ≡ b.base_url)
    × (a.auth_ref ≡ b.auth_ref)
    × (a.sync_enabled ≡ b.sync_enabled)
    × (a.sync_interval_seconds ≡ b.sync_interval_seconds)
    × (a.metadata ≡ b.metadata)

-- What is set, as the input states it.
pub IsGiven :
    Texts
    → UpdateRuntimeInstanceSettingsInput
    → String
    → RuntimeConnection
    → RuntimeConnection
    → Type 0
IsGiven texts input endpoint before a =
    (a.display_name ≡ trim_space input.display_name)
    × (a.environment ≡ texts.to_lower (trim_space input.environment))
    × (a.labels ≡ normalize_labels texts input.labels)
    × (a.mode ≡ input.mode)
    × (a.base_url ≡ endpoint)
    × (a.auth_ref ≡ trim_space input.auth_ref)
    × (a.sync_enabled ≡ input.sync_enabled)
    × (a.sync_interval_seconds ≡ input.sync_interval_seconds)
    × (a.metadata ≡ put "description" (text (trim_space input.description)) before.metadata)

-- The checks of the input, and of what it refers to.
pub record IsValid (env : Env) (input : UpdateRuntimeInstanceSettingsInput) (endpoint : String)
    (w : World) : Type 0 where
  pub identified : (blank input.id ≡ false) × (blank input.display_name ≡ false)
  pub environment : is_environment (env.texts.to_lower (trim_space input.environment)) ≡ true
  pub attributed : (blank input.actor ≡ false) × (blank input.reason ≡ false)
  pub mode : (input.mode ≡ "read_only") ⊎ (input.mode ≡ "control_enabled")
  pub normalized : normalize_runtime_endpoint env.texts input.endpoint ≡ ok endpoint
  pub referring : blank input.auth_ref ≡ false
  pub interval : (15 ≤ input.sync_interval_seconds) × (input.sync_interval_seconds ≤ 86400)
  pub resolved : (secret : String) × (env.resolve w (trim_space input.auth_ref) ≡ ok secret)

abbrev content : RuntimeConnection → Result RuntimeConnection → RuntimeConnection
content d (ok c) = c
content d (err _) = d

abbrev present : RuntimeConnection → Option RuntimeConnection → RuntimeConnection
present d none = d
present d (some c) = c

found_connection : World → RuntimeConnection → RuntimeConnection
found_connection w d = record d { endpoints = endpoints_of d.id w.endpoints }

get-found :
    (env : Env) (ctx : Context) (id : String) (w : World) (conn : RuntimeConnection)
    → (Repository.get env ctx id w).0 ≡ ok conn
    → (d : RuntimeConnection) × (find_visible (organization_id ctx) id w.runtimes ≡ some d)
      × (conn ≡ found_connection w d)
unfolding Repository.get found_connection
get-found env ctx id w conn e =
    elim (Option-cases (find_visible (organization_id ctx) id w.runtimes)) [
      | inl missing ↦ absurd (ground (arith, e, missing))
      | inr found ↦
          let (d, f) = found in
          let g : (Repository.get env ctx id w).0 ≡ ok (found_connection w d) =
            ground (arith, e, f) in
          (d, f, ap (content conn) (sym e ∙ g))
    ]

write_settings-runtimes :
    (env : Env) (ctx : Context) (given : RuntimeConnection) (w : World)
    → (write_settings env ctx given w).0 ≡ ok tt
    → (now : Time) × ((write_settings env ctx given w).1.runtimes
        ≡ update_where
            (is_visible (organization_id ctx) given.id)
            (with_settings given now)
            w.runtimes)
unfolding write_settings transaction
write_settings-runtimes env ctx given w e = (env.now w, ground (arith, e))

update_settings-settled :
    (env : Env) (ctx : Context) (given : RuntimeConnection) (w : World)
    (conn before : RuntimeConnection)
    → (Changes.update_settings env ctx given w).0 ≡ ok conn
    → find_visible (organization_id ctx) given.id w.runtimes ≡ some before
    → IsSame conn before × IsWritten conn given
unfolding Changes.update_settings with_settings found_connection
update_settings-settled env ctx given w conn before e f =
    let w' = (write_settings env ctx given w).1 in
    let (now, rows) = write_settings-runtimes env ctx given w (ground (arith, e)) in
    let (d, g, c) = get-found env ctx given.id w' conn (ground (arith, e)) in
    let h : settled given now (some before) ≡ some d =
      ap (settled given now) (sym f)
      ∙ sym (find_visible-settings (organization_id ctx) given.id given now w.runtimes)
      ∙ ap (find_visible (organization_id ctx) given.id) (sym rows)
      ∙ g in
    subst (λ x. IsSame x before × IsWritten x given)
      (sym (c ∙ ap (found_connection w') (sym (ap (present before) h))))
      ((refl, refl, refl, refl, refl, refl), (refl, refl, refl, refl, refl, refl, refl, refl, refl))

-- What an update that went through says. The times of the database and the fields that the
-- synchronization sets are left open.
pub record IsUpdated (env : Env) (ctx : Context) (input : UpdateRuntimeInstanceSettingsInput)
    (w : World) (conn : RuntimeConnection) : Type 0 where
  pub before : RuntimeConnection
  pub was : find_visible (organization_id ctx) (trim_space input.id) w.runtimes ≡ some before
  pub same : IsSame conn before
  pub endpoint : String
  pub valid : IsValid env input endpoint w
  pub set : IsGiven env.texts input endpoint before conn

record IsChecked (env : Env) (input : UpdateRuntimeInstanceSettingsInput) (endpoint : String)
    (w w' : World) : Type 0 where
  valid : IsValid env input endpoint w
  unchanged : w' ≡ w

interval_bounds : (n : ℕ) → is_interval n ≡ true → (15 ≤ n) × (n ≤ 86400)
unfolding is_interval
interval_bounds n h = (ground (arith, h), ground (arith, h))

attributed_texts :
    (input : UpdateRuntimeInstanceSettingsInput)
    → is_attributed input ≡ true
    → (blank input.actor ≡ false) × (blank input.reason ≡ false)
unfolding is_attributed
attributed_texts input h = (ground (arith, h), ground (arith, h))

referring_text :
    (input : UpdateRuntimeInstanceSettingsInput)
    → is_referring input ≡ true
    → blank input.auth_ref ≡ false
unfolding is_referring
referring_text input h = ground (arith, h)

identified_texts :
    (input : UpdateRuntimeInstanceSettingsInput)
    → is_identified input ≡ true
    → (blank input.id ≡ false) × (blank input.display_name ≡ false)
unfolding is_identified
identified_texts input h = (ground (arith, h), ground (arith, h))

two_modes :
    (mode : String) → is_mode mode ≡ true → (mode ≡ "read_only") ⊎ (mode ≡ "control_enabled")
unfolding is_mode
two_modes mode h = ground (arith, h, eq_iff mode "read_only", eq_iff mode "control_enabled")

resolved_secret : (r : Result String) → checked r ≡ none → (secret : String) × (r ≡ ok secret)
resolved_secret (ok secret) h = (secret, refl)
resolved_secret (err e) h = absurd (ground (arith, h))

checked_endpoint-IsChecked :
    (env : Env) (ctx : Context) (input : UpdateRuntimeInstanceSettingsInput) (w : World)
    (endpoint : String)
    → (checked_endpoint env ctx input w).0 ≡ ok endpoint
    → IsChecked env input endpoint w (checked_endpoint env ctx input w).1
unfolding checked_endpoint
checked_endpoint-IsChecked env ctx input w endpoint e = record {
  valid = record {
    identified = identified_texts input (ground (arith, e));
    environment = ground (arith, e);
    attributed = attributed_texts input (ground (arith, e));
    mode = two_modes input.mode (ground (arith, e));
    normalized = ground (arith, e);
    referring = referring_text input (ground (arith, e));
    interval = interval_bounds input.sync_interval_seconds (ground (arith, e));
    resolved = resolved_secret (env.resolve w (trim_space input.auth_ref)) (ground (arith, e));
  };
  unchanged = ground (arith, e);
}

-- The steps of an update that went through.
update_settings-steps :
    (env : Env) (ctx : Context) (input : UpdateRuntimeInstanceSettingsInput) (w : World)
    (conn : RuntimeConnection)
    → (update_settings env ctx input w).0 ≡ ok conn
    → (endpoint : String) × (c : RuntimeConnection) × ((checked_endpoint env ctx input w).0
        ≡ ok endpoint)
      × ((Repository.get env ctx (trim_space input.id) (checked_endpoint env ctx input w).1).0
          ≡ ok c)
      × ((Changes.update_settings env ctx
            (revised env.texts input endpoint (described input.description c))
            (Repository.get env ctx (trim_space input.id) (checked_endpoint env ctx input w).1).1).0
          ≡ ok conn)
unfolding update_settings audited
update_settings-steps env ctx input w conn e =
    let checked = Result-cases (checked_endpoint env ctx input w).0 in
    let got =
      Result-cases
        (Repository.get env ctx (trim_space input.id) (checked_endpoint env ctx input w).1).0 in
    elim checked [
      | inr failed ↦ let (_, f) = failed in absurd (ground (arith, e, f))
      | inl went ↦ elim got [
        | inr failed ↦ let (_, f) = failed in let (_, g) = went in absurd (ground (arith, e, f, g))
        | inl found ↦
            let (endpoint, f) = went in
            let (c, g) = found in (endpoint, c, f, g, ground (arith, e, f, g))
      ]
    ]

get-unchanged :
    (env : Env) (ctx : Context) (id : String) (w : World) → (Repository.get env ctx id w).1 ≡ w
unfolding Repository.get
get-unchanged env ctx id w = ground arith

-- If an update of the settings succeeds, the caller could see an active connection with the id, and
-- the connection that comes back has its id, organization, name, kind, status and time of creation,
-- and, normalized, the nine settings of the input. The id, the name to display, the reference to the
-- credential, the actor and the reason were not blank, the environment and the address have the
-- form that is asked for, the mode is read_only or control_enabled, the interval is from 15 seconds
-- to a day, and the credential could be resolved.
pub update_settings-IsUpdated :
    (env : Env) (ctx : Context) (input : UpdateRuntimeInstanceSettingsInput) (w : World)
    (conn : RuntimeConnection)
    → (update_settings env ctx input w).0 ≡ ok conn
    → IsUpdated env ctx input w conn
unfolding described revised found_connection IsGiven
update_settings-IsUpdated env ctx input w conn e =
    let (endpoint, c, f, g, h) = update_settings-steps env ctx input w conn e in
    let id = trim_space input.id in
    let org = organization_id ctx in
    let w1 = (checked_endpoint env ctx input w).1 in
    let w2 = (Repository.get env ctx id w1).1 in
    let k = checked_endpoint-IsChecked env ctx input w endpoint f in
    let (d, was1, found) = get-found env ctx id w1 c g in
    let was : find_visible org id w.runtimes ≡ some d =
      subst (λ x. find_visible org id x.runtimes ≡ some d) k.unchanged was1 in
    let named : c.id ≡ id = ap (λ x. x.id) found ∙ find_visible-id org id w.runtimes d was in
    let given = revised env.texts input endpoint (described input.description c) in
    let seen : find_visible org given.id w2.runtimes ≡ some d =
      ap (λ i. find_visible org i w2.runtimes) named
      ∙ ap (λ x. find_visible org id x.runtimes) (get-unchanged env ctx id w1)
      ∙ was1 in
    let (same, set) = update_settings-settled env ctx given w2 conn d h seen in
    record {
      before = d;
      was = was;
      same = same;
      endpoint = endpoint;
      valid = k.valid;
      set =
          subst
            (λ x. IsWritten conn (revised env.texts input endpoint (described input.description x)))
            found set;
    }
