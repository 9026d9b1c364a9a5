-- ===== src/Sync/Validated.antt =====
-- What `validateRuntimeSnapshot` makes sure of, stated without its loops and maps.
use capcom.Prelude.{
  String, Bool, not, ◌&&◌, ◌==◌, true, false, ◌≡◌, ◌≢◌, refl, sym, Option, none, some, List, [],
  ◌∷◌, map, arith, eq_iff,
}
use capcom.Prelude.Text.{trim_space, blank}
use capcom.Errors.{Error}
use capcom.Domain.Snapshot.{RuntimeSnapshot, SnapshotAgent}
use capcom.Sync.Validate.{
  has, when, ◌or_else◌, Check, scan, diagnostics_check, inventory_key, inventory_check,
  capability_key, capabilities_check, delegation_key, delegations_check, skills_check, agent_id_of,
  agents_check, execution_key, executions_check, subagents_check, validate_runtime_snapshot,
}

abbrev pub Each {ℓ} : {A : Type ℓ} → (A → Type 0) → List A → Type 0
Each P [] = Unit
Each P (a ∷ l) = P a × Each P l

abbrev pub IsAbsent : String → List String → Type 0
IsAbsent k l = Each (λ x. k ≢ x) l

abbrev pub IsDistinct : List String → Type 0
IsDistinct [] = Unit
IsDistinct (k ∷ l) = IsAbsent k l × IsDistinct l

-- The access document of an agent is its own, and its skills have an id each.
pub record IsSound (i : SnapshotAgent) : Type 0 where
  pub named : blank i.agent.runtime_agent_id ≡ false
  pub own : i.access.agent_id ≢ "" → i.access.agent_id ≡ agent_id_of i
  pub skills : IsDistinct (map (λ s. s.runtime_skill_id) i.skills)

pub record IsConsistent (s : RuntimeSnapshot) : Type 0 where
  pub diagnostics : IsDistinct (map (λ i. trim_space i.check_id) s.diagnostics)
  pub inventory : IsDistinct (map inventory_key s.inventory)
  pub capabilities : IsDistinct (map capability_key s.capability_catalog)
  pub delegations : IsDistinct (map delegation_key s.agent_delegations)
  pub agents : IsDistinct (map agent_id_of s.agents)
  pub agents_sound : Each IsSound s.agents
  pub executions : IsDistinct (map execution_key s.executions)
  pub subagent_executions :
      IsDistinct (map (λ i. trim_space i.runtime_execution_id) s.subagent_executions)

has-IsAbsent : (k : String) (l : List String) → has k l ≡ false → IsAbsent k l
unfolding has
has-IsAbsent k [] h = tt
has-IsAbsent k (x ∷ l) h = (ground (arith, eq_iff k x), has-IsAbsent k l (ground arith))

IsAbsent-head :
    (k : String) (seen l : List String) → Each (λ x. IsAbsent x (k ∷ seen)) l → IsAbsent k l
IsAbsent-head k seen [] h = tt
IsAbsent-head k seen (x ∷ l) h = ((λ p. h.0.0 (sym p)), IsAbsent-head k seen l h.1)

IsAbsent-tail :
    (k : String) (seen l : List String)
    → Each (λ x. IsAbsent x (k ∷ seen)) l
    → Each (λ x. IsAbsent x seen) l
IsAbsent-tail k seen [] h = tt
IsAbsent-tail k seen (x ∷ l) h = (h.0.1, IsAbsent-tail k seen l h.1)

or_left : (d e : Option Error) → (d or_else e) ≡ none → d ≡ none
or_left none e h = refl
or_left (some x) e h = h

or_right : (d e : Option Error) → (d or_else e) ≡ none → e ≡ none
or_right none e h = h
or_right (some x) e h = cc

when-none : (b : Bool) (e : Error) → when b e ≡ none → b ≡ false
when-none true e h = cc
when-none false e h = refl

-- What a loop that finds nothing wrong has seen.
pub record IsPassed {A : Type 0} (c : Check A) (seen : List String) (l : List A) : Type 0 where
  pub distinct : IsDistinct (map c.key l)
  pub apart : Each (λ k. IsAbsent k seen) (map c.key l)
  pub each : Each (λ a. (c.before a ≡ none) × (c.after a ≡ none)) l

scan-IsPassed :
    {A : Type 0} (c : Check A) (seen : List String) (l : List A)
    → scan c seen l ≡ none
    → IsPassed c seen l
unfolding scan
scan-IsPassed c seen [] h = record { distinct = tt; apart = tt; each = tt }
scan-IsPassed c seen (a ∷ l) h =
    let fresh = or_right (c.before a) _ h in
    let kept = or_right (when (has (c.key a) seen) (c.duplicate a)) _ fresh in
    let p = scan-IsPassed c (c.key a ∷ seen) l (or_right (c.after a) _ kept) in
    let new = when-none (has (c.key a) seen) (c.duplicate a) (or_left _ _ fresh) in
    record {
      distinct = (IsAbsent-head (c.key a) seen (map c.key l) p.apart, p.distinct);
      apart = (has-IsAbsent (c.key a) seen new, IsAbsent-tail (c.key a) seen (map c.key l) p.apart);
      each = ((or_left (c.before a) _ h, or_left (c.after a) _ kept), p.each);
    }

own_document : (a b : String) → (not (a == "") && not (a == b)) ≡ false → a ≢ "" → a ≡ b
own_document a b h given = ground (arith, eq_iff a "", eq_iff a b)

agents_check-IsSound :
    (l : List SnapshotAgent)
    → Each (λ a. (agents_check.before a ≡ none) × (agents_check.after a ≡ none)) l
    → Each IsSound l
agents_check-IsSound [] h = tt
agents_check-IsSound (i ∷ l) h = (
  record {
    named = when-none (blank i.agent.runtime_agent_id) _ h.0.0;
    own = own_document i.access.agent_id (agent_id_of i) (when-none _ _ (or_left _ _ h.0.1));
    skills =
        (scan-IsPassed (skills_check (agent_id_of i)) [] i.skills (or_right _ _ h.0.1)).distinct;
  },
  agents_check-IsSound l h.1,
)

-- A snapshot that `validateRuntimeSnapshot` lets through has no two diagnostics, inventory items,
-- capabilities, delegations, agents, executions or subagent executions with the same key, every
-- agent has an id, no two of its skills have the same id, and an access document that names an
-- agent names its own.
pub validate_runtime_snapshot-IsConsistent :
    (s : RuntimeSnapshot) → validate_runtime_snapshot s ≡ none → IsConsistent s
unfolding validate_runtime_snapshot
validate_runtime_snapshot-IsConsistent s h =
    let h2 = or_right (scan diagnostics_check [] s.diagnostics) _ h in
    let h3 = or_right (scan inventory_check [] s.inventory) _ h2 in
    let h4 = or_right (scan capabilities_check [] s.capability_catalog) _ h3 in
    let h5 = or_right (scan delegations_check [] s.agent_delegations) _ h4 in
    let h6 = or_right (scan agents_check [] s.agents) _ h5 in
    let h7 = or_right (scan executions_check [] s.executions) _ h6 in
    let agents = scan-IsPassed agents_check [] s.agents (or_left _ _ h5) in
    record {
      diagnostics = (scan-IsPassed diagnostics_check [] s.diagnostics (or_left _ _ h)).distinct;
      inventory = (scan-IsPassed inventory_check [] s.inventory (or_left _ _ h2)).distinct;
      capabilities =
          (scan-IsPassed capabilities_check [] s.capability_catalog (or_left _ _ h3)).distinct;
      delegations =
          (scan-IsPassed delegations_check [] s.agent_delegations (or_left _ _ h4)).distinct;
      agents = agents.distinct;
      agents_sound = agents_check-IsSound s.agents agents.each;
      executions = (scan-IsPassed executions_check [] s.executions (or_left _ _ h6)).distinct;
      subagent_executions = (scan-IsPassed subagents_check [] s.subagent_executions h7).distinct;
    }
