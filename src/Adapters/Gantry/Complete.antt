-- ===== src/Adapters/Gantry/Complete.antt =====
-- Which delegations `ListAgentDelegates` of internal/adapters/gantry/client.go reports.
use capcom.Prelude.{
  ℕ, String, Bool, true, false, not, ◌||◌, ◌==◌, if◌then◌else◌, Bool-cases, ◌≡◌, refl, sym, ◌∙◌, ap,
  inl, inr, List, [], ◌∷◌, ◌++◌, map, arith, eq_refl,
}
use mathlib.Core.Path.{subst}
use capcom.Prelude.Text.{trim_space}
use capcom.Domain.Runtime.{Time}
use capcom.Domain.Snapshot.{AgentDelegationSnapshot}
use capcom.Sync.Validate.{has}
use capcom.Sync.Validated.{Each}
use capcom.Adapters.Gantry.Dto.{GantryAgentDelegates, GantryResolvedDelegate}
use capcom.Adapters.Gantry.Delegates.{
  configured_refs, ref_of, is_identified, resolved_item, configured_item, resolved_items, seen_refs,
  unresolved_items, delegations_of,
}

abbrev pub refs_of : List AgentDelegationSnapshot → List String
refs_of items = map (λ i. i.delegate_ref) items

refs-append : (l m : List AgentDelegationSnapshot) → refs_of (l ++ m) ≡ refs_of l ++ refs_of m
refs-append [] m = refl
refs-append (i ∷ l) m = ap (λ r. i.delegate_ref ∷ r) (refs-append l m)

Each-append {ℓ} :
    {A : Type ℓ} (P : A → Type 0) (l m : List A) → Each P l → Each P m → Each P (l ++ m)
Each-append P [] m h k = k
Each-append P (a ∷ l) m h k = (h.0, Each-append P l m h.1 k)

-- An item of a loop that may `continue`, and its key.
either_flagged {ℓ κ} :
    {A : Type ℓ} {K : Type κ} (P : K → Type 0) (Q : A → Type 0) (b : Bool) (k : K) (ks : List K)
    (a : A) (l : List A)
    → Each P (if b then k ∷ ks else ks)
    → (P k → Q a)
    → (Each P ks → Each Q l)
    → Each Q (if b then a ∷ l else l)
either_flagged P Q true k ks a l h f g = (f h.0, g h.1)
either_flagged P Q false k ks a l h f g = g h

-- The same where a key is looked at, and then whether it was seen.
either_key {ℓ κ} :
    {A : Type ℓ} {K : Type κ} (P : K → Type 0) (Q : A → Type 0) (b s : Bool) (k : K) (ks : List K)
    (a : A) (l : List A)
    → Each P (if b then ks else k ∷ ks)
    → (P k → s ≡ false → Q a)
    → (Each P ks → Each Q l)
    → Each Q (if b || s then l else a ∷ l)
either_key P Q true s k ks a l h f g = g h
either_key P Q false true k ks a l h f g = g h.1
either_key P Q false false k ks a l h f g = (f h.0 refl, g h.1)

kept {ℓ} : {A : Type ℓ} → (A → Bool) → List A → List A
kept p [] = []
kept p (a ∷ l) = let rest = kept p l in if p a then a ∷ rest else rest

-- The refs that are configured: the texts that are not blank, trimmed.
abbrev pub named_refs : List String → List String
unfolding kept
named_refs delegates = kept (λ r. not (r == "")) (map trim_space delegates)

-- The ref of a resolved delegate, or, where there is none, its agent.
abbrev resolved_ref : GantryResolvedDelegate → String
resolved_ref d = if trim_space d.ref == "" then trim_space d.agent_id else trim_space d.ref

-- The refs of the resolved delegates that have an agent.
abbrev pub resolved_refs : List GantryResolvedDelegate → List String
unfolding kept
resolved_refs resolved = map resolved_ref (kept (λ d. not (trim_space d.agent_id == "")) resolved)

-- The configured refs that no resolved delegate has.
abbrev pub unresolved_refs : GantryAgentDelegates → List String
unfolding kept
unresolved_refs payload =
    kept (λ r. not (has r (resolved_refs payload.resolved))) (named_refs payload.delegates)

configured-named : (delegates : List String) → configured_refs delegates ≡ named_refs delegates
unfolding configured_refs kept
configured-named [] = refl
configured-named (raw ∷ delegates) = ground (arith, configured-named delegates)

seen-resolved :
    (resolved : List GantryResolvedDelegate) → seen_refs resolved ≡ resolved_refs resolved
unfolding seen_refs kept is_identified ref_of
seen-resolved [] = refl
seen-resolved (d ∷ resolved) = ground (arith, seen-resolved resolved)

own_refs_in :
    (l m : List String)
    → ((k : String) → has k m ≡ true → has k l ≡ true)
    → Each (λ r. has r l ≡ true) m
unfolding has
own_refs_in l [] h = tt
own_refs_in l (x ∷ m) h =
    let rest : (k : String) → has k m ≡ true → has k l ≡ true = λ k e. h k (ground (arith, e)) in
    (h x (ground (arith, eq_refl x)), own_refs_in l m rest)

own_refs : (l : List String) → Each (λ r. has r l ≡ true) l
own_refs l = own_refs_in l l (λ k e. e)

-- An item whose flags are those of its ref.
pub record IsFlagged (named seen : List String) (i : AgentDelegationSnapshot) : Type 0 where
  pub configured : i.configured ≡ has i.delegate_ref named
  pub resolved : i.resolved ≡ has i.delegate_ref seen

module _ (id : String) (revision : ℕ) (t : Time) where
  resolved-refs :
      (configured : List String) (resolved : List GantryResolvedDelegate)
      → refs_of (resolved_items id revision t configured resolved) ≡ seen_refs resolved
  unfolding resolved_items seen_refs resolved_item
  resolved-refs configured [] = refl
  resolved-refs configured (d ∷ resolved) = elim (Bool-cases (is_identified d)) [
    | inl y ↦ rw y (ap (λ r. ref_of d ∷ r) (resolved-refs configured resolved))
    | inr n ↦ rw n (resolved-refs configured resolved)
  ]

  unresolved-refs :
      (seen delegates : List String)
      → refs_of (unresolved_items id revision t seen delegates)
        ≡ kept (λ r. not (has r seen)) (configured_refs delegates)
  unfolding unresolved_items configured_refs configured_item kept
  unresolved-refs seen [] = refl
  unresolved-refs seen (raw ∷ delegates) =
      let ih = unresolved-refs seen delegates in
      let ref = trim_space raw in
      elim (Bool-cases (ref == "")) [
        | inl y ↦ rw y ih
        | inr n ↦ elim (Bool-cases (has ref seen)) [
          | inl y ↦ rw (n, y) ih
          | inr m ↦ rw (n, m) (ap (λ l. ref ∷ l) ih)
        ]
      ]

  resolved-IsFlagged :
      (configured seen : List String) (resolved : List GantryResolvedDelegate)
      → Each (λ r. has r seen ≡ true) (seen_refs resolved)
      → Each (IsFlagged configured seen) (resolved_items id revision t configured resolved)
  unfolding resolved_items resolved_item seen_refs
  resolved-IsFlagged configured seen [] h = tt
  resolved-IsFlagged configured seen (d ∷ resolved) h =
      either_flagged (λ r. has r seen ≡ true) (IsFlagged configured seen) (is_identified d)
        (ref_of d) (seen_refs resolved) (resolved_item id revision t configured d)
        (resolved_items id revision t configured resolved) h
        (λ e. record { configured = refl; resolved = sym e })
        (resolved-IsFlagged configured seen resolved)

  unresolved-IsFlagged :
      (configured seen delegates : List String)
      → Each (λ r. has r configured ≡ true) (configured_refs delegates)
      → Each (IsFlagged configured seen) (unresolved_items id revision t seen delegates)
  unfolding unresolved_items configured_refs configured_item
  unresolved-IsFlagged configured seen [] h = tt
  unresolved-IsFlagged configured seen (raw ∷ delegates) h =
      let ref = trim_space raw in
      either_key (λ r. has r configured ≡ true) (IsFlagged configured seen) (ref == "")
        (has ref seen) ref (configured_refs delegates) (configured_item id revision t ref)
        (unresolved_items id revision t seen delegates) h
        (λ e f. record { configured = sym e; resolved = sym f })
        (unresolved-IsFlagged configured seen delegates)

-- The refs of the delegations that are reported of an agent are those of the resolved delegates
-- that have an agent, in their order, a missing ref being the agent's id, and then the configured
-- ones that are not blank and not among them, in theirs. Each says rightly whether its ref is
-- configured and whether it is resolved.
pub delegations_of-refs :
    (id : String) (revision : ℕ) (t : Time) (payload : GantryAgentDelegates)
    → (refs_of (delegations_of id revision t payload)
        ≡ resolved_refs payload.resolved ++ unresolved_refs payload)
      × Each
          (IsFlagged (named_refs payload.delegates) (resolved_refs payload.resolved))
          (delegations_of id revision t payload)
unfolding delegations_of unresolved_refs kept
delegations_of-refs id revision t payload =
    let configured = configured_refs payload.delegates in
    let seen = seen_refs payload.resolved in
    let first = resolved_items id revision t configured payload.resolved in
    let second = unresolved_items id revision t seen payload.delegates in
    let refs : refs_of (first ++ second) ≡ seen ++ kept (λ r. not (has r seen)) configured =
      refs-append first second
      ∙ ap (λ l. l ++ refs_of second) (resolved-refs id revision t configured payload.resolved)
      ∙ ap (λ l. seen ++ l) (unresolved-refs id revision t seen payload.delegates) in
    let flags : Each (IsFlagged configured seen) (first ++ second) =
      Each-append _ first second
        (resolved-IsFlagged id revision t configured seen payload.resolved (own_refs seen))
        (unresolved-IsFlagged id revision t configured seen payload.delegates
          (own_refs configured)) in
    let same_seen = seen-resolved payload.resolved in
    let same_named = configured-named payload.delegates in
    (
      refs
          ∙ ap (λ l. l ++ kept (λ r. not (has r l)) configured) same_seen
          ∙ ap
              (λ l.
                resolved_refs payload.resolved
                ++ kept (λ r. not (has r (resolved_refs payload.resolved))) l)
              same_named,
      subst (λ l. Each (IsFlagged (named_refs payload.delegates) l) (first ++ second)) same_seen
          (subst (λ l. Each (IsFlagged l seen) (first ++ second)) same_named flags),
    )
