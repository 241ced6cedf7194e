-- ===== src/Vault/Forgetting.antt =====
-- `forget` of adversarial_cognition/backend.py: what it marks, and what no recall returns after it.
use adversarial_cognition.Prelude.{
  String, ◌≡◌, refl, ap, ◌∙◌, true, false, Option, none, some, ◌⊎◌, ◌↔◌, ◌||◌, inl, inr, List, [],
  ◌∷◌, arith, ◌==◌, eq_iff, ◌<◌, ltb, ltb→lt, len_text, if◌then◌else◌, Dict, get, put, get-put,
  Distinct, Distinct-put, contains, Option-cases, Bool-cases,
}
use adversarial_cognition.Hashes.{Hashes}
use adversarial_cognition.Vault.{
  Actor, Memory, Date, Decision, Vault, visible, authorized, claim, claimed, recall, forget,
  forget_known, forget_derived, max_query_chars,
}
use adversarial_cognition.Vault
use adversarial_cognition.Vault.Requests.{Request, Event, ask, answer, happen, run}
use adversarial_cognition.Vault.Invariant.{IsWellFormed, forget-IsWellFormed, run-IsWellFormed}
use adversarial_cognition.Vault.Policy.{
  Authorized, authorized→Authorized, Authorized→authorized, contains-recall,
}

abbrev forgotten : Memory → Memory
forgotten m = record m { state = "forgotten" }

-- An entry after the loop of `forget`, from the entry that the loop read and the one that it met.
abbrev swept : String → Option Memory → Option Memory → Option Memory
swept i none met = met
swept i (some m) met = if contains i m.derived_from then some (forgotten m) else met

get-forget_derived :
    (i j : String) (items d : Dict Memory)
    → Distinct items
    → get (forget_derived i items d) j ≡ swept i (get items j) (get d j)
unfolding forget_derived get
get-forget_derived i j [] d s = refl
get-forget_derived i j ((k, m) ∷ items) d s = elim (Bool-cases (contains i m.derived_from)) [
  | inl derived ↦ rw derived (
      ground (
        arith,
        eq_iff k j,
        get-put d k j (forgotten m),
        get-forget_derived i j items (put d k (forgotten m)) s.1,
      ))
  | inr other ↦ rw other (ground (arith, eq_iff k j, get-forget_derived i j items d s.1))
]

-- The entry of `j` after `i` is forgotten.
abbrev pub without : String → String → Option Memory → Option Memory
without i j none = none
without i j (some m) = if i == j || contains i m.derived_from then some (forgotten m) else some m

-- When `forget` is allowed.
pub record MayForget (i : String) (a : Actor) (nonce : String) (v : Vault) : Type 0 where
  pub fresh : claimed a.did nonce v.nonces ≡ false
  pub mutator : a.can_mutate ≡ true
  pub target : (m : Memory) × (get v.memories i ≡ some m) × Authorized m a

module _ (h : Hashes) where
  get-forget_known :
      (i j : String) (m : Memory) (v : Vault)
      → Distinct v.memories
      → get v.memories i ≡ some m
      → get (forget_known h i m v).1.memories j ≡ without i j (get v.memories j)
  unfolding forget_known
  get-forget_known i j m v s found =
      let d = put v.memories i (forgotten m) in
      get-forget_derived i j d d (Distinct-put v.memories i (forgotten m) s)
      ∙ rw (get-put v.memories i j (forgotten m)) (elim (Bool-cases (i == j)) [
        | inl same ↦ rw (same, ← (ap (get v.memories) ((eq_iff i j).0 same)), found) (ground arith)
        | inr other ↦ elim (Option-cases (get v.memories j)) [
          | inl missing ↦ rw (other, missing)
          | inr (n, present) ↦ rw (other, present) (ground (arith))
        ]
      ])

  allowed→MayForget :
      (i : String) (a : Actor) (nonce : String) (v : Vault)
      → (forget h i a nonce v).0.allowed ≡ true
      → MayForget i a nonce v
  unfolding forget
  allowed→MayForget i a nonce v e = elim (Option-cases (get v.memories i)) [
    | inl missing ↦ absurd (ground arith)
    | inr (m, found) ↦ record {
      fresh = ground arith;
      mutator = ground arith;
      target = (m, found, authorized→Authorized m a (ground arith));
    }
  ]

  forget-authorized :
      (i : String) (a : Actor) (nonce : String) (v : Vault) (m : Memory)
      → claimed a.did nonce v.nonces ≡ false
      → a.can_mutate ≡ true
      → get v.memories i ≡ some m
      → authorized m a ≡ true
      → ((forget h i a nonce v).0.allowed ≡ true)
        × ((forget h i a nonce v).1.memories ≡ (forget_known h i m v).1.memories)
  unfolding forget forget_known
  forget-authorized i a nonce v m fresh mutator found policy = ground arith

  forget_denied :
      (i : String) (a : Actor) (nonce : String) (v : Vault)
      → (forget h i a nonce v).0.allowed ≡ false
      → (forget h i a nonce v).1.memories ≡ v.memories
  unfolding forget forget_known
  forget_denied i a nonce v e = ground arith

  -- `forget` is allowed exactly for a new nonce of an actor that may mutate, on a memory that it is
  -- authorized for. Then it marks that memory and every memory that names it in `derived_from` as
  -- forgotten, and changes no other. Where it is denied it changes no memory.
  pub forget_exact :
      (i : String) (a : Actor) (nonce : String) (v : Vault)
      → IsWellFormed v
      → (((forget h i a nonce v).0.allowed ≡ true) ↔ MayForget i a nonce v)
        × (MayForget i a nonce v
            → (j : String)
            → get (forget h i a nonce v).1.memories j ≡ without i j (get v.memories j))
        × ((forget h i a nonce v).0.allowed ≡ false
            → (forget h i a nonce v).1.memories ≡ v.memories)
  forget_exact i a nonce v s = (
    (
      allowed→MayForget i a nonce v,
      λ allowance.
          let (m, found, policy) = allowance.target in
          (forget-authorized i a nonce v m allowance.fresh allowance.mutator found
            (Authorized→authorized m a policy)).0,
    ),
    λ allowance j.
        let (m, found, policy) = allowance.target in
        rw
          ((forget-authorized i a nonce v m allowance.fresh allowance.mutator found
            (Authorized→authorized m a policy)).1)
          (get-forget_known i j m v s.0 found),
    forget_denied i a nonce v,
  )

-- Requests and restarts that write no memory.
abbrev pub IsReading : List Event → Type 0
IsReading [] = Unit
IsReading (ask (Request.recall query as_of) a nonce ∷ events) = IsReading events
IsReading (Event.restart ∷ events) = IsReading events
IsReading (ask r a nonce ∷ events) = ⊥

module _ (h : Hashes) where
  memories-recall :
      (query : String) (a : Actor) (as_of : Date) (nonce : String) (v : Vault)
      → (recall h query a as_of nonce v).1.memories ≡ v.memories
  unfolding recall
  memories-recall query a as_of nonce v = ground arith

  memories-reading :
      (events : List Event) (v : Vault) → IsReading events → (run h events v).memories ≡ v.memories
  unfolding run happen answer Vault.restart
  memories-reading [] v r = refl
  memories-reading (ask (Request.recall query as_of) a nonce ∷ events) v r =
      memories-reading events (recall h query a as_of nonce v).1 r
      ∙ memories-recall query a as_of nonce v
  memories-reading (Event.restart ∷ events) v r = memories-reading events v r
  memories-reading (ask _ a nonce ∷ events) v r = absurd r

  -- A recall that is refused returns nothing.
  ids-recall_refused :
      (query : String) (a : Actor) (as_of : Date) (nonce : String) (v : Vault)
      → (claimed a.did nonce v.nonces ≡ true) ⊎ (max_query_chars < len_text query)
      → (recall h query a as_of nonce v).0.ids ≡ []
  unfolding recall
  ids-recall_refused query a as_of nonce v e = ground arith

  recall_hides :
      (query : String) (a : Actor) (as_of : Date) (nonce : String) (v : Vault) (j : String)
      (m : Memory)
      → IsWellFormed v
      → get v.memories j ≡ some (forgotten m)
      → contains j (recall h query a as_of nonce v).0.ids ≡ false
  recall_hides query a as_of nonce v j m s found =
      elim (Bool-cases (claimed a.did nonce v.nonces)) [
        | inl used ↦ rw (ids-recall_refused query a as_of nonce v (inl used))
        | inr fresh ↦ elim (Bool-cases (ltb max_query_chars (len_text query))) [
          | inl long ↦ rw (ids-recall_refused query a as_of nonce v (inr (ltb→lt _ _ long)))
          | inr short ↦
              contains-recall h query a as_of nonce v j s fresh (ground arith)
              ∙ rw found (unfold visible in refl)
        ]
      ]

  -- After an allowed `forget` of `i`, and any recalls and restarts, no recall by any actor on any
  -- date returns `i` or a memory that names `i` in `derived_from`.
  pub forget_leaves_no_recall :
      (i j : String) (a b : Actor) (nonce nonce' query : String) (as_of : Date) (v : Vault)
      (m : Memory) (between : List Event)
      → IsWellFormed v
      → MayForget i a nonce v
      → get v.memories j ≡ some m
      → (i == j || contains i m.derived_from) ≡ true
      → IsReading between
      → contains j (recall h query b as_of nonce' (run h between (forget h i a nonce v).1)).0.ids
        ≡ false
  forget_leaves_no_recall i j a b nonce nonce' query as_of v m between s allowance found bound r =
      let after = (forget h i a nonce v).1 in
      recall_hides query b as_of nonce' (run h between after) j m
        (run-IsWellFormed h between after (forget-IsWellFormed h i a nonce v s))
        (rw (memories-reading between after r)
          ((forget_exact h i a nonce v s).1 allowance j ∙ rw (found, bound)))
