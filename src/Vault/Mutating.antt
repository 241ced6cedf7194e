-- ===== src/Vault/Mutating.antt =====
-- `remember` and `improve` of adversarial_cognition/backend.py on every branch, and the stored
-- decisions of idempotency keys.
use adversarial_cognition.Prelude.{
  ◌≤◌, String, ◌<>◌, ◌≡◌, true, false, none, some, ◌↔◌, inl, inr, [], ◌∷◌, arith, ◌==◌, eq_iff,
  len_text, if◌then◌else◌, get, put, get-put, Option-cases,
}
use adversarial_cognition.Hashes.{Hashes}
use adversarial_cognition.Vault.{
  Actor, Memory, Vault, granted, claimed, authorized, remember, improve, supersede, digest,
  max_text_chars,
}
use adversarial_cognition.Vault.Policy.{Authorized, authorized→Authorized}

-- When `remember` is allowed. A memory that is there already under the identifier is no obstacle.
pub record MayRemember (m : Memory) (a : Actor) (nonce : String) (v : Vault) : Type 0 where
  pub fresh : claimed a.did nonce v.nonces ≡ false
  pub mutator : a.can_mutate ≡ true
  pub short : len_text m.text ≤ max_text_chars
  pub tenant : m.tenant ≡ a.tenant
  pub space : m.space ≡ a.space
  pub cleared : m.sensitivity ≤ a.clearance

-- When `improve` supersedes a memory.
pub record MayImprove (i : String) (m : Memory) (a : Actor) (nonce expected key : String)
    (v : Vault) : Type 0 where
  pub fresh : claimed a.did nonce v.nonces ≡ false
  pub mutator : a.can_mutate ≡ true
  pub new_key : get v.idempotency key ≡ none
  pub source :
      (current : Memory) × (get v.memories i ≡ some current)
      × (current.source_digest ≡ expected)
      × Authorized current a
  pub cleared : m.sensitivity ≤ a.clearance

module _ (h : Hashes) where
  remembers→MayRemember :
      (m : Memory) (a : Actor) (nonce : String) (v : Vault)
      → (remember h m a nonce v).0.allowed ≡ true
      → MayRemember m a nonce v
  unfolding remember
  remembers→MayRemember m a nonce v e = record {
    fresh = ground arith;
    mutator = ground arith;
    short = ground arith;
    tenant = ground (arith, eq_iff m.tenant a.tenant);
    space = ground (arith, eq_iff m.space a.space);
    cleared = ground arith;
  }

  MayRemember→remembers :
      (m : Memory) (a : Actor) (nonce : String) (v : Vault)
      → MayRemember m a nonce v
      → ((remember h m a nonce v).0
          ≡ granted
              (m.memory_id ∷ [])
              (digest h ("remember:" <> (m.memory_id <> (":" <> m.source_digest)))))
        × ((remember h m a nonce v).1.memories ≡ put v.memories m.memory_id m)
  unfolding remember
  MayRemember→remembers m a nonce v e =
      ground (arith, eq_iff m.tenant a.tenant, eq_iff m.space a.space)

  remember_denied :
      (m : Memory) (a : Actor) (nonce : String) (v : Vault)
      → (remember h m a nonce v).0.allowed ≡ false
      → (remember h m a nonce v).1.memories ≡ v.memories
  unfolding remember
  remember_denied m a nonce v e = ground arith

  -- `remember` is allowed exactly for a new nonce of an actor that may mutate, a text within the
  -- bound, and a memory in the actor's tenant and space and not above its clearance. Then the memory
  -- stands under its identifier, and every other entry is as it was. Where it is denied no memory
  -- changes.
  pub remember_exact :
      (m : Memory) (a : Actor) (nonce : String) (v : Vault)
      → (((remember h m a nonce v).0.allowed ≡ true) ↔ MayRemember m a nonce v)
        × (MayRemember m a nonce v
            → (j : String)
            → get (remember h m a nonce v).1.memories j
              ≡ (if m.memory_id == j then some m else get v.memories j))
        × ((remember h m a nonce v).0.allowed ≡ false
            → (remember h m a nonce v).1.memories ≡ v.memories)
  remember_exact m a nonce v = (
    (remembers→MayRemember m a nonce v, λ may. rw ((MayRemember→remembers m a nonce v may).0)),
    λ may j. rw ((MayRemember→remembers m a nonce v may).1) (get-put v.memories m.memory_id j m),
    remember_denied m a nonce v,
  )

  pub MayImprove→improves :
      (i : String) (m : Memory) (a : Actor) (nonce expected key : String) (v : Vault)
      (current : Memory)
      → claimed a.did nonce v.nonces ≡ false
      → a.can_mutate ≡ true
      → get v.idempotency key ≡ none
      → get v.memories i ≡ some current
      → current.source_digest ≡ expected
      → authorized current a ≡ true
      → m.sensitivity ≤ a.clearance
      → ((improve h i m a nonce expected key v).0
          ≡ granted (i ∷ m.memory_id ∷ []) (digest h ("improve:" <> (i <> (":" <> m.memory_id)))))
        × ((improve h i m a nonce expected key v).1.memories
            ≡ put (put v.memories i (record current { state = "superseded" })) m.memory_id m)
        × ((improve h i m a nonce expected key v).1.idempotency
            ≡ put v.idempotency key (improve h i m a nonce expected key v).0)
  unfolding improve supersede
  MayImprove→improves i m a nonce expected key v current fresh mutator new_key found same policy
        ok =
      ground (arith, eq_iff current.source_digest expected)

  pub improves→MayImprove :
      (i : String) (m : Memory) (a : Actor) (nonce expected key : String) (v : Vault)
      → get v.idempotency key ≡ none
      → (improve h i m a nonce expected key v).0.allowed ≡ true
      → MayImprove i m a nonce expected key v
  unfolding improve
  improves→MayImprove i m a nonce expected key v new_key e =
      elim (Option-cases (get v.memories i)) [
        | inl missing ↦ absurd (ground arith)
        | inr (current, found) ↦ record {
          fresh = ground arith;
          mutator = ground arith;
          new_key = new_key;
          source = (
            current,
            found,
            ground (arith, eq_iff current.source_digest expected),
            authorized→Authorized current a (ground arith),
          );
          cleared = ground arith;
        }
      ]
