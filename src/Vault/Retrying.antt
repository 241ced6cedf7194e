-- ===== src/Vault/Retrying.antt =====
-- `improve` of adversarial_cognition/backend.py: its effect, and retries under one idempotency key.
use adversarial_cognition.Prelude.{
  String, ◌<>◌, ◌≡◌, true, false, none, some, ◌↔◌, List, [], ◌∷◌, arith, ◌==◌, eq_iff,
  if◌then◌else◌, get, put, get-put, Option-cases, inl, inr, eq_refl,
}
use adversarial_cognition.Hashes.{Hashes}
use adversarial_cognition.Vault.{
  Actor, Memory, Decision, Vault, granted, digest, claim, claimed, remember, recall, improve,
  improve_new, supersede, forget, forget_known,
}
use adversarial_cognition.Vault
use adversarial_cognition.Vault.Requests.{Request, Event, ask, answer, happen, run}
use adversarial_cognition.Vault.Policy.{Authorized→authorized}
use adversarial_cognition.Vault.Mutating.{MayImprove, MayImprove→improves, improves→MayImprove}

module _ (h : Hashes) where
  improve_denied :
      (i : String) (m : Memory) (a : Actor) (nonce expected key : String) (v : Vault)
      → get v.idempotency key ≡ none
      → (improve h i m a nonce expected key v).0.allowed ≡ false
      → ((improve h i m a nonce expected key v).1.memories ≡ v.memories)
        × ((improve h i m a nonce expected key v).1.idempotency ≡ v.idempotency)
  unfolding improve
  improve_denied i m a nonce expected key v new_key e = elim (Option-cases (get v.memories i)) [
    | inl missing ↦ ground arith
    | inr (current, found) ↦ ground arith
  ]

  -- For a key without a decision, `improve` is allowed exactly for a new nonce of an actor that may
  -- mutate, a memory whose source digest is the expected one and that the actor is authorized for,
  -- and a replacement not above its clearance. Then the replacement stands under its identifier, the
  -- old memory is superseded, every other entry is as it was, and the key has the decision. Where
  -- it is denied neither the memories nor the keys change.
  pub improve_exact :
      (i : String) (m : Memory) (a : Actor) (nonce expected key : String) (v : Vault)
      → get v.idempotency key ≡ none
      → (((improve h i m a nonce expected key v).0.allowed ≡ true)
          ↔ MayImprove i m a nonce expected key v)
        × ((may : MayImprove i m a nonce expected key v)
            → ((j : String)
                → get (improve h i m a nonce expected key v).1.memories j ≡ (
                    if m.memory_id == j
                    then some m
                    else if i == j
                    then some (record (may.source.0) { state = "superseded" })
                    else get v.memories j))
              × (get (improve h i m a nonce expected key v).1.idempotency key
                  ≡ some (improve h i m a nonce expected key v).0))
        × ((improve h i m a nonce expected key v).0.allowed ≡ false
            → ((improve h i m a nonce expected key v).1.memories ≡ v.memories)
              × ((improve h i m a nonce expected key v).1.idempotency ≡ v.idempotency))
  improve_exact i m a nonce expected key v new_key =
      let done = λ (may : MayImprove i m a nonce expected key v).
        MayImprove→improves h i m a nonce expected key v (may.source.0) may.fresh may.mutator
          may.new_key (may.source.1) (may.source.2)
          (Authorized→authorized (may.source.0) a (may.source.3)) may.cleared in
      (
        (improves→MayImprove h i m a nonce expected key v new_key, λ may. rw ((done may).0)),
        λ may. (
          λ j. rw (
            (done may).1,
            get-put (put v.memories i (record (may.source.0) { state = "superseded" })) m.memory_id
                j m,
            get-put v.memories i j (record (may.source.0) { state = "superseded" }),
          ),
          (rw ((done may).2) (rw (get-put v.idempotency key key _, eq_refl key))),
        ),
        improve_denied i m a nonce expected key v new_key,
      )

  improve_stored :
      (i : String) (m : Memory) (a : Actor) (nonce expected key : String) (v : Vault) (d : Decision)
      → claimed a.did nonce v.nonces ≡ false
      → a.can_mutate ≡ true
      → get v.idempotency key ≡ some d
      → ((improve h i m a nonce expected key v).0 ≡ d)
        × ((improve h i m a nonce expected key v).1.memories ≡ v.memories)
  unfolding improve
  improve_stored i m a nonce expected key v d fresh mutator stored = ground arith

  -- A key's decision stays.
  -- A key's decision stays.
  improve_new-keeps_key :
      (k : String) (d : Decision) (i : String) (m : Memory) (a : Actor) (expected key : String)
      (v : Vault)
      → get v.idempotency k ≡ some d
      → get v.idempotency key ≡ none
      → get (improve_new h i m a expected key v).1.idempotency k ≡ some d
  unfolding improve_new supersede
  improve_new-keeps_key k d i m a expected key v stored new_key =
      elim (Option-cases (get v.memories i)) [
        | inl missing ↦ ground arith
        | inr (current, found) ↦ ground (
          arith,
          get-put v.idempotency key k (
              granted (i ∷ m.memory_id ∷ [])
                (digest h ("improve:" <> (i <> (":" <> m.memory_id))))),
          eq_iff key k,
        )
      ]

  improve-keeps_key :
      (k : String) (d : Decision) (i : String) (m : Memory) (a : Actor)
      (nonce expected key : String) (v : Vault)
      → get v.idempotency k ≡ some d
      → get (improve h i m a nonce expected key v).1.idempotency k ≡ some d
  unfolding improve
  improve-keeps_key k d i m a nonce expected key v stored =
      elim (Option-cases (get v.idempotency key)) [
        | inl new_key ↦
            ground (arith, improve_new-keeps_key k d i m a expected key (claim a nonce v).1)
        | inr (e, known) ↦ ground arith
      ]

  happen-keeps_key :
      (k : String) (d : Decision) (e : Event) (v : Vault)
      → get v.idempotency k ≡ some d
      → get (happen h e v).idempotency k ≡ some d
  unfolding happen answer remember recall forget forget_known Vault.restart
  happen-keeps_key k d (ask (Request.remember m) a nonce) v stored = ground arith
  happen-keeps_key k d (ask (Request.recall query as_of) a nonce) v stored = ground arith
  happen-keeps_key k d (ask (Request.improve i m expected key) a nonce) v stored =
      improve-keeps_key k d i m a nonce expected key v stored
  happen-keeps_key k d (ask (Request.forget i) a nonce) v stored = ground arith
  happen-keeps_key k d Event.restart v stored = stored

  run-keeps_key :
      (k : String) (d : Decision) (events : List Event) (v : Vault)
      → get v.idempotency k ≡ some d
      → get (run h events v).idempotency k ≡ some d
  unfolding run
  run-keeps_key k d [] v stored = stored
  run-keeps_key k d (e ∷ events) v stored =
      run-keeps_key k d events (happen h e v) (happen-keeps_key k d e v stored)

  -- After an `improve` that superseded a memory, and any requests and restarts, every `improve`
  -- under the same key, by any actor that may mutate and with a new nonce, returns the decision of
  -- the first and changes no memory, whatever it names and whoever asks.
  pub improve_retried :
      (i i' : String) (m m' : Memory) (a b : Actor) (nonce nonce' expected expected' key : String)
      (between : List Event) (v : Vault)
      → MayImprove i m a nonce expected key v
      → b.can_mutate ≡ true
      → claimed b.did nonce' (run h between (improve h i m a nonce expected key v).1).nonces ≡ false
      → ((improve h i' m' b nonce' expected' key
            (run h between (improve h i m a nonce expected key v).1)).0
          ≡ (improve h i m a nonce expected key v).0)
        × ((improve h i' m' b nonce' expected' key
              (run h between (improve h i m a nonce expected key v).1)).1.memories
            ≡ (run h between (improve h i m a nonce expected key v).1).memories)
  improve_retried i i' m m' a b nonce nonce' expected expected' key between v may mutator fresh =
      improve_stored i' m' b nonce' expected' key
        (run h between (improve h i m a nonce expected key v).1)
        (improve h i m a nonce expected key v).0 fresh mutator
        (run-keeps_key key (improve h i m a nonce expected key v).0 between
          (improve h i m a nonce expected key v).1
          ((improve_exact i m a nonce expected key v may.new_key).1 may).1)
