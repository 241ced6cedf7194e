-- ===== src/Vault/Invariant.antt =====
-- What every operation of adversarial_cognition/backend.py keeps of the vault's memories.
use adversarial_cognition.Prelude.{
  String, ◌≡◌, refl, some, List, [], ◌∷◌, arith, get, put, Dict, Distinct, Distinct-put, Entries,
  Entries-put, Entries-get, contains, Bool-cases, Option-cases, inl, inr,
}
use adversarial_cognition.Hashes.{Hashes}
use adversarial_cognition.Vault.{
  Actor, Memory, Date, Vault, claim, remember, recall, improve, improve_new, supersede, forget,
  forget_known, forget_derived,
}
use adversarial_cognition.Vault
use adversarial_cognition.Vault.Requests.{Request, Event, ask, answer, happen, run}

-- The entry's key is the memory's own identifier.
abbrev pub Keyed : String → Memory → Type 0
Keyed k m = m.memory_id ≡ k

-- No key stands twice, and each is its memory's own.
abbrev pub Sound : Dict Memory → Type 0
Sound d = Distinct d × Entries Keyed d

put-Sound :
    (d : Dict Memory) (k : String) (m : Memory) → m.memory_id ≡ k → Sound d → Sound (put d k m)
put-Sound d k m e s = (Distinct-put d k m s.0, Entries-put Keyed d k m e s.1)

pub forget_derived-Sound :
    (i : String) (items d : Dict Memory)
    → Entries Keyed items
    → Sound d
    → Sound (forget_derived i items d)
unfolding forget_derived
forget_derived-Sound i [] d k s = s
forget_derived-Sound i ((key, m) ∷ items) d k s = elim (Bool-cases (contains i m.derived_from)) [
  | inl derived ↦ rw derived (
      forget_derived-Sound i items _ k.1 (put-Sound d key (record m { state = "forgotten" }) k.0 s))
  | inr other ↦ rw other (forget_derived-Sound i items d k.1 s)
]

abbrev pub IsWellFormed : Vault → Type 0
IsWellFormed v = Sound v.memories

module _ (h : Hashes) where
  remember-Sound :
      (m : Memory) (a : Actor) (nonce : String) (v : Vault)
      → IsWellFormed v
      → IsWellFormed (remember h m a nonce v).1
  unfolding remember
  remember-Sound m a nonce v s = ground (arith, put-Sound v.memories m.memory_id m refl s)

  recall-Sound :
      (query : String) (a : Actor) (as_of : Date) (nonce : String) (v : Vault)
      → IsWellFormed v
      → IsWellFormed (recall h query a as_of nonce v).1
  unfolding recall
  recall-Sound query a as_of nonce v s = ground arith

  supersede-Sound :
      (i : String) (current m : Memory) (key : String) (v : Vault)
      → get v.memories i ≡ some current
      → IsWellFormed v
      → IsWellFormed (supersede h i current m key v).1
  unfolding supersede
  supersede-Sound i current m key v found s = put-Sound _ m.memory_id m refl (
      put-Sound v.memories i (record current { state = "superseded" })
        (Entries-get Keyed v.memories i current s.1 found) s)

  improve_new-Sound :
      (i : String) (m : Memory) (a : Actor) (expected key : String) (v : Vault)
      → IsWellFormed v
      → IsWellFormed (improve_new h i m a expected key v).1
  unfolding improve_new
  improve_new-Sound i m a expected key v s = elim (Option-cases (get v.memories i)) [
    | inl missing ↦ rw (missing, improve_new) s
    | inr (current, found) ↦ ground (arith, supersede-Sound i current m key v found s)
  ]

  improve-Sound :
      (i : String) (m : Memory) (a : Actor) (nonce expected key : String) (v : Vault)
      → IsWellFormed v
      → IsWellFormed (improve h i m a nonce expected key v).1
  unfolding improve
  improve-Sound i m a nonce expected key v s =
      ground (arith, improve_new-Sound i m a expected key (claim a nonce v).1)

  forget_known-Sound :
      (i : String) (m : Memory) (v : Vault)
      → get v.memories i ≡ some m
      → IsWellFormed v
      → IsWellFormed (forget_known h i m v).1
  unfolding forget_known
  forget_known-Sound i m v found s =
      let kept : Sound (put v.memories i (record m { state = "forgotten" })) =
        put-Sound v.memories i (record m { state = "forgotten" })
          (Entries-get Keyed v.memories i m s.1 found) s in
      forget_derived-Sound i _ _ kept.1 kept

  pub forget-IsWellFormed :
      (i : String) (a : Actor) (nonce : String) (v : Vault)
      → IsWellFormed v
      → IsWellFormed (forget h i a nonce v).1
  unfolding forget
  forget-IsWellFormed i a nonce v s = elim (Option-cases (get v.memories i)) [
    | inl missing ↦ ground arith
    | inr (m, found) ↦ ground (arith, forget_known-Sound i m (claim a nonce v).1)
  ]

  answer-Sound :
      (r : Request) (a : Actor) (nonce : String) (v : Vault)
      → IsWellFormed v
      → IsWellFormed (answer h r a nonce v).1
  unfolding answer
  answer-Sound (Request.remember m) a nonce v s = remember-Sound m a nonce v s
  answer-Sound (Request.recall query as_of) a nonce v s = recall-Sound query a as_of nonce v s
  answer-Sound (Request.improve i m expected key) a nonce v s =
      improve-Sound i m a nonce expected key v s
  answer-Sound (Request.forget i) a nonce v s = forget-IsWellFormed i a nonce v s

  happen-Sound : (e : Event) (v : Vault) → IsWellFormed v → IsWellFormed (happen h e v)
  unfolding happen Vault.restart
  happen-Sound (ask r a nonce) v s = answer-Sound r a nonce v s
  happen-Sound Event.restart v s = s

  -- From a vault in which no key stands twice and every memory stands under its own identifier, any
  -- requests and restarts lead to such a vault.
  pub run-IsWellFormed :
      (events : List Event) (v : Vault) → IsWellFormed v → IsWellFormed (run h events v)
  unfolding run
  run-IsWellFormed [] v s = s
  run-IsWellFormed (e ∷ events) v s = run-IsWellFormed events (happen h e v) (happen-Sound e v s)
