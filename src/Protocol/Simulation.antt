-- ===== src/Protocol/Simulation.antt =====
-- Two memory systems that answer alike, in states of their own, are driven alike by
-- adapters/protocol.py: the relation, and the calls that `_scenarios` and `seed` are made of.
pub mod Scenarios
pub mod Runs
use adversarial_cognition.Prelude.{
  String, ◌≡◌, refl, ap, subst, Bool, true, false, not, ◌&&◌, Option, some, List, [], ◌∷◌, ◌==◌,
  Bool-cases, inl, inr, if◌then◌else◌,
}
use adversarial_cognition.Hashes.{Hashes}
use adversarial_cognition.Vault.{Date}
use adversarial_cognition.Protocol.{
  Answer, value, unsupported, failed, Call, ◌>>=◌, ◌>>◌, continue, pure, Outcome, MemorySystem,
  Extra,
}
use adversarial_cognition.Protocol.Scenarios.{recall, recalled}
use adversarial_cognition.Protocol.Seeding.{Entry, seed, seed_all, seed_entry, seed_corpus}

module _ {S T : Type 0} (Related : S → T → Type 0) where
  -- The two answers are equal, and the states that are left are related.
  abbrev pub SameEnd : {A : Type 0} → Answer A × S → Answer A × T → Type 0
  SameEnd x y = (x.0 ≡ y.0) × Related x.1 y.1

  -- From related states, the two calls end alike.
  abbrev pub Same : {A : Type 0} → Call S A → Call T A → Type 0
  Same m n = (s : S) (t : T) → Related s t → SameEnd (m s) (n t)

  -- Every call of the one system ends like that of the other.
  pub record Simulates (a : MemorySystem S) (b : MemorySystem T) : Type 0 where
    pub resets : Same a.reset b.reset
    pub restarts : Same a.restart b.restart
    pub remembers :
        (memory_id text principal : String) (extra : Extra)
        → Same
            (a.remember memory_id text principal extra)
            (b.remember memory_id text principal extra)
    pub recalls :
        (query principal : String) (as_of : Option Date)
        → Same (a.recall query principal as_of) (b.recall query principal as_of)
    pub forgets :
        (memory_id principal : String)
        → Same (a.forget memory_id principal) (b.forget memory_id principal)
    pub improves :
        (memory_id replacement_id text principal digest key : String)
        → Same
            (a.improve memory_id replacement_id text principal digest key)
            (b.improve memory_id replacement_id text principal digest key)

  pub pure-Same : {A : Type 0} (x : A) → Same (pure x) (pure x)
  pure-Same x s t r = (refl, r)

  continue-Same :
      {A B : Type 0} (k : A → Call S B) (l : A → Call T B) (w : Answer A) (s : S) (t : T)
      → ((x : A) → Same (k x) (l x))
      → Related s t
      → SameEnd (continue k (w, s)) (continue l (w, t))
  continue-Same k l (value x) s t next r = next x s t r
  continue-Same k l unsupported s t next r = (refl, r)
  continue-Same k l (failed e) s t next r = (refl, r)

  pub same_end :
      {A B : Type 0} (k : A → Call S B) (l : A → Call T B) (x : Answer A × S) (y : Answer A × T)
      → SameEnd x y
      → ((a : A) → Same (k a) (l a))
      → SameEnd (continue k x) (continue l y)
  same_end k l x y (e, r) next =
      subst (λ w. SameEnd (continue k x) (continue l (w, y.1))) e
        (continue-Same k l x.0 x.1 y.1 next r)

  pub if-Same :
      {A : Type 0} (b : Bool) (m : Call S A) (n : Call T A) (k : Call S A) (l : Call T A)
      → Same m n
      → Same k l
      → Same (if b then m else k) (if b then n else l)
  if-Same true m n k l first second = first
  if-Same false m n k l first second = second

  recalled_same :
      (w : Answer (List String)) (s : S) (t : T)
      → Related s t
      → SameEnd (recalled (w, s)) (recalled (w, t))
  recalled_same (value ids) s t r = (refl, r)
  recalled_same unsupported s t r = (refl, r)
  recalled_same (failed e) s t r = (refl, r)

  module _ (h : Hashes) (a : MemorySystem S) (b : MemorySystem T) (sim : Simulates a b)
      (temporal : Bool) where
    pub recall-Same :
        (query principal : String) (as_of : Option Date)
        → Same
            (recall h a temporal query principal as_of)
            (recall h b temporal query principal as_of)
    unfolding recall
    recall-Same query principal as_of s t r =
        let (e, left) = sim.recalls query principal as_of s t r in
        subst
          (λ w.
            SameEnd (recalled (a.recall query principal as_of s))
              (recalled (w, (b.recall query principal as_of t).1)))
          e (recalled_same _ _ _ left)

    seed_entry-Same : (e : Entry) → Same (seed_entry a temporal e) (seed_entry b temporal e)
    unfolding seed_entry
    seed_entry-Same e s t r = elim (Bool-cases (not temporal && e.memory_id == "price-current")) [
      | inl current ↦ rw current (sim.remembers _ _ _ _ s t r)
      | inr other ↦ elim (Bool-cases (not temporal && e.memory_id == "price-old")) [
        | inl old ↦ rw (other, old) (sim.remembers _ _ _ _ s t r)
        | inr rest ↦ rw (other, rest) (sim.remembers _ _ _ _ s t r)
      ]
    ]

    seed_all-Same : (es : List Entry) → Same (seed_all a temporal es) (seed_all b temporal es)
    unfolding seed_all
    seed_all-Same [] s t r = (refl, r)
    seed_all-Same (e ∷ es) s t r =
        same_end _ _ _ _ (seed_entry-Same e s t r) (λ _. seed_all-Same es)

    pub seed-Same : Same (seed a temporal) (seed b temporal)
    unfolding seed
    seed-Same = seed_all-Same seed_corpus
