-- ===== src/Cases/Passing.antt =====
-- The reference vault passes the suite of adversarial_cognition/cases.py, whatever the digests are,
-- as long as three of them differ.
use adversarial_cognition.Prelude.{
  String, ◌≡◌, ◌≢◌, refl, true, false, List, [], ◌∷◌, ◌==◌, eq_refl, eq_iff, arith, get, put,
}
use adversarial_cognition.Hashes.{Hashes}
use adversarial_cognition.Vault.{
  Decision, denied, granted, claim, authorized, expired, visible, rank, digest, remember, recall,
  improve, forget, forget_derived,
}
use adversarial_cognition.Vault.Words.{words, overlap}
use adversarial_cognition.Vault.Ranking.{sort, ids_of}
use adversarial_cognition.Vault.Seed.{fresh}
use adversarial_cognition.Cases.{Case, run_case}
use adversarial_cognition.Cases.Scenarios
use adversarial_cognition.Cases.Suite.{cases}

-- A pair, for the cases of a suite one after the other.
infixr 4 ◌also◌
abbrev pub ◌also◌ : {A B : Type 0} → A → B → A × B
a also b = (a, b)

-- What the model of the vault computes with.
engine : Unit {0}
unfolding claim authorized expired visible rank remember recall improve forget forget_derived words
    overlap sort ids_of fresh run_case get put
engine = tt

pub ne→false : (s t : String) → s ≢ t → (s == t) ≡ false
ne→false s t e = ground (arith, eq_iff s t)

-- Every case of a suite is scored as correct.
abbrev pub Passes : {B : Type 0} → B → List (Case (B → Decision)) → Type 0
Passes b [] = Unit
Passes b (c ∷ cs) = ((run_case b c).0 ≡ true) × Passes b cs

module _ (h : Hashes) where
  restart_reproduces : (Scenarios.restart_reproducibility h (fresh h)).allowed ≡ true
  unfolding engine Scenarios.restart_reproducibility
  restart_reproduces = rw eq_refl

  ids-restart : (Scenarios.restart_reproducibility h (fresh h)).ids ≡ "soil" ∷ []
  unfolding engine Scenarios.restart_reproducibility
  ids-restart = refl

  forged_refused :
      digest h "price-current" ≢ digest h "wrong"
      → (Scenarios.forged_source h (fresh h)) ≡ denied "stale-source"
  unfolding engine Scenarios.forged_source
  forged_refused e = rw (ne→false _ _ e, Scenarios.forged_source)

  stale_refused :
      digest h "price-current" ≢ digest h "price-old"
      → (Scenarios.stale_proposal h (fresh h)) ≡ denied "stale-source"
  unfolding engine Scenarios.stale_proposal
  stale_refused e = rw (ne→false _ _ e, Scenarios.stale_proposal)

  retry_same :
      (Scenarios.idempotency h (fresh h))
      ≡ granted
          ("price-current" ∷ "price-improved" ∷ [])
          (digest h "improve:price-current:price-improved")
  unfolding engine Scenarios.idempotency
  retry_same = rw (eq_refl, eq_refl)

  -- Whatever the digests, as long as that of "price-current" is neither that of "wrong" nor that of
  -- "price-old": the reference vault, seeded anew for each case, meets the expectation of every case
  -- of the first benchmark.
  pub reference-Passes :
      digest h "price-current" ≢ digest h "wrong"
      → digest h "price-current" ≢ digest h "price-old"
      → Passes (fresh h) (cases h)
  unfolding engine Scenarios.current Scenarios.historical Scenarios.unknown
      Scenarios.tenant_isolation Scenarios.clearance Scenarios.purpose Scenarios.replay
      Scenarios.replay_across_restart Scenarios.forget_and_derived Scenarios.deterministic_order
      Scenarios.empty_query Scenarios.oversized_query Scenarios.confusable_query
      Scenarios.injected_memory
  reference-Passes wrong old =
      refl
      also refl
      also refl
      also refl
      also refl
      also refl
      also (rw (forged_refused wrong))
      also (rw (stale_refused old))
      also refl
      also refl
      also (rw retry_same)
      also refl
      also (rw (restart_reproduces, ids-restart))
      also refl
      also refl
      also refl
      also refl
      also refl
      also tt
