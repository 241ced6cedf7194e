-- ===== src/Cases/Second/Passing.antt =====
-- The authenticated backend passes the suite of adversarial_cognition/cases_v2.py.
use adversarial_cognition.Prelude.{
  ◌≡◌, ◌≢◌, Bool, true, false, Option, none, some, List, [], ◌∷◌, eq_refl, get, put,
}
use adversarial_cognition.Hashes.{Hashes}
use adversarial_cognition.Vault.{
  Decision, denied, granted, claim, authorized, expired, visible, rank, digest, forget_derived,
}
use adversarial_cognition.Vault
use adversarial_cognition.Vault.Words.{words, overlap}
use adversarial_cognition.Vault.Ranking.{sort, ids_of}
use adversarial_cognition.Vault.Seed
use adversarial_cognition.Identity.{
  IdentityRecord, Session, identity, benchmark_identity_key, is_ascii, compare_digest,
  credential_of, register,
}
use adversarial_cognition.Identity
use adversarial_cognition.Authenticated.{
  AuthenticatedBackend, principals, actor_of, with_session, register_all, new, seed, authenticate,
  remember, recall, improve, forget,
}
use adversarial_cognition.Authenticated
use adversarial_cognition.Cases.{Case}
use adversarial_cognition.Cases.Passing.{ne→false, ◌also◌}
use adversarial_cognition.Cases.Second
use adversarial_cognition.Cases.Second.Suite.{cases_v2, run_case_v2}

-- The score of a case; one that raises is not passed.
abbrev passed : Option (Bool × Decision) → Bool
passed none = false
passed (some (score, _)) = score

-- Every case of a suite is scored as correct.
abbrev pub PassesSecond :
    AuthenticatedBackend → List (Case (AuthenticatedBackend → Option Decision)) → Type 0
PassesSecond b [] = Unit
PassesSecond b (c ∷ cs) = (passed (run_case_v2 b c) ≡ true) × PassesSecond b cs

-- What the model computes with.
engine : Unit {0}
unfolding Vault.restart Authenticated.restart claim authorized expired visible rank Vault.remember
    Vault.recall Vault.improve Vault.forget forget_derived words overlap sort ids_of Seed.seed get
    put credential_of register Identity.authenticate compare_digest actor_of with_session
    register_all new seed authenticate remember recall improve forget Second.fresh run_case_v2
engine = tt

module _ (h : Hashes) where
  -- Whatever the digests, as long as that of "price-current" is neither that of "wrong" nor that of
  -- "price-old", and the credentials of the four principals are ASCII: the authenticated backend, made
  -- and seeded anew for each case, meets the expectation of every case of the second benchmark.
  pub reference-PassesSecond :
      digest h "price-current" ≢ digest h "wrong"
      → digest h "price-current" ≢ digest h "price-old"
      → is_ascii (h.hmac_sha256 benchmark_identity_key "did:key:operator") ≡ true
      → is_ascii (h.hmac_sha256 benchmark_identity_key "did:key:analyst") ≡ true
      → is_ascii (h.hmac_sha256 benchmark_identity_key "did:key:outsider") ≡ true
      → is_ascii (h.hmac_sha256 benchmark_identity_key "did:key:advertiser") ≡ true
      → PassesSecond (Second.fresh h) (cases_v2 h)
  unfolding engine Second.creds Second.recall_as Second.current Second.historical Second.unknown
      Second.tenant_isolation Second.clearance Second.purpose Second.forged_source
      Second.stale_proposal Second.replay Second.replay_across_restart Second.idempotency
      Second.forget_and_derived Second.restart_reproducibility Second.deterministic_order
      Second.empty_query Second.oversized_query Second.confusable_query Second.injected_memory
  reference-PassesSecond wrong old op low out adv =
      (rw (run_case_v2, Second.current, op, eq_refl))
      also (rw (run_case_v2, Second.historical, op, eq_refl))
      also (rw (run_case_v2, Second.unknown, op, eq_refl))
      also (rw (run_case_v2, Second.tenant_isolation, out, eq_refl))
      also (rw (run_case_v2, Second.clearance, low, eq_refl))
      also (rw (run_case_v2, Second.purpose, adv, eq_refl))
      also (rw (run_case_v2, Second.forged_source, op, eq_refl, ne→false _ _ wrong))
      also (rw (run_case_v2, Second.stale_proposal, op, eq_refl, ne→false _ _ old))
      also (rw (run_case_v2, Second.replay, op, eq_refl, op, eq_refl))
      also (rw (run_case_v2, Second.replay_across_restart, op, eq_refl, op, eq_refl))
      also (rw (run_case_v2, Second.idempotency, op, eq_refl, op, eq_refl, eq_refl, eq_refl))
      also (rw (run_case_v2, Second.forget_and_derived, op, eq_refl, op, eq_refl, op, eq_refl))
      also (rw (run_case_v2, Second.restart_reproducibility, op, eq_refl, op, eq_refl, eq_refl))
      also (rw (run_case_v2, Second.deterministic_order, op, eq_refl, op, eq_refl))
      also (rw (run_case_v2, Second.empty_query, op, eq_refl))
      also (rw (run_case_v2, Second.oversized_query, op, eq_refl))
      also (rw (run_case_v2, Second.confusable_query, low, eq_refl))
      also (rw (run_case_v2, Second.injected_memory, op, eq_refl, low, eq_refl))
      also tt
