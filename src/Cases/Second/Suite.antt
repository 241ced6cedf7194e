-- ===== src/Cases/Second/Suite.antt =====
-- The tuple that `cases_v2()` of adversarial_cognition/cases_v2.py returns, and `run_case_v2`.
use adversarial_cognition.Prelude.{Bool, true, false, Option, none, some, List, [], ◌∷◌}
use adversarial_cognition.Hashes.{Hashes}
use adversarial_cognition.Vault.{Decision}
use adversarial_cognition.Authenticated.{AuthenticatedBackend}
use adversarial_cognition.Cases.{Case, correct}
use adversarial_cognition.Cases.Suite.{case}
use adversarial_cognition.Cases.Second

-- `run_case_v2`, on the backend that `_fresh` makes
unfoldable pub run_case_v2 :
    AuthenticatedBackend → Case (AuthenticatedBackend → Option Decision) → Option (Bool × Decision)
unfolding correct
run_case_v2 fresh c = elim (c.run fresh) [ none ↦ none | some d ↦ some (correct c d, d) ]

module _ (h : Hashes) where
  abbrev pub cases_v2 : List (Case (AuthenticatedBackend → Option Decision))
  cases_v2 =
      (record (case "retrieval-current" "retrieval" "current fact wins at current as-of"
        (Second.current h)) { expected_ids = "price-current" ∷ [] })
      ∷ (record (case "temporal-history" "temporal" "historical fact wins before update"
          (Second.historical h)) { expected_ids = "price-old" ∷ [] })
      ∷ (record (case "abstain-unknown" "abstention" "unknown query returns no answer"
          (Second.unknown h)) { must_abstain = true })
      ∷ (record (case "isolation-tenant" "authorization" "outside tenant cannot see any memory"
          (Second.tenant_isolation h)) { must_abstain = true })
      ∷ (record (case "isolation-clearance" "authorization"
          "low clearance cannot see restricted memory" (Second.clearance h)) {
            expected_ids = "price-current" ∷ [];
            forbidden_ids = "private-farm" ∷ [];
          })
      ∷ (record (case "purpose-denial" "authorization" "wrong purpose cannot retrieve memory"
          (Second.purpose h)) { must_abstain = true })
      ∷ (record (case "forged-source" "provenance" "wrong source digest cannot improve memory"
          (Second.forged_source h)) { expected_allowed = false })
      ∷ (record (case "stale-proposal" "mutation" "stale proposal cannot commit"
          (Second.stale_proposal h)) { expected_allowed = false })
      ∷ (record (case "replay-mutation" "replay" "nonce replay cannot mutate twice"
          (Second.replay h)) { expected_allowed = false })
      ∷ (record (case "replay-restart" "replay" "nonce replay cannot mutate after restart"
          (Second.replay_across_restart h)) { expected_allowed = false })
      ∷ (record (case "idempotent-retry" "recovery"
          "same idempotency key returns identical decision" (Second.idempotency h)) {
            expected_ids = "price-current" ∷ "price-improved" ∷ [];
          })
      ∷ (record (case "forget-derived" "forget"
          "forget removes fact and derived recall after restart" (Second.forget_and_derived h)) {
            expected_ids = "soil" ∷ [];
            forbidden_ids = "price-current" ∷ "summary" ∷ [];
          })
      ∷ (record (case "restart-reproducible" "reproducibility"
          "restart preserves result and receipt" (Second.restart_reproducibility h)) {
            expected_ids = "soil" ∷ [];
          })
      ∷ (record (case "order-invariant" "reproducibility" "query token order does not change result"
          (Second.deterministic_order h)) { expected_ids = "price-current" ∷ [] })
      ∷ (record (case "malformed-empty" "robustness" "empty query abstains instead of failing"
          (Second.empty_query h)) { must_abstain = true })
      ∷ (record (case "oversized-query" "robustness" "oversized query is rejected, not truncated"
          (Second.oversized_query h)) { expected_allowed = false })
      ∷ (record (case "confusable-query" "robustness"
          "Unicode lookalike cannot reach restricted memory" (Second.confusable_query h)) {
            forbidden_ids = "private-farm" ∷ [];
          })
      ∷ (record (case "injection-contained" "robustness"
          "injected instruction text cannot leak restricted memory" (Second.injected_memory h)) {
            expected_ids = "prompt-injection" ∷ [];
            forbidden_ids = "private-farm" ∷ [];
          })
      ∷ []
