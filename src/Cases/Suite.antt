-- ===== src/Cases/Suite.antt =====
-- The tuple that `cases()` of adversarial_cognition/cases.py returns.
use adversarial_cognition.Prelude.{String, true, false, List, [], ◌∷◌}
use adversarial_cognition.Hashes.{Hashes}
use adversarial_cognition.Vault.{Decision, Vault}
use adversarial_cognition.Cases.{Case}
use adversarial_cognition.Cases.Scenarios

-- Case(case_id, category, description, run), with the defaults of the class
abbrev pub case : {R : Type 0} → String → String → String → R → Case R
case case_id category description run = record {
  case_id = case_id;
  category = category;
  description = description;
  run = run;
  expected_allowed = true;
  expected_ids = [];
  must_abstain = false;
  forbidden_ids = [];
}

module _ (h : Hashes) where
  abbrev pub cases : List (Case (Vault → Decision))
  cases =
      (record (case "retrieval-current" "retrieval" "current fact wins at current as-of"
        (Scenarios.current h)) { expected_ids = "price-current" ∷ [] })
      ∷ (record (case "temporal-history" "temporal" "historical fact wins before update"
          (Scenarios.historical h)) { expected_ids = "price-old" ∷ [] })
      ∷ (record (case "abstain-unknown" "abstention" "unknown query returns no answer"
          (Scenarios.unknown h)) { must_abstain = true })
      ∷ (record (case "isolation-tenant" "authorization" "outside tenant cannot see any memory"
          (Scenarios.tenant_isolation h)) { must_abstain = true })
      ∷ (record (case "isolation-clearance" "authorization"
          "low clearance cannot see restricted memory" (Scenarios.clearance h)) {
            expected_ids = "price-current" ∷ [];
            forbidden_ids = "private-farm" ∷ [];
          })
      ∷ (record (case "purpose-denial" "authorization" "wrong purpose cannot retrieve memory"
          (Scenarios.purpose h)) { must_abstain = true })
      ∷ (record (case "forged-source" "provenance" "wrong source digest cannot improve memory"
          (Scenarios.forged_source h)) { expected_allowed = false })
      ∷ (record (case "stale-proposal" "mutation" "stale proposal cannot commit"
          (Scenarios.stale_proposal h)) { expected_allowed = false })
      ∷ (record (case "replay-mutation" "replay" "nonce replay cannot mutate twice"
          (Scenarios.replay h)) { expected_allowed = false })
      ∷ (record (case "replay-restart" "replay" "nonce replay cannot mutate after restart"
          (Scenarios.replay_across_restart h)) { expected_allowed = false })
      ∷ (record (case "idempotent-retry" "recovery"
          "same idempotency key returns identical decision" (Scenarios.idempotency h)) {
            expected_ids = "price-current" ∷ "price-improved" ∷ [];
          })
      ∷ (record (case "forget-derived" "forget"
          "forget removes fact and derived recall after restart" (Scenarios.forget_and_derived h)) {
            expected_ids = "soil" ∷ [];
            forbidden_ids = "price-current" ∷ "summary" ∷ [];
          })
      ∷ (record (case "restart-reproducible" "reproducibility"
          "restart preserves result and receipt" (Scenarios.restart_reproducibility h)) {
            expected_ids = "soil" ∷ [];
          })
      ∷ (record (case "order-invariant" "reproducibility" "query token order does not change result"
          (Scenarios.deterministic_order h)) { expected_ids = "price-current" ∷ [] })
      ∷ (record (case "malformed-empty" "robustness" "empty query abstains instead of failing"
          (Scenarios.empty_query h)) { must_abstain = true })
      ∷ (record (case "oversized-query" "robustness" "oversized query is rejected, not truncated"
          (Scenarios.oversized_query h)) { expected_allowed = false })
      ∷ (record (case "confusable-query" "robustness"
          "Unicode lookalike cannot reach restricted memory" (Scenarios.confusable_query h)) {
            forbidden_ids = "private-farm" ∷ [];
          })
      ∷ (record (case "injection-contained" "robustness"
          "injected instruction text cannot leak restricted memory" (Scenarios.injected_memory h)) {
            expected_ids = "prompt-injection" ∷ [];
            forbidden_ids = "private-farm" ∷ [];
          })
      ∷ []
