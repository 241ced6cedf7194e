-- ===== src/Protocol/Examples.antt =====
-- The theorems on adapters/protocol.py and protocol_v2.py at two small systems: one that finds
-- nothing, and one that fails at its first call.
use adversarial_cognition.Prelude.{
  Bool, Option, ℕ, zero, suc, String, ◌<>◌, ◌≡◌, ◌≢◌, ◌↔◌, refl, true, false, ◌&&◌, some, none, [],
  ◌∷◌, arith, Dict, get, eq_iff, ◌==◌, if◌then◌else◌,
}
use text.Mathlib.TextEquality.{starts_with_iff}
use adversarial_cognition.Hashes.{plain}
use adversarial_cognition.Cases.{meets, starts_with_ids}
use adversarial_cognition.Protocol.{value, failed, MemorySystem, outcome, pure}
use adversarial_cognition.Protocol.Seeding.{seed, seed_all, seed_entry}
use adversarial_cognition.Protocol.Scenarios
use adversarial_cognition.Protocol.Driver.{
  Request, attempt, attempt_again, play, run_case, run_cases, supported, any_met, evaluate, clip,
  completed_row, unsupported_row,
}
use adversarial_cognition.Protocol.Attempts.{Failing, Ends, run_case-Ends}
use adversarial_cognition.Protocol.Bounds.{IsBounded, run_case-IsBounded}
use adversarial_cognition.Protocol.Credits.{Credit, correct-iff-Credit, run_case_recovers}
use adversarial_cognition.Protocol.Second.{
  Surface, SecondSystem, SecondPayload, token, token_view, prepare, unauthenticated, voided, passed,
  obtain, principals, payload_of, run_v2,
}
use adversarial_cognition.Protocol.Second.Probe.{IsHonest, prepare-honest}
use adversarial_cognition.Protocol.Second.Stripping.{DeclinesAuthorization, run_v2_declines}
use adversarial_cognition.Protocol.Second.Tokens.{AgreesOnTokens, run_cases-tokens}
use adversarial_cognition.Protocol.Simulation.{Same}
use adversarial_cognition.Protocol.Simulation.Runs.{SameRows}
use adversarial_cognition.Vault.{Date}

-- What the model of the driver computes with.
engine : Unit {0}
unfolding seed seed_all seed_entry Scenarios.recall Scenarios.abstain_unknown
    Scenarios.isolation_tenant attempt attempt_again play run_case run_cases supported any_met
    evaluate clip completed_row unsupported_row get meets starts_with_ids
engine = tt

-- Its state is the number of calls of `reset` that still fail. It finds nothing.
abbrev flaky : MemorySystem ℕ
flaky = record {
  name = "flaky";
  version = "1";
  capabilities = "abstention" ∷ "retrieval" ∷ "isolation" ∷ [];
  interface = "direct-api";
  reset = λ n. elim n [ zero ↦ (value tt, 0) | suc k ↦ (failed "OSError: down", k) ];
  remember = λ _ _ _ _. pure true;
  recall = λ _ _ _. pure [];
  forget = λ _ _. pure true;
  improve = λ _ _ _ _ _ _. pure false;
  restart = pure tt;
}

abbrev steady : MemorySystem ℕ
steady = record flaky { reset = λ _. (value tt, 0) }

abbrev request : String → Request
request case_id = record {
  case_id = case_id;
  expected_allowed = true;
  expected_ids = [];
  must_abstain = true;
  forbidden_ids = [];
}

abbrev unknown : Request
unknown = request "abstain-unknown"

first_fails : attempt plain flaky false "abstain-unknown" 1 ≡ (failed "OSError: down", 0)
unfolding engine
first_fails = refl

then_completes : attempt plain flaky false "abstain-unknown" 0 ≡ (value (outcome true []), 0)
unfolding engine
then_completes = refl

claimed : supported flaky.capabilities "abstain-unknown" ≡ true
unfolding engine
claimed = refl

run_case-Ends_example :
    Ends plain flaky false unknown 1 (run_case plain flaky false flaky.capabilities unknown 1)
run_case-Ends_example = run_case-Ends plain flaky false unknown flaky.capabilities 1 claimed

run_case-IsBounded_example : IsBounded (run_case plain flaky false flaky.capabilities unknown 1).0
run_case-IsBounded_example = run_case-IsBounded plain flaky false flaky.capabilities unknown 1

run_case_recovers_example :
    run_case plain flaky false flaky.capabilities unknown 1
    ≡ (completed_row unknown (outcome true []), 0)
run_case_recovers_example =
    run_case_recovers plain flaky false unknown flaky.capabilities 1 "OSError: down" 1 0 0
      (outcome true []) claimed (Failing.one_more Failing.none_yet first_fails) (omega arith)
      then_completes

correct-iff-Credit_example :
    ((run_case plain flaky false flaky.capabilities unknown 1).0.correct ≡ true)
    ↔ Credit plain flaky false unknown flaky.capabilities 1
correct-iff-Credit_example = correct-iff-Credit plain flaky false unknown flaky.capabilities 1

-- A system without an authentication surface that claims isolation.
abbrev routed : SecondSystem ℕ
routed = record { memory = steady; surface = none; authorization_mechanism = "none" }

abbrev declined : SecondPayload
declined = payload_of plain routed (request "isolation-tenant" ∷ []) (unauthenticated routed) 0

stripped_check : declined.authorization_check ≢ "passed"
unfolding payload_of unauthenticated meets
stripped_check e = absurd (ground (arith, (eq_iff "stripped-unauthenticated" "passed").1 e))

run_v2_declines_example : DeclinesAuthorization declined.cases
unfolding run_v2 prepare
run_v2_declines_example =
    run_v2_declines plain routed (request "isolation-tenant" ∷ []) 0 {t = 0} {payload = declined}
      refl stripped_check

-- A system that issued one credential, to the operator.
abbrev issuing : String → Surface ℕ
issuing secret = record {
  issued_credentials = pure (("operator", secret) ∷ []);
  authenticate = λ name offered.
      pure (if name == "operator" && offered == secret then some "session-1" else none);
}

abbrev issued : String → SecondSystem ℕ
issued secret = record {
  memory = steady;
  surface = some (issuing secret);
  authorization_mechanism = "sessions";
}

honest : (secret : String) → IsHonest (issuing secret) (("operator", secret) ∷ [])
unfolding get
honest secret = record {
  issued = λ s. refl;
  accepts = λ name offered s e. (
    "session-1",
    ground (arith, eq_iff name "operator", eq_iff "operator" name, eq_iff offered secret),
  );
  rejects = λ name offered s e.
      ground (arith, eq_iff name "operator", eq_iff "operator" name, eq_iff offered secret);
}

prepare-honest_example :
    ((rest : String)
      → "onyx" ≡ rest <> "x"
      → prepare (issued "onyx") (some (issuing "onyx")) 0 ≡ (value (voided (issued "onyx")), 0))
    × (((rest : String) → "onyx" ≢ rest <> "x")
        → (tokens : Dict String) × (obtain
              (issued "onyx")
              (issuing "onyx")
              (("operator", "onyx") ∷ [])
              principals
              []
              0
            ≡ (value tokens, 0))
          × (prepare (issued "onyx") (some (issuing "onyx")) 0
              ≡ (value (passed (issued "onyx") tokens), 0)))
unfolding get
prepare-honest_example =
    prepare-honest (issued "onyx") (issuing "onyx") (honest "onyx") "onyx" 0 refl

-- A system with states of its own that would show a memory to whoever is called "operator".
abbrev trusting : MemorySystem Bool
trusting = record {
  name = "trusting";
  version = "2";
  capabilities = "isolation" ∷ [];
  interface = "direct-api";
  reset = λ _. (value tt, true);
  remember = λ _ _ _ _. pure true;
  recall = λ _ principal _. pure (if principal == "operator" then "private-farm" ∷ [] else []);
  forget = λ _ _. pure true;
  improve = λ _ _ _ _ _ _. pure false;
  restart = pure tt;
}

-- Both have been reset.
abbrev Ready : ℕ → Bool → Type 0
Ready n b = (n ≡ 0) × (b ≡ true)

token-ne-operator : (p : String) → token [] p ≢ "operator"
unfolding token get
token-ne-operator p e =
    absurd (ground (arith, (starts_with_iff "operator" "unauthenticated:").1 (p, e)))

finds_nothing :
    (q p : String) (d : Option Date)
    → Same Ready (steady.recall q (token [] p) d) (trusting.recall q (token [] p) d)
finds_nothing q p d s t ready =
    (ground (arith, eq_iff (token [] p) "operator", token-ne-operator p), ready)

agree : AgreesOnTokens Ready [] steady trusting
agree = record {
  resets = λ s t ready. (refl, (refl, refl));
  restarts = λ s t ready. (refl, ready);
  remembers = λ _ _ _ _ s t ready. (refl, ready);
  recalls = finds_nothing;
  forgets = λ _ _ s t ready. (refl, ready);
  improves = λ _ _ _ _ _ _ s t ready. (refl, ready);
}

run_cases-tokens_example :
    SameRows Ready
      (run_cases plain
        (token_view steady [])
        false
        ("isolation" ∷ [])
        (request "isolation-tenant" ∷ [])
        0)
      (run_cases plain
        (token_view trusting [])
        false
        ("isolation" ∷ [])
        (request "isolation-tenant" ∷ [])
        true)
run_cases-tokens_example =
    run_cases-tokens Ready [] steady trusting agree plain false ("isolation" ∷ [])
      (request "isolation-tenant" ∷ []) 0 true (refl, refl)
