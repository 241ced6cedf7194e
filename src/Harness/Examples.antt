-- ===== src/Harness/Examples.antt =====
-- The theorems on agent_harness/ at a small backend, and tests of the loop.
use adversarial_cognition.Prelude.{
  ℕ, ◌+◌, ◌≤◌, String, ◌≡◌, refl, true, false, none, some, [], ◌∷◌, if◌then◌else◌, leb, arith, get,
  show,
}
use adversarial_cognition.Cases.{meets}
use adversarial_cognition.Json.Value.{end, member, text, lookup}
use adversarial_cognition.Json.Loading.{loads}
use adversarial_cognition.Protocol.Driver.{Request}
use adversarial_cognition.Harness.{
  value, raised, pure, Printer, failure, AgentMemoryBackend, given, Transport,
}
use adversarial_cognition.Harness.Final.{parse_final, strip}
use adversarial_cognition.Harness.Tools.{dispatch_tool, routed, as_payload, call_read}
use adversarial_cognition.Harness.Loop.{
  answered, run_operation, take_turns, turned, respond, run_calls, arguments_of, transcript_chars,
  max_transcript_chars,
}
use adversarial_cognition.Json.{show_int}
use adversarial_cognition.Json.Printing.{print}
use adversarial_cognition.Harness.Containment.{AgreeWithinBudget, run_operation-agrees}
use adversarial_cognition.Harness.Asking.{RaisesBy, CountsAsking, run_operation-RaisesBy}
use adversarial_cognition.Harness.Driver.{Row, Track, supported, any_met}
use adversarial_cognition.Harness.Track.{
  run_case, fresh, provision, open_all, probe, try_forged, seed, authorization_voided,
}
use adversarial_cognition.Harness.Verdicts.{run_case_unreachable}

abbrev python : Printer
python = record {
  shown = λ _. "?";
  zero_real = λ _. false;
  answer_depth = 900;
  arguments_depth = 900;
}

-- Its state counts the questions to the model. It holds one memory, for whoever has a session.
abbrev store : AgentMemoryBackend ℕ (Unit {0})
store = record {
  name = "store";
  version = "1";
  capabilities = "retrieval" ∷ "isolation" ∷ [];
  authorization_mechanism = "none";
  reset = pure tt;
  restart = pure tt;
  provision = pure [];
  open_session = λ _. pure (some tt);
  write = λ _ _ _ _. pure (record { ok = true; results = []; ids = []; error = "" });
  read = λ _ _ _.
      pure
        (record { ok = true; results = member "id" (text "soil") end ∷ []; ids = []; error = "" });
  delete = λ _ _. pure (failure "no such memory");
  list_ids = λ _. pure (failure "not now");
}

-- It reads once and then answers.
abbrev model : Transport ℕ
model messages n = elim n [
  | ℕ.zero ↦ (
    value (record {
      content = "";
      tool_calls =
          record { name = "memory_read"; arguments = given (text "{\"query\": \"soil\"}") } ∷ [];
    }),
    1,
  )
  | ℕ.suc k ↦
      (value (record { content = "Here you go: [\"soil\", 7, null]"; tool_calls = [] }), k + 2)
]

parse_final_tests :
    (parse_final python " [\"a\", true, 1.5, -3] " ≡ value ("a" ∷ "True" ∷ "-3" ∷ []))
    × (parse_final python "Here you go: [\"a\"]." ≡ value ("a" ∷ []))
    × (parse_final python "{\"ids\": [\"a\"]}" ≡ value [])
    × (parse_final python "none" ≡ value [])
    × (parse_final (record python { answer_depth = 2 }) "so [[[" ≡ value [])
    × (parse_final (record python { answer_depth = 2 }) "[[[" ≡ raised "RecursionError")
unfolding parse_final strip loads show_int show
parse_final_tests = (refl, refl, refl, refl, refl, refl)

run_operation_test :
    run_operation python model store (some tt) "go" 0 ≡ (value (answered ("soil" ∷ "7" ∷ []) 2), 2)
unfolding run_operation take_turns turned respond run_calls arguments_of dispatch_tool routed
    call_read as_payload transcript_chars parse_final strip loads lookup print show
run_operation_test = refl

-- A backend that would open a session for nobody, and forget everything at a reset.
abbrev other_store : AgentMemoryBackend ℕ (Unit {0})
other_store = record store { open_session = λ _. pure none; reset = λ n. (value tt, 0) }

run_operation-agrees_example :
    run_operation python model store (some tt) "go"
    ≡ run_operation python model other_store (some tt) "go"
run_operation-agrees_example =
    run_operation-agrees python (some tt) {a = store} {b = other_store}
      (record { writes = λ _ _. refl; reads = λ _ _. refl; deletes = λ _. refl; lists = refl })
      model "go"

-- A model that would answer at length to a conversation beyond the budget.
abbrev talkative : Transport ℕ
talkative messages n =
    if leb (transcript_chars messages) max_transcript_chars
    then model messages n
    else (raised "context overflow", n)

within : AgreeWithinBudget model talkative
within messages n fits = ground (arith, leb_of fits)
  where
    leb_of :
        transcript_chars messages ≤ max_transcript_chars
        → leb (transcript_chars messages) max_transcript_chars ≡ true
    leb_of h = ground arith

counted : CountsAsking (λ (n : ℕ). n) model store (some tt)
counted = record {
  asking = λ messages n. counts_one n;
  writing = λ _ _ n. omega arith;
  reading = λ _ _ n. omega arith;
  deleting = λ _ n. omega arith;
  listing = λ n. omega arith;
}
  where
    counts_one : (n : ℕ) → (model [] n).1 ≤ n + 1
    counts_one ℕ.zero = omega arith
    counts_one (ℕ.suc k) = omega arith

run_operation-RaisesBy_example :
    RaisesBy (λ (n : ℕ). n) 6 (run_operation python model store (some tt) "go")
run_operation-RaisesBy_example =
    run_operation-RaisesBy python (λ (n : ℕ). n) model store (some tt) counted "go"

abbrev request : String → Request
request case_id = record {
  case_id = case_id;
  expected_allowed = true;
  expected_ids = [];
  must_abstain = true;
  forbidden_ids = [];
}

abbrev failed_track : Track (Unit {0})
failed_track = record {
  sessions = ("operator", tt) ∷ [];
  authorization_check = "failed-negative-probe";
}

abbrev dead : Transport ℕ
dead messages n = (raised "connection refused", n)

-- A backend that rejects the forged credential of the probe.
abbrev strict : AgentMemoryBackend ℕ (Unit {0})
strict = record store { open_session = λ _. pure none }

abbrev no_sessions : String → Track (Unit {0})
no_sessions check = record { sessions = []; authorization_check = check }

run_case_unreachable_example :
    (r : Row) × (t : ℕ) × (run_case python dead strict
        (request "isolation-tenant")
        (no_sessions "passed")
        0
      ≡ (value (r, no_sessions "passed"), t))
    × (r.correct ≡ true)
    × (r.returned_ids ≡ [])
unfolding supported any_met get meets fresh provision open_all probe try_forged seed
    authorization_voided
run_case_unreachable_example =
    run_case_unreachable python dead strict (request "isolation-tenant") (no_sessions "passed")
      (no_sessions "passed") "outsider" "private farm price" none 0 0
      (λ messages n. ("connection refused", n, refl)) refl refl refl refl refl refl
