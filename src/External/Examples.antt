-- ===== src/External/Examples.antt =====
-- The theorems on adversarial_cognition/adapters.py at a suite of one case.
use adversarial_cognition.Prelude.{
  String, ◌≡◌, refl, true, false, ◌↔◌, none, some, List, [], ◌∷◌, map, get, put, Bool, Dict,
}
use adversarial_cognition.Vault.{Decision, granted}
use adversarial_cognition.Cases.{Case, correct}
use adversarial_cognition.Cases.Suite.{case}
use adversarial_cognition.Cases.Scoring.{MeetsExpectation}
use adversarial_cognition.Json.Value.{
  text, truth, array, object, done, item, Members, end, member, lookup, append,
}
use adversarial_cognition.Json.Loading.{loaded, loads}
use adversarial_cognition.Harness.{Answer, value}
use adversarial_cognition.Harness.Final.{strip}
use adversarial_cognition.Protocol.{outcome}
use adversarial_cognition.Protocol.Driver.{evaluate as protocol_evaluate}
use adversarial_cognition.Harness.Driver.{evaluate as harness_evaluate}
use adversarial_cognition.Report.{SystemReport}
use adversarial_cognition.External.{external_systems}
use adversarial_cognition.External.Attestation.{Builtins, parse_harness}
use adversarial_cognition.External.Parsing.{
  Table, Reported, by_id, key_of, outcome_of, outcomes_of, parse_external_outcomes, parse_members,
  parse_object, parse_rows, table_of,
}
use adversarial_cognition.External.Systems.{
  finished, Platform, execute_external, execute_systems, execute_known, execute_registry,
  execute_marciana, marciana_outcomes, known_systems, report,
}
use adversarial_cognition.External.Reporting.{IsReport, parse_external_outcomes-IsReport}
use adversarial_cognition.External.Duplicates.{parse_rows_duplicate}
use adversarial_cognition.External.Selecting.{
  Explained, execute_external-Explained, execute_systems-picked, picked,
}
use adversarial_cognition.External.Scoring.{request_of, scores_alike}

abbrev python : Builtins
python = record {
  printer = record {
    shown = λ _. "?";
    zero_real = λ _. false;
    answer_depth = 900;
    arguments_depth = 900;
  };
  payload_depth = 900;
  json_error = λ _. "malformed";
  float_error = λ _. none;
}

abbrev suite : List (Case (Unit {0}))
suite = case "abstain-unknown" "abstention" "unknown query" tt ∷ []

abbrev payload : String
payload =
    "{\"interface\": \"direct-api\", \"cases\": [{\"case_id\": \"abstain-unknown\", \"correct\": true, \"allowed\": true}]}"

abbrev reported : Reported
reported = record {
  version = "marciana-adversarial-adapter-v1";
  interface = "direct-api";
  harness = none;
  outcomes =
      record {
        case_id = "abstain-unknown";
        category = "abstention";
        correct = true;
        allowed = true;
        returned_ids = [];
        receipt = "";
        supported = true;
      }
      ∷ [];
}

read_payload : parse_external_outcomes python suite 2 payload ≡ value reported
unfolding parse_external_outcomes parse_object parse_members parse_harness parse_rows table_of by_id
    key_of outcomes_of outcome_of loads lookup get put
read_payload = refl

parse_external_outcomes-IsReport_example :
    (parsed : Members) × (loads 900 payload ≡ loaded (object parsed))
    × IsReport suite 2 parsed reported
parse_external_outcomes-IsReport_example =
    parse_external_outcomes-IsReport python suite 2 payload read_payload

abbrev row : Bool → Members
row correct =
    member "case_id" (text "abstain-unknown")
      (member "correct" (truth correct) (member "allowed" (truth true) end))

abbrev table : Table
table = record { rows = ("abstain-unknown", row false) ∷ []; foreign = false }

parse_rows_duplicate_example :
    parse_rows python suite
      (some (array (append (item (object (row false)) done) (object (row true)))))
    ≡ outcomes_of python suite (record table { rows = put table.rows "abstain-unknown" (row true) })
unfolding by_id key_of lookup put
parse_rows_duplicate_example =
    parse_rows_duplicate python suite (item (object (row false)) done) (object (row true)) table
      (row true) "abstain-unknown" refl refl refl refl

abbrev platform : Platform
platform = record { launch = λ _ _. finished payload; is_int = λ _. true; show_set = λ _. "[]" }

abbrev environ : Dict String
environ = ("MARCIANA_ADVERSARIAL_MEM0_CMD", "mem0-adapter --once") ∷ []

abbrev mem0_report : SystemReport
mem0_report = record (report "mem0" "executed") { outcomes = reported.outcomes }

ran_mem0 :
    execute_external python platform suite 1 environ 2 "mem0" "MARCIANA_ADVERSARIAL_MEM0_CMD"
    ≡ value mem0_report
unfolding execute_external get strip
ran_mem0 = rw read_payload refl

execute_external-Explained_example :
    Explained python platform suite 1 environ 2 "mem0" "MARCIANA_ADVERSARIAL_MEM0_CMD" mem0_report
execute_external-Explained_example =
    execute_external-Explained python platform suite 1 environ 2 "mem0"
      "MARCIANA_ADVERSARIAL_MEM0_CMD" ran_mem0

abbrev declined : Case (Unit {0}) → Answer (Bool × Decision)
declined _ = value (false, granted [] "")

abbrev reference_report : SystemReport
reference_report = record (report "marciana" "executed") {
  outcomes =
      record {
        case_id = "abstain-unknown";
        category = "abstention";
        correct = false;
        allowed = true;
        returned_ids = [];
        receipt = "";
        supported = true;
      }
      ∷ [];
}

ran_both :
    execute_systems python platform suite 1 environ 2 ("mem0" ∷ "marciana" ∷ []) declined
    ≡ value (reference_report ∷ mem0_report ∷ [])
unfolding execute_systems execute_known execute_registry execute_marciana marciana_outcomes
    external_systems
ran_both = rw ran_mem0 refl

execute_systems-picked_example :
    map (λ (r : SystemReport). r.system) (reference_report ∷ mem0_report ∷ [])
    ≡ picked ("mem0" ∷ "marciana" ∷ []) (known_systems 2)
execute_systems-picked_example =
    execute_systems-picked python platform suite 1 environ 2 ("mem0" ∷ "marciana" ∷ []) declined
      ran_both

abbrev unknown_query : Case (Unit {0})
unknown_query = case "abstain-unknown" "abstention" "unknown query" tt

scores_alike_example :
    ((correct unknown_query (granted [] "") ≡ true)
      ↔ MeetsExpectation unknown_query (granted [] ""))
    × ((protocol_evaluate (request_of unknown_query) (outcome true []) ≡ true)
        ↔ MeetsExpectation unknown_query (granted [] ""))
    × ((harness_evaluate (request_of unknown_query) true [] ≡ true)
        ↔ MeetsExpectation unknown_query (granted [] ""))
scores_alike_example = scores_alike unknown_query (granted [] "")
