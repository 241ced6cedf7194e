-- ===== src/Comparing/Examples.antt =====
-- The comparison of the companion benchmarks at suites of one case.
use adversarial_cognition.Prelude.{String, ◌≡◌, refl, true, false, List, [], ◌∷◌, none, get, put}
use adversarial_cognition.Json.Value.{lookup}
use adversarial_cognition.Json.Loading.{loads}
use adversarial_cognition.Harness.{value}
use adversarial_cognition.External.Attestation.{Builtins}
use adversarial_cognition.External.Parsing.{by_id, key_of, table_of}
use adversarial_cognition.Comparing.{
  Case, Parsed, claimed, parse, parse_members, read_rows, row_for, rows_for,
}
use adversarial_cognition.Comparing.Honesty.{IsParsed, parse-IsParsed}

abbrev python : Builtins
python = record {
  printer = record {
    shown = λ _. "?";
    zero_real = λ _. false;
    answer_depth = 900;
    arguments_depth = 900;
  };
  payload_depth = 900;
  json_error = λ _. "malformed";
  float_error = λ _. none;
}

abbrev suite : List Case
suite =
    record { case_id = "commit-fresh"; capability = "commit"; gate = "" }
    ∷ record {
      case_id = "replay-verifies";
      capability = "replayable-proof";
      gate = "forged_proof_accepted";
    }
    ∷ []

abbrev known : List String
known = "commit" ∷ "replayable-proof" ∷ []

abbrev payload : String
payload =
    "{\"capabilities\": [\"commit\", \"magic\"], \"cases\": [{\"case_id\": \"commit-fresh\", \"supported\": true, \"correct\": true}, {\"case_id\": \"replay-verifies\", \"supported\": true, \"correct\": true}]}"

abbrev parsed : Parsed
parsed = record {
  version = "catalog-provenance-adapter-v1";
  capabilities = "commit" ∷ [];
  rows =
      record {
        case_id = "commit-fresh";
        capability = "commit";
        gate = "";
        is_supported = true;
        correct = true;
      }
      ∷ record {
        case_id = "replay-verifies";
        capability = "replayable-proof";
        gate = "forged_proof_accepted";
        is_supported = false;
        correct = false;
      }
      ∷ [];
}

read_payload : parse python "catalog-provenance-adapter-v1" known suite payload ≡ value parsed
unfolding parse parse_members claimed read_rows rows_for row_for table_of by_id key_of loads lookup
    get put
read_payload = refl

parse-IsParsed_example : IsParsed known suite parsed
parse-IsParsed_example =
    parse-IsParsed python "catalog-provenance-adapter-v1" known suite payload read_payload
