-- ===== src/Report/Examples.antt =====
-- The theorems on reports at a report of one system.
use adversarial_cognition.Prelude.{
  String, ℕ, ◌≡◌, refl, true, false, ◌↔◌, Option, none, some, [], ◌∷◌, Dict, get, put,
}
use adversarial_cognition.Json.Value.{Value, text, array, object, done, item, end, member}
use adversarial_cognition.Report.Bounded.{IsBounded, Occurs, assert_bounded, assert_bounded_exact}
use adversarial_cognition.Report.{
  CaseOutcome, SystemReport, hard_gates, count_gates, add_to, tripped, gate_of, marciana,
  any_failed, overall_status,
}
use adversarial_cognition.Report.Status.{Decides, status_exact}

abbrev leak : CaseOutcome
leak = record {
  case_id = "isolation-tenant";
  category = "authorization";
  correct = false;
  allowed = true;
  returned_ids = "private-farm" ∷ [];
  receipt = "r";
  supported = true;
}

abbrev or_none : Option (Dict ℕ) → Dict ℕ
or_none none = []
or_none (some gates) = gates

abbrev executed : SystemReport
executed = record {
  system = "marciana";
  adapter_version = "1";
  status = "executed";
  missing_configuration = [];
  error = "";
  interface = "direct-api";
  outcomes = leak ∷ [];
}

status_exact_example :
    (gates : Dict ℕ) × (hard_gates (leak ∷ []) 0 ≡ some gates)
    × Decides (leak ∷ []) 0 (executed ∷ []) (overall_status gates (executed ∷ []))
status_exact_example = status_exact (leak ∷ []) 0 (executed ∷ [])

leak_fails : overall_status (or_none (hard_gates (leak ∷ []) 0)) (executed ∷ []) ≡ "fail"
unfolding hard_gates count_gates add_to tripped gate_of overall_status any_failed marciana get put
leak_fails = refl

abbrev printed : Value
printed =
    object (member "status" (text "pass") (member "systems" (array (item (text "mem0") done)) end))

assert_bounded_exact_example :
    (assert_bounded printed ≡ true) ↔ ((s : String) → Occurs s printed → IsBounded s)
assert_bounded_exact_example = assert_bounded_exact printed
