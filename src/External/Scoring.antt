-- ===== src/External/Scoring.antt =====
-- The three copies of the scoring of a case: `run_case` of adversarial_cognition/cases.py, and
-- `evaluate` of adapters/protocol.py and of agent_harness/driver.py, on the case as the request of
-- adversarial_cognition/adapters.py gives it.
use adversarial_cognition.Prelude.{◌≡◌, true, ◌↔◌}
use adversarial_cognition.Vault.{Decision}
use adversarial_cognition.Cases.{Case, correct}
use adversarial_cognition.Cases.Scoring.{MeetsExpectation, correct_iff}
use adversarial_cognition.Protocol.{outcome}
use adversarial_cognition.Protocol.Driver.{Request, evaluate as protocol_evaluate}
use adversarial_cognition.Harness.Driver.{evaluate as harness_evaluate}

-- What the drivers read of a case of the request
unfoldable pub request_of : {R : Type 0} → Case R → Request
request_of c = record {
  case_id = c.case_id;
  expected_allowed = c.expected_allowed;
  expected_ids = c.expected_ids;
  must_abstain = c.must_abstain;
  forbidden_ids = c.forbidden_ids;
}

-- The reference, the adapters of memory systems and the agent harness score alike: each counts a
-- decision as correct exactly if it meets the expectation of its case.
pub scores_alike :
    {R : Type 0} (c : Case R) (d : Decision)
    → ((correct c d ≡ true) ↔ MeetsExpectation c d)
      × ((protocol_evaluate (request_of c) (outcome d.allowed d.ids) ≡ true) ↔ MeetsExpectation c d)
      × ((harness_evaluate (request_of c) d.allowed d.ids ≡ true) ↔ MeetsExpectation c d)
unfolding correct protocol_evaluate harness_evaluate request_of
scores_alike c d = (correct_iff c d, correct_iff c d, correct_iff c d)
