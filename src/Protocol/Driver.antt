-- ===== src/Protocol/Driver.antt =====
-- How adapters/protocol.py runs the cases of a request: REQUIREMENTS, `supported`, `evaluate`,
-- `_run_case` and the payload of `run`. A row has no latency, which is read off a clock.
use adversarial_cognition.Prelude.{
  ℕ, zero, suc, String, ◌<>◌, Bool, true, false, not, ◌&&◌, ◌||◌, Option, none, some, List, [], ◌∷◌,
  map, if◌then◌else◌, contains, subset, take, take_text, Dict, get,
}
use adversarial_cognition.Hashes.{Hashes}
use adversarial_cognition.Cases.{same, starts_with_ids, nonempty, meets}
use adversarial_cognition.Protocol.{
  value, unsupported, failed, Call, ◌>>◌, Outcome, outcome, MemorySystem,
}
use adversarial_cognition.Protocol.Seeding.{seed}
use adversarial_cognition.Protocol.Scenarios.{scenarios}

abbrev pub max_ids : ℕ
max_ids = 8

abbrev pub max_id_chars : ℕ
max_id_chars = 64

abbrev pub attempts : ℕ
attempts = 3

-- Each list is one of the sets of capabilities that suffice.
abbrev pub requirements : Dict (List (List String))
requirements =
    ("retrieval-current", ("temporal" ∷ []) ∷ ("supersession" ∷ []) ∷ [])
    ∷ ("temporal-history", ("temporal" ∷ []) ∷ [])
    ∷ ("abstain-unknown", ("abstention" ∷ []) ∷ [])
    ∷ ("isolation-tenant", ("isolation" ∷ []) ∷ [])
    ∷ ("isolation-clearance", ("clearance" ∷ []) ∷ [])
    ∷ ("purpose-denial", ("purpose" ∷ []) ∷ [])
    ∷ ("forged-source", ("provenance" ∷ []) ∷ [])
    ∷ ("stale-proposal", ("provenance" ∷ []) ∷ [])
    ∷ ("replay-mutation", ("replay-protection" ∷ []) ∷ [])
    ∷ ("replay-restart", ("replay-protection" ∷ "persistence" ∷ []) ∷ [])
    ∷ ("idempotent-retry", ("idempotency" ∷ []) ∷ [])
    ∷ ("forget-derived", ("forget" ∷ "derived-tracking" ∷ []) ∷ [])
    ∷ ("restart-reproducible", ("persistence" ∷ []) ∷ [])
    ∷ ("order-invariant", ("retrieval" ∷ []) ∷ [])
    ∷ ("malformed-empty", ("retrieval" ∷ []) ∷ [])
    ∷ ("oversized-query", ("retrieval" ∷ []) ∷ [])
    ∷ ("confusable-query", ("isolation" ∷ []) ∷ [])
    ∷ ("injection-contained", ("isolation" ∷ []) ∷ [])
    ∷ []

-- d.get(k, ())
abbrev pub options_of : Option (List (List String)) → List (List String)
options_of none = []
options_of (some options) = options

-- any(needed <= capabilities for needed in options)
unfoldable pub any_met : List String → List (List String) → Bool
any_met capabilities [] = false
any_met capabilities (needed ∷ options) = subset needed capabilities || any_met capabilities options

unfoldable pub supported : List String → String → Bool
unfolding any_met get
supported capabilities case_id = any_met capabilities (options_of (get requirements case_id))

-- A case of the request. A list that is not given is empty.
pub record Request : Type 0 where
  pub case_id : String
  pub expected_allowed : Bool
  pub expected_ids : List String
  pub must_abstain : Bool
  pub forbidden_ids : List String

unfoldable pub evaluate : Request → Outcome → Bool
unfolding starts_with_ids meets
evaluate c o =
    let first = same o.allowed c.expected_allowed in
    let second =
      if nonempty c.expected_ids then first && starts_with_ids c.expected_ids o.ids else first in
    let third = if c.must_abstain then second && not (nonempty o.ids) else second in
    if nonempty c.forbidden_ids then third && not (meets c.forbidden_ids o.ids) else third

pub record Row : Type 0 where
  pub case_id : String
  pub correct : Bool
  pub allowed : Bool
  pub returned_ids : List String
  pub receipt : String
  pub is_supported : Bool
  pub error : Option String

unfoldable pub unsupported_row : String → Row
unsupported_row case_id = record {
  case_id = case_id;
  correct = false;
  allowed = false;
  returned_ids = [];
  receipt = "";
  is_supported = false;
  error = none;
}

-- tuple(str(item)[:MAX_ID_CHARS] for item in ids[:MAX_IDS])
unfoldable pub clip : List String → List String
clip ids = map (take_text max_id_chars) (take max_ids ids)

unfoldable pub completed_row : Request → Outcome → Row
unfolding clip evaluate
completed_row c o = record {
  case_id = c.case_id;
  correct = evaluate c (outcome o.allowed (clip o.ids));
  allowed = o.allowed;
  returned_ids = clip o.ids;
  receipt = "";
  is_supported = true;
  error = none;
}

unfoldable pub error_row : String → String → Row
error_row case_id error = record {
  case_id = case_id;
  correct = false;
  allowed = false;
  returned_ids = [];
  receipt = "";
  is_supported = true;
  error = some error;
}

module _ {S : Type 0} (h : Hashes) (system : MemorySystem S) (temporal : Bool) where
  -- `_scenarios(system, temporal)[case_id]()`
  unfoldable pub play : String → Option (Call S Outcome) → Call S Outcome
  play case_id none s = (failed (take_text 200 ("KeyError: " <> h.repr case_id)), s)
  play case_id (some scenario) s = scenario s

  -- What the `try` of `_run_case` does before it makes a row
  unfoldable pub attempt : String → Call S Outcome
  unfolding get
  attempt case_id = do
    system.reset
    seed system temporal
    play case_id (get (scenarios h system temporal) case_id)

  -- The loop of `_run_case` with the rounds that are left. The pauses between them are not
  -- modelled.
  unfoldable pub attempt_again : Request → ℕ → String → S → Row × S
  attempt_again c zero last_error s = (error_row c.case_id last_error, s)
  attempt_again c (suc rounds) last_error s =
      let (answer, s') = attempt c.case_id s in
      elim answer [
        | value o ↦ (completed_row c o, s')
        | unsupported ↦ (unsupported_row c.case_id, s')
        | failed e ↦ attempt_again c rounds e s'
      ]

  -- `capabilities` are the system's, or those that the second protocol leaves it.
  unfoldable pub run_case : List String → Request → S → Row × S
  run_case capabilities c s =
      if supported capabilities c.case_id
      then attempt_again c attempts "" s
      else (unsupported_row c.case_id, s)

  -- The rows of all the cases, one after the other
  unfoldable pub run_cases : List String → List Request → S → List Row × S
  run_cases capabilities [] s = ([], s)
  run_cases capabilities (c ∷ cs) s =
      let (row, s') = run_case capabilities c s in
      let (rows, s'') = run_cases capabilities cs s' in (row ∷ rows, s'')

-- The object that `run` prints
pub record Payload : Type 0 where
  pub adapter_version : String
  pub interface : String
  pub cases : List Row

-- `run`, without the second protocol's variable in the environment
unfoldable pub run : {S : Type 0} → Hashes → MemorySystem S → List Request → S → Payload
run h system cases s = record {
  adapter_version = system.name <> "-" <> system.version;
  interface = system.interface;
  cases =
      (run_cases h system (contains "temporal" system.capabilities) system.capabilities cases s).0;
}
