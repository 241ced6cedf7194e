-- ===== src/External/Parsing.antt =====
-- `_parse_external_outcomes` of adversarial_cognition/adapters.py.
use adversarial_cognition.Prelude.{
  ℕ, String, ◌<>◌, ◌==◌, Bool, true, false, not, ◌&&◌, Option, none, some, List, [], ◌∷◌, ltb,
  take_text, subset, Dict, get, put, if◌then◌else◌,
}
use adversarial_cognition.Json.Value.{
  Value, text, array, object, Values, done, item, Members, end, member, lookup,
}
use adversarial_cognition.Json.Loading.{Loaded, loaded, loads}
use adversarial_cognition.Cases.{Case}
use adversarial_cognition.Harness.{Answer, value, raised}
use adversarial_cognition.Harness.Tools.{str, is_true, str_or_empty, type_name}
use adversarial_cognition.Report.{CaseOutcome}
use adversarial_cognition.External.{adapter_protocol, ◌>>=◌}
use adversarial_cognition.External.Attestation.{Builtins, parse_harness, has}

abbrev pub hashable : Members → Option Value → Answer (Members × Value)
hashable row none = raised "'case_id'"
hashable row (some (array _)) = raised "unhashable type: 'list'"
hashable row (some (object _)) = raised "unhashable type: 'dict'"
hashable row (some v) = value (row, v)

-- A row with its `row["case_id"]`, where that can be a key of a dictionary
unfoldable pub key_of : Value → Answer (Members × Value)
unfolding lookup
key_of (object row) = hashable row (lookup row "case_id")
key_of (text _) = raised "string indices must be integers, not 'str'"
key_of (array _) = raised "list indices must be integers or slices, not str"
key_of v = raised ("'" <> (type_name v <> "' object is not subscriptable"))

-- `by_id`: the rows whose key is a text, and whether there is another
pub record Table : Type 0 where
  pub rows : Dict Members
  pub foreign : Bool

abbrev pub add_row : Table → Members × Value → Table
add_row t (row, text k) = record t { rows = put t.rows k row }
add_row t (row, v) = record t { foreign = true }

unfoldable pub by_id : Values → Table → Answer Table
unfolding put
by_id done t = value t
by_id (item v vs) t = key_of v >>= λ k. by_id vs (add_row t k)

abbrev pub no_rows : Table
no_rows = record { rows = []; foreign = false }

-- `by_id` of `rows`, which may be any value: what a text or a dictionary gives has no fields.
unfoldable pub table_of : Value → Answer Table
unfolding by_id
table_of (array vs) = by_id vs no_rows
table_of (object end) = value no_rows
table_of (object (member _ _ _)) = raised "string indices must be integers, not 'str'"
table_of (text s) =
    if s == "" then value no_rows else raised "string indices must be integers, not 'str'"
table_of v = raised ("'" <> (type_name v <> "' object is not iterable"))

abbrev pub keys : {A : Type 0} → Dict A → List String
keys [] = []
keys ((k, _) ∷ d) = k ∷ keys d

abbrev pub suite_ids : {R : Type 0} → List (Case R) → List String
suite_ids [] = []
suite_ids (c ∷ cs) = c.case_id ∷ suite_ids cs

-- set(by_id) == {case.case_id for case in suite}
abbrev pub covers : Table → List String → Bool
covers t ids = not t.foreign && subset (keys t.rows) ids && subset ids (keys t.rows)

abbrev characters : String → List String
characters String.[] = []
characters (String.◌∷◌ c s) = String.◌∷◌ c String.[] ∷ characters s

abbrev names : Members → List String
names end = []
names (member k _ ms) = k ∷ names ms

abbrev pub row_of : Option Members → Members
row_of none = end
row_of (some row) = row

module _ (python : Builtins) where
  abbrev pub strs : Values → List String
  strs done = []
  strs (item v vs) = str python.printer v ∷ strs vs

  -- tuple(str(item) for item in row.get("returned_ids", ()))
  abbrev pub returned : Option Value → Answer (List String)
  returned none = value []
  returned (some (array vs)) = value (strs vs)
  returned (some (text s)) = value (characters s)
  returned (some (object ms)) = value (names ms)
  returned (some v) = raised ("'" <> (type_name v <> "' object is not iterable"))

  -- bool(row[key])
  abbrev pub flag : String → Option Value → Answer Bool
  flag key none = raised ("'" <> (key <> "'"))
  flag key (some v) = value (is_true python.printer v)

  abbrev pub latency : Option Value → Answer (Unit {0})
  latency none = value tt
  latency (some v) = elim (python.float_error v) [ none ↦ value tt | some e ↦ raised e ]

  abbrev pub supports : Option Value → Bool
  supports none = true
  supports (some v) = is_true python.printer v

  -- The outcome of one case, of its row
  unfoldable pub outcome_of : {R : Type 0} → Case R → Members → Answer CaseOutcome
  unfolding lookup
  outcome_of c row = do
    correct ← flag "correct" (lookup row "correct")
    allowed ← flag "allowed" (lookup row "allowed")
    ids ← returned (lookup row "returned_ids")
    let receipt = str_or_empty python.printer (lookup row "receipt")
    _ ← latency (lookup row "latency_us")
    value (record {
      case_id = c.case_id;
      category = c.category;
      correct = correct;
      allowed = allowed;
      returned_ids = ids;
      receipt = receipt;
      supported = supports (lookup row "supported");
    })

  unfoldable pub outcomes_of : {R : Type 0} → List (Case R) → Table → Answer (List CaseOutcome)
  unfolding get
  outcomes_of [] t = value []
  outcomes_of (c ∷ cs) t = do
    first ← outcome_of c (row_of (get t.rows c.case_id))
    rest ← outcomes_of cs t
    value (first ∷ rest)

  unfoldable pub parse_rows :
      {R : Type 0} → List (Case R) → Option Value → Answer (List CaseOutcome)
  unfolding table_of
  parse_rows suite none = raised "'cases'"
  parse_rows suite (some rows) = do
    t ← table_of rows
    if covers t (suite_ids suite)
        then outcomes_of suite t
        else raised "external adapter did not report every case exactly once"

  -- str(d.get(key, fallback))
  abbrev pub str_or : Option Value → String → String
  str_or none fallback = fallback
  str_or (some v) fallback = str python.printer v

-- What `_parse_external_outcomes` returns
pub record Reported : Type 0 where
  pub version : String
  pub interface : String
  pub harness : Option Members
  pub outcomes : List CaseOutcome

module _ (python : Builtins) {R : Type 0} (suite : List (Case R)) (benchmark_version : ℕ) where
  unfoldable pub parse_members : Members → Answer Reported
  unfolding parse_harness lookup
  parse_members parsed = do
    let version = take_text 64 (str_or python (lookup parsed "adapter_version") adapter_protocol)
    let interface = take_text 32 (str_or python (lookup parsed "interface") "direct-api")
    harness ← parse_harness parsed interface benchmark_version
    outcomes ← parse_rows python suite (lookup parsed "cases")
    value (record {
      version = version;
      interface = interface;
      harness = harness;
      outcomes = outcomes;
    })

  unfoldable pub parse_object : Members → Answer Reported
  unfolding parse_members lookup
  parse_object parsed =
      if not (ltb benchmark_version 2) && not (has parsed "interface")
      then raised "v2 adapter payload must declare its interface"
      else parse_members parsed

  -- A payload that is JSON and no dictionary has no `get`.
  abbrev pub parse_loaded : String → Loaded → Answer Reported
  parse_loaded payload (loaded (object parsed)) = parse_object parsed
  parse_loaded payload (loaded v) =
      raised ("'" <> (type_name v <> "' object has no attribute 'get'"))
  parse_loaded payload _ = raised (python.json_error payload)

  unfoldable pub parse_external_outcomes : String → Answer Reported
  unfolding parse_object
  parse_external_outcomes payload = parse_loaded payload (loads python.payload_depth payload)
