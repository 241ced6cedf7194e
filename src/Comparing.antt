-- ===== src/Comparing.antt =====
-- How the two companion benchmarks compare systems: report.py and adapters.py of
-- docs/book/code/capability/capability_adversarial and of
-- docs/book/code/catalog-provenance/catalog_provenance, which differ in names alone. The gates and
-- the capabilities of a benchmark are parameters.
pub mod Honesty
mod Examples
use adversarial_cognition.Prelude.{
  ℕ, suc, String, ◌<>◌, ◌==◌, Bool, true, false, not, ◌&&◌, Option, none, some, List, [], ◌∷◌, ltb,
  take_text, contains, Dict, get, put, if◌then◌else◌,
}
use adversarial_cognition.Json.Value.{
  Value, text, array, object, Values, done, item, Members, end, member, lookup,
}
use adversarial_cognition.Json.Loading.{Loaded, loaded, loads}
use adversarial_cognition.Harness.{Answer, value, raised}
use adversarial_cognition.Harness.Tools.{is_true, type_name}
use adversarial_cognition.Report.{add_to, any_failed}
use adversarial_cognition.External.{◌>>=◌}
use adversarial_cognition.External.Attestation.{Builtins}
use adversarial_cognition.External.Parsing.{Table, covers, row_of, str_or, table_of}

-- What a report reads of a case
pub record Case : Type 0 where
  pub case_id : String
  pub capability : String
  pub gate : String

-- `_case_row`
pub record Row : Type 0 where
  pub case_id : String
  pub capability : String
  pub gate : String
  pub is_supported : Bool
  pub correct : Bool

abbrev pub case_row : Case → Bool → Bool → Row
case_row c supported correct = record {
  case_id = c.case_id;
  capability = c.capability;
  gate = c.gate;
  is_supported = supported;
  correct = correct;
}

-- {name: 0 for name in GATES}
abbrev pub zero_gates : List String → Dict ℕ
zero_gates [] = []
zero_gates (name ∷ names) = (name, 0) ∷ zero_gates names

-- The gate that a row trips. No gate is the empty text.
unfoldable pub tripped : Row → Option String
tripped r = if not (r.gate == "") && r.is_supported && not r.correct then some r.gate else none

-- The loop of `hard_gates`. A gate that is not there is a KeyError: `none`.
unfoldable pub count_gates : List Row → Dict ℕ → Option (Dict ℕ)
unfolding tripped add_to
count_gates [] gates = some gates
count_gates (r ∷ rows) gates = elim (tripped r) [
  | none ↦ count_gates rows gates
  | some gate ↦ elim (add_to gate 1 gates) [ none ↦ none | some counted ↦ count_gates rows counted ]
]

unfoldable pub hard_gates : List String → List Row → Option (Dict ℕ)
unfolding count_gates
hard_gates names rows = count_gates rows (zero_gates names)

-- What `summarize` counts. The quotient of the first two is left out.
pub record Summary : Type 0 where
  pub supported : ℕ
  pub correct : ℕ
  pub unsupported : ℕ

abbrev add_row : Row → Summary → Summary
add_row r s =
    if r.is_supported
    then record s {
      supported = suc s.supported;
      correct = if r.correct then suc s.correct else s.correct;
    }
    else record s { unsupported = suc s.unsupported }

unfoldable pub summarize : List Row → Summary
summarize [] = record { supported = 0; correct = 0; unsupported = 0 }
summarize (r ∷ rows) = add_row r (summarize rows)

-- `catalog_status` and `system_status`
unfoldable pub system_status : String → Dict ℕ → String
unfolding any_failed
system_status status gates =
    if status == "executed" then (if any_failed gates then "fail" else "pass") else status

-- The texts of the list that the benchmark knows
abbrev pub known_texts : List String → Values → List String
known_texts known done = []
known_texts known (item (text s) vs) =
    let rest = known_texts known vs in if contains s known then s ∷ rest else rest
known_texts known (item v vs) = known_texts known vs

abbrev pub known_keys : List String → Members → List String
known_keys known end = []
known_keys known (member k _ ms) =
    let rest = known_keys known ms in if contains k known then k ∷ rest else rest

-- [str(c) for c in parsed.get("capabilities", []) if c in CAPABILITIES]. The characters of a text
-- are no capabilities.
unfoldable pub claimed : List String → Option Value → Answer (List String)
claimed known none = value []
claimed known (some (array vs)) = value (known_texts known vs)
claimed known (some (object ms)) = value (known_keys known ms)
claimed known (some (text _)) = value []
claimed known (some v) = raised ("'" <> (type_name v <> "' object is not iterable"))

abbrev pub case_ids : List Case → List String
case_ids [] = []
case_ids (c ∷ cs) = c.case_id ∷ case_ids cs

-- What `_parse` returns
pub record Parsed : Type 0 where
  pub version : String
  pub capabilities : List String
  pub rows : List Row

module _ (python : Builtins) where
  -- bool(row.get(key, False))
  abbrev pub flag_of : Option Value → Bool
  flag_of none = false
  flag_of (some v) = is_true python.printer v

  -- The row of one case, of what the adapter says of it
  unfoldable pub row_for : List String → Case → Members → Row
  unfolding lookup
  row_for capabilities c row =
      let supported = flag_of (lookup row "supported") && contains c.capability capabilities in
      case_row c supported (supported && flag_of (lookup row "correct"))

  unfoldable pub rows_for : List String → List Case → Table → List Row
  unfolding row_for get
  rows_for capabilities [] t = []
  rows_for capabilities (c ∷ cs) t =
      row_for capabilities c (row_of (get t.rows c.case_id)) ∷ rows_for capabilities cs t

  module _ (protocol : String) (known : List String) (suite : List Case) where
    unfoldable pub read_rows : List String → Option Value → Answer (List Row)
    unfolding table_of rows_for
    read_rows capabilities none = raised "'cases'"
    read_rows capabilities (some rows) = do
      t ← table_of rows
      if covers t (case_ids suite)
          then value (rows_for capabilities suite t)
          else raised "adapter did not report every case exactly once"

    unfoldable pub parse_members : Members → Answer Parsed
    unfolding claimed read_rows lookup
    parse_members parsed = do
      let version = take_text 64 (str_or python (lookup parsed "adapter_version") protocol)
      capabilities ← claimed known (lookup parsed "capabilities")
      rows ← read_rows capabilities (lookup parsed "cases")
      value (record { version = version; capabilities = capabilities; rows = rows })

    abbrev pub parse_loaded : String → Loaded → Answer Parsed
    parse_loaded payload (loaded (object parsed)) = parse_members parsed
    parse_loaded payload (loaded v) =
        raised ("'" <> (type_name v <> "' object has no attribute 'get'"))
    parse_loaded payload _ = raised (python.json_error payload)

    -- `_parse`
    unfoldable pub parse : String → Answer Parsed
    unfolding parse_members
    parse payload = parse_loaded payload (loads python.payload_depth payload)
