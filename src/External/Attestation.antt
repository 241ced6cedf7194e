-- ===== src/External/Attestation.antt =====
-- `_parse_harness` of adversarial_cognition/adapters.py: the attestation of the agent harness.
use adversarial_cognition.Prelude.{
  ℕ, String, ◌<>◌, ◌==◌, Bool, true, false, not, Option, none, some, List, [], ◌∷◌, ltb, take_text,
  if◌then◌else◌,
}
use adversarial_cognition.Json.Value.{Value, null, text, object, Members, end, member, lookup}
use adversarial_cognition.Harness.{Answer, value, raised, Printer}

-- What else of Python is a parameter: the room on the stack for the `json.loads` of a payload, the
-- text of its exception, whichever it is, and that of `float(v)`, if it raises.
pub record Builtins : Type 0 where
  pub printer : Printer
  pub payload_depth : ℕ
  pub json_error : String → String
  pub float_error : Value → Option String

abbrev pub harness_keys : List String
harness_keys =
    "model" ∷ "seed" ∷ "temperature" ∷ "num_ctx" ∷ "max_turns" ∷ "prompt_digest" ∷ "tool_contract"
    ∷ []

abbrev pub has : Members → String → Bool
has ms k = elim (lookup ms k) [ none ↦ false | some _ ↦ true ]

-- [key for key in keys if key not in harness]
unfoldable pub missing_keys : Members → List String → List String
unfolding lookup
missing_keys ms [] = []
missing_keys ms (k ∷ ks) = let rest = missing_keys ms ks in if has ms k then rest else k ∷ rest

-- How Python prints a list of these keys
unfoldable pub listed : List String → String
listed [] = ""
listed (k ∷ []) = "'" <> (k <> "'")
listed (k ∷ l ∷ ks) = "'" <> (k <> ("', " <> listed (l ∷ ks)))

abbrev bounded_value : Option Value → Value
bounded_value none = null
bounded_value (some (text s)) = text (take_text 128 s)
bounded_value (some v) = v

-- The dictionary `bounded`
unfoldable pub bounded : Members → List String → Members
unfolding lookup
bounded ms [] = end
bounded ms (k ∷ ks) = member k (bounded_value (lookup ms k)) (bounded ms ks)

abbrev pub complete_harness : Members → List String → Answer (Option Members)
complete_harness ms [] = value (some (bounded ms harness_keys))
complete_harness ms missing =
    raised ("harness attestation missing keys: [" <> (listed missing <> "]"))

abbrev pub attested : Option Value → Answer (Option Members)
attested (some (object ms)) = complete_harness ms (missing_keys ms harness_keys)
attested _ = raised "agent-loop declared without a harness attestation"

unfoldable pub parse_harness : Members → String → ℕ → Answer (Option Members)
unfolding lookup missing_keys bounded
parse_harness parsed interface benchmark_version =
    if ltb benchmark_version 2
    then value none
    else if not (interface == "agent-loop")
    then value none
    else attested (lookup parsed "harness")
