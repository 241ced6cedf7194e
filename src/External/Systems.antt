-- ===== src/External/Systems.antt =====
-- `execute_marciana`, `execute_external` and `execute_systems` of adversarial_cognition/adapters.py.
use Prim.Native.Char.{code}
use adversarial_cognition.Prelude.{
  ℕ, zero, suc, String, ◌<>◌, ◌==◌, Bool, true, false, Option, none, some, List, [], ◌∷◌, eqb,
  take_text, contains, Dict, get, if◌then◌else◌,
}
use adversarial_cognition.Vault.{Decision}
use adversarial_cognition.Cases.{Case}
use adversarial_cognition.Harness.{Answer, value, raised}
use adversarial_cognition.Harness.Final.{strip}
use adversarial_cognition.Report.{CaseOutcome, SystemReport}
use adversarial_cognition.External.{
  adapter_protocol, max_error_chars, ◌>>=◌, external_request, external_systems,
}
use adversarial_cognition.External.Attestation.{Builtins}
use adversarial_cognition.External.Parsing.{Reported, parse_external_outcomes}

-- What comes of the command of an adapter: its output; an exception with its text and what the
-- command wrote to stderr; or the end of its time, where Python hands over what there is of stderr
-- as bytes, on which the handler's `replace` raises a TypeError.
pub data Launched : Type 0 where
  finished : String → Launched
  failed : String → String → Launched
  timed_out : String → Bool → Launched

-- What the program calls: `subprocess.run(shlex.split(command), input=request, ...)`, whether
-- `int(text)` succeeds, and how Python prints the sorted list of a set of texts.
pub record Platform : Type 0 where
  pub launch : String → String → Launched
  pub is_int : String → Bool
  pub show_set : List String → String

abbrev pub report : String → String → SystemReport
report system status = record {
  system = system;
  adapter_version = adapter_protocol;
  status = status;
  missing_configuration = [];
  error = "";
  interface = "direct-api";
  outcomes = [];
}

abbrev pub unavailable : String → String → SystemReport
unavailable system variable = record (report system "unavailable") {
  missing_configuration = variable ∷ [];
}

module _ {R : Type 0} where
  -- The rounds of a case give the same result, since each runs on a new backend. Without a round
  -- the average of their times is a ZeroDivisionError.
  unfoldable pub marciana_outcomes :
      List (Case R) → ℕ → (Case R → Answer (Bool × Decision)) → Answer (List CaseOutcome)
  marciana_outcomes [] repeats runner = value []
  marciana_outcomes (c ∷ cs) zero runner = raised "division by zero"
  marciana_outcomes (c ∷ cs) (suc n) runner = do
    result ← runner c
    rest ← marciana_outcomes cs (suc n) runner
    value (
        record {
          case_id = c.case_id;
          category = c.category;
          correct = result.0;
          allowed = (result.1).allowed;
          returned_ids = (result.1).ids;
          receipt = (result.1).receipt;
          supported = true;
        }
        ∷ rest)

  unfoldable pub execute_marciana :
      List (Case R) → ℕ → (Case R → Answer (Bool × Decision)) → Answer SystemReport
  execute_marciana suite repeats runner = do
    outcomes ← marciana_outcomes suite repeats runner
    value (record (report "marciana" "executed") { outcomes = outcomes })

-- text.replace("\n", " ")
unfoldable pub on_one_line : String → String
on_one_line String.[] = ""
on_one_line (String.◌∷◌ c s) =
    let rest = on_one_line s in if eqb (code c) b'\n' then " " <> rest else String.◌∷◌ c rest

-- The adapter's own last words, where there are any
unfoldable pub last_words : String → String → String
unfolding on_one_line
last_words message stderr = if strip stderr == "" then message else on_one_line (strip stderr)

-- One more report in front of the others
abbrev pub added : Answer SystemReport → Answer (List SystemReport) → Answer (List SystemReport)
added r others = do first ← r; rest ← others; value (first ∷ rest)

abbrev pub text_or : Option String → String → String
text_or none fallback = fallback
text_or (some s) fallback = s

abbrev pub error_report : String → String → SystemReport
error_report system message = record (report system "error") {
  error = take_text max_error_chars message;
}

abbrev pub of_parsed : String → Answer Reported → SystemReport
of_parsed system (value r) = record (report system "executed") {
  adapter_version = r.version;
  interface = r.interface;
  outcomes = r.outcomes;
}
of_parsed system (raised e) = error_report system e

abbrev pub command_of : Dict String → String → String
command_of environ variable = strip (text_or (get environ variable) "")

abbrev pub timeout_is_int : Platform → Dict String → Bool
timeout_is_int platform environ = elim (get environ "MARCIANA_ADVERSARIAL_TIMEOUT_SECONDS") [
  | none ↦ true
  | some s ↦ platform.is_int s
]

abbrev pub names_of : List (String × String) → List String
names_of [] = []
names_of ((system, _) ∷ registry) = system ∷ names_of registry

abbrev pub known_systems : ℕ → List String
known_systems benchmark_version = "marciana" ∷ names_of (external_systems benchmark_version)

-- set(selected) - set(known)
abbrev pub unknown_systems : ℕ → List String → List String
unknown_systems benchmark_version [] = []
unknown_systems benchmark_version (s ∷ selected) =
    let rest = unknown_systems benchmark_version selected in
    if contains s (known_systems benchmark_version) then rest else s ∷ rest

abbrev pub unless_unknown :
    Platform → List String → Answer (List SystemReport) → Answer (List SystemReport)
unless_unknown platform [] reports = reports
unless_unknown platform (s ∷ unknown) reports =
    raised ("unknown benchmark systems: " <> platform.show_set (s ∷ unknown))

module _ {R : Type 0} (python : Builtins) (platform : Platform) (suite : List (Case R))
    (repeats : ℕ) (environ : Dict String) (benchmark_version : ℕ) where
  abbrev pub of_launched : String → Launched → Answer SystemReport
  of_launched system (finished stdout) =
      value (of_parsed system (parse_external_outcomes python suite benchmark_version stdout))
  of_launched system (failed message stderr) =
      value (error_report system (last_words message stderr))
  of_launched system (timed_out message false) = value (error_report system message)
  of_launched system (timed_out message true) = raised "a bytes-like object is required, not 'str'"

  -- The `int` of the timeout stands outside of the `try`.
  unfoldable pub execute_external : String → String → Answer SystemReport
  unfolding get last_words external_request
  execute_external system variable =
      if command_of environ variable == ""
      then value (unavailable system variable)
      else if timeout_is_int platform environ
      then of_launched system
          (platform.launch (command_of environ variable) (external_request suite repeats))
      else raised "invalid literal for int()"

  -- The loop of `execute_systems` over the registry
  unfoldable pub execute_registry :
      List String → List (String × String) → Answer (List SystemReport)
  unfolding execute_external
  execute_registry selected [] = value []
  execute_registry selected ((system, variable) ∷ registry) =
      let others = execute_registry selected registry in
      if contains system selected then added (execute_external system variable) others else others

  unfoldable pub execute_known :
      List String → (Case R → Answer (Bool × Decision)) → Answer (List SystemReport)
  unfolding execute_registry execute_marciana external_systems
  execute_known selected runner =
      let others = execute_registry selected (external_systems benchmark_version) in
      if contains "marciana" selected
      then added (execute_marciana suite repeats runner) others
      else others

  unfoldable pub execute_systems :
      List String → (Case R → Answer (Bool × Decision)) → Answer (List SystemReport)
  unfolding execute_known external_systems
  execute_systems selected runner =
      unless_unknown platform (unknown_systems benchmark_version selected)
        (execute_known selected runner)
