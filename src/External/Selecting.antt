-- ===== src/External/Selecting.antt =====
-- Which reports `execute_systems` of adversarial_cognition/adapters.py gives, and what stands in
-- the report of an external system.
use adversarial_cognition.Prelude.{
  ℕ, ◌≤◌, String, ◌≡◌, refl, sym, subst, ap, ◌==◌, Bool, true, false, arith, Bool-cases, inl, inr,
  List, [], ◌∷◌, map, contains, Dict, len_text, len-take_text, eq_iff, if◌then◌else◌,
}
use adversarial_cognition.Vault.{Decision}
use adversarial_cognition.Cases.{Case}
use adversarial_cognition.Harness.{Answer, value, split_answer}
use adversarial_cognition.Report.{SystemReport}
use adversarial_cognition.External.{
  max_error_chars, >>=-eq-value, external_request, external_systems,
}
use adversarial_cognition.External.Attestation.{Builtins}
use adversarial_cognition.External.Parsing.{Reported, parse_external_outcomes}
use adversarial_cognition.External.Systems.{
  unavailable, Launched, finished, failed, timed_out, Platform, command_of, error_report,
  execute_external, execute_known, execute_marciana, execute_registry, execute_systems,
  known_systems, last_words, marciana_outcomes, names_of, of_launched, of_parsed, timeout_is_int,
  unknown_systems, unless_unknown,
}

-- The names of the list that are selected
abbrev pub picked : List String → List String → List String
picked selected [] = []
picked selected (s ∷ ss) =
    let rest = picked selected ss in if contains s selected then s ∷ rest else rest

value_injective : {A : Type 0} {a b : A} → ◌≡◌ {A = Answer A} (value a) (value b) → a ≡ b
value_injective e = cc

module _ {R : Type 0} (python : Builtins) (platform : Platform) (suite : List (Case R))
    (repeats : ℕ) (environ : Dict String) (benchmark_version : ℕ) where
  -- The three reports of an external system: it has no command; its own command, and no other,
  -- printed the outcomes; or an error, without outcomes.
  pub data Explained (system variable : String) (r : SystemReport) : Type 0 where
    unconfigured :
        command_of environ variable ≡ ""
        → r.system ≡ system
        → r.status ≡ "unavailable"
        → r.missing_configuration ≡ variable ∷ []
        → r.outcomes ≡ []
        → Explained system variable r
    executed :
        (stdout : String) (reported : Reported)
        → platform.launch (command_of environ variable) (external_request suite repeats)
          ≡ finished stdout
        → parse_external_outcomes python suite benchmark_version stdout ≡ value reported
        → r.system ≡ system
        → r.status ≡ "executed"
        → r.outcomes ≡ reported.outcomes
        → Explained system variable r
    in_error :
        r.system ≡ system
        → r.status ≡ "error"
        → len_text r.error ≤ 256
        → r.outcomes ≡ []
        → Explained system variable r

  error-Explained :
      (system variable message : String) {r : SystemReport}
      → error_report system message ≡ r
      → Explained system variable r
  error-Explained system variable message e =
      subst (Explained system variable) e
        (Explained.in_error refl refl (len-take_text max_error_chars message) refl)

  launched-Explained :
      (system variable : String) {r : SystemReport} (l : Launched)
      → platform.launch (command_of environ variable) (external_request suite repeats) ≡ l
      → of_launched python platform suite repeats environ benchmark_version system l ≡ value r
      → Explained system variable r
  launched-Explained system variable (finished stdout) p e =
      elim (split_answer (parse_external_outcomes python suite benchmark_version stdout)) [
        | inl (reported, q) ↦
            let before : Explained system variable (of_parsed system (value reported)) =
              Explained.executed stdout reported p q refl refl refl in
            subst (Explained system variable) (ground arith) before
        | inr (d, q) ↦ error-Explained system variable d (ground arith)
      ]
  launched-Explained system variable (failed message stderr) p e =
      error-Explained system variable (last_words message stderr) (ground arith)
  launched-Explained system variable (timed_out message false) p e =
      error-Explained system variable message (ground arith)
  launched-Explained system variable (timed_out message true) p e = absurd (cc)

  -- The report of an external system, if it gives one, bears its name and is one of three: the
  -- command is not configured, and the variable is named; the outcomes are those that the output of
  -- its own command says; or an error of at most 256 characters. Only the second has outcomes.
  pub execute_external-Explained :
      (system variable : String) {r : SystemReport}
      → execute_external python platform suite repeats environ benchmark_version system variable
        ≡ value r
      → Explained system variable r
  unfolding execute_external
  execute_external-Explained system variable e =
      elim (Bool-cases (command_of environ variable == "")) [
        | inl empty ↦
            let before : Explained system variable (unavailable system variable) =
              Explained.unconfigured ((eq_iff _ "").0 empty) refl refl refl refl in
            subst (Explained system variable) (ground arith) before
        | inr given ↦ elim (Bool-cases (timeout_is_int platform environ)) [
          | inl fits ↦ launched-Explained system variable _ refl (rw (given, fits) at e)
          | inr no_int ↦ absurd (cc (rw (given, no_int) at e))
        ]
      ]

  system-Explained :
      {system variable : String} {r : SystemReport}
      → Explained system variable r
      → r.system ≡ system
  system-Explained (Explained.unconfigured _ e _ _ _) = e
  system-Explained (Explained.executed _ _ _ _ e _ _) = e
  system-Explained (Explained.in_error e _ _ _) = e

  registry-picked :
      (selected : List String) (registry : List (String × String)) {rs : List SystemReport}
      → execute_registry python platform suite repeats environ benchmark_version selected registry
        ≡ value rs
      → map (λ (r : SystemReport). r.system) rs ≡ picked selected (names_of registry)
  unfolding execute_registry
  registry-picked selected [] e = ground arith
  registry-picked selected ((system, variable) ∷ registry) {rs} e =
      elim (Bool-cases (contains system selected)) [
        | inl chosen ↦
            let (r, p, e1) =
              >>=-eq-value
                (execute_external python platform suite repeats environ benchmark_version system
                  variable)
                _ (rw chosen at e) in
            let (others, q, e2) =
              >>=-eq-value
                (execute_registry python platform suite repeats environ benchmark_version selected
                  registry)
                _ e1 in
            let named = system-Explained (execute_external-Explained system variable p) in
            let rest = registry-picked selected registry q in
            let all : (r ∷ others) ≡ rs = ground arith in
            rw chosen (
              subst
                (λ l.
                  map (λ (x : SystemReport). x.system) l
                  ≡ system ∷ picked selected (names_of registry))
                all (rw (named, rest) refl))
        | inr passed ↦ rw passed (registry-picked selected registry (rw passed at e))
      ]

  known-picked :
      (selected : List String) (runner : Case R → Answer (Bool × Decision)) {rs : List SystemReport}
      → execute_known python platform suite repeats environ benchmark_version selected runner
        ≡ value rs
      → map (λ (r : SystemReport). r.system) rs ≡ picked selected (known_systems benchmark_version)
  unfolding execute_known execute_marciana
  known-picked selected runner {rs} e = elim (Bool-cases (contains "marciana" selected)) [
    | inl chosen ↦
        let (r, p, e1) = >>=-eq-value (execute_marciana suite repeats runner) _ (rw chosen at e) in
        let (outcomes, q, p1) = >>=-eq-value (marciana_outcomes suite repeats runner) _ p in
        let (others, q1, e2) =
          >>=-eq-value
            (execute_registry python platform suite repeats environ benchmark_version selected
              (external_systems benchmark_version))
            _ e1 in
        let rest = registry-picked selected (external_systems benchmark_version) q1 in
        let named : r.system ≡ "marciana" = sym (ap (λ x. x.system) (value_injective p1)) in
        let all : (r ∷ others) ≡ rs = ground arith in
        rw chosen (
          subst
            (λ l.
              map (λ (x : SystemReport). x.system) l
              ≡ "marciana" ∷ picked selected (names_of (external_systems benchmark_version)))
            all (rw (named, rest) refl))
    | inr passed ↦
        rw passed (registry-picked selected (external_systems benchmark_version) (rw passed at e))
  ]

  unless-known :
      (unknown : List String) (reports : Answer (List SystemReport)) {rs : List SystemReport}
      → unless_unknown platform unknown reports ≡ value rs
      → reports ≡ value rs
  unless-known [] reports e = e
  unless-known (s ∷ unknown) reports e = absurd (cc)

  -- The reports are those of the selected systems, in the order of their declaration, the
  -- reference first.
  pub execute_systems-picked :
      (selected : List String) (runner : Case R → Answer (Bool × Decision)) {rs : List SystemReport}
      → execute_systems python platform suite repeats environ benchmark_version selected runner
        ≡ value rs
      → map (λ (r : SystemReport). r.system) rs ≡ picked selected (known_systems benchmark_version)
  unfolding execute_systems
  execute_systems-picked selected runner e =
      known-picked selected runner (unless-known (unknown_systems benchmark_version selected) _ e)
