-- ===== src/External/Reporting.antt =====
-- What a payload has that `_parse_external_outcomes` of adversarial_cognition/adapters.py accepts.
use adversarial_cognition.Prelude.{
  ℕ, ◌≤◌, String, ◌≡◌, refl, ◌==◌, subst, true, false, arith, Bool-cases, inl, inr, Option, none,
  some, List, [], ◌∷◌, map, contains, ltb, len_text, len-take_text, take_text, eq_iff, get,
}
use adversarial_cognition.Json.Value.{
  Value, object, Members, lookup, null, truth, integer, real, text, array,
}
use adversarial_cognition.Json.Loading.{
  Loaded, loaded, decode_error, value_error, recursion_error, loads,
}
use adversarial_cognition.Cases.{Case}
use adversarial_cognition.Harness.{value}
use adversarial_cognition.Report.{CaseOutcome}
use adversarial_cognition.External.{adapter_protocol, >>=-eq-value}
use adversarial_cognition.External.Attestation.{
  Builtins, has, harness_keys, missing_keys, parse_harness, attested, complete_harness,
}
use adversarial_cognition.External.Parsing.{
  Table, Reported, covers, flag, latency, outcome_of, outcomes_of, parse_external_outcomes,
  parse_loaded, parse_members, parse_object, parse_rows, returned, row_of, str_or, suite_ids,
  table_of,
}

-- The harness that the payload declares has every key of an attestation.
abbrev pub IsAttested : Members → Type 0
IsAttested parsed =
    (ms : Members) × (lookup parsed "harness" ≡ some (object ms))
    × ((k : String) → contains k harness_keys ≡ true → has ms k ≡ true)

-- What is read of a payload, for a suite and a version of the benchmark.
pub record IsReport {R : Type 0} (suite : List (Case R)) (benchmark_version : ℕ) (parsed : Members)
    (r : Reported) : Type 0 where
  pub cases : map (λ (o : CaseOutcome). o.case_id) r.outcomes ≡ suite_ids suite
  pub categories :
      map (λ (o : CaseOutcome). o.category) r.outcomes ≡ map (λ (c : Case R). c.category) suite
  pub version_short : len_text r.version ≤ 64
  pub interface_short : len_text r.interface ≤ 32
  pub declared : 2 ≤ benchmark_version → has parsed "interface" ≡ true
  pub harnessed : 2 ≤ benchmark_version → r.interface ≡ "agent-loop" → IsAttested parsed

module _ (python : Builtins) {R : Type 0} where
  outcome_of-case :
      (c : Case R) (row : Members) {o : CaseOutcome}
      → outcome_of python c row ≡ value o
      → (o.case_id ≡ c.case_id) × (o.category ≡ c.category)
  unfolding outcome_of
  outcome_of-case c row e =
      let (x, _, e1) = >>=-eq-value (flag python "correct" (lookup row "correct")) _ e in
      let (y, _, e2) = >>=-eq-value (flag python "allowed" (lookup row "allowed")) _ e1 in
      let (z, _, e3) = >>=-eq-value (returned python (lookup row "returned_ids")) _ e2 in
      let (_, _, e4) = >>=-eq-value (latency python (lookup row "latency_us")) _ e3 in ground arith

  outcomes_of-cases :
      (suite : List (Case R)) (t : Table) {os : List CaseOutcome}
      → outcomes_of python suite t ≡ value os
      → (map (λ (o : CaseOutcome). o.case_id) os ≡ suite_ids suite)
        × (map (λ (o : CaseOutcome). o.category) os ≡ map (λ (c : Case R). c.category) suite)
  unfolding outcomes_of
  outcomes_of-cases [] t {os} e = ground arith
  outcomes_of-cases (c ∷ cs) t {os} e =
      let (o, p, e1) = >>=-eq-value (outcome_of python c (row_of (get t.rows c.case_id))) _ e in
      let (rest, q, e2) = >>=-eq-value (outcomes_of python cs t) _ e1 in
      let (same_id, same_category) = outcome_of-case c (row_of (get t.rows c.case_id)) p in
      let (ids, categories) = outcomes_of-cases cs t q in
      let all : (o ∷ rest) ≡ os = ground arith in
      subst
        (λ l.
          (map (λ (x : CaseOutcome). x.case_id) l ≡ suite_ids (c ∷ cs))
          × (map (λ (x : CaseOutcome). x.category) l ≡ map (λ (x : Case R). x.category) (c ∷ cs)))
        all (rw (same_id, same_category, ids, categories) (refl, refl))

  rows-cases :
      (suite : List (Case R)) (rows : Option Value) {os : List CaseOutcome}
      → parse_rows python suite rows ≡ value os
      → (map (λ (o : CaseOutcome). o.case_id) os ≡ suite_ids suite)
        × (map (λ (o : CaseOutcome). o.category) os ≡ map (λ (c : Case R). c.category) suite)
  unfolding parse_rows
  rows-cases suite none e = absurd (cc)
  rows-cases suite (some rows) e =
      let (t, _, e1) = >>=-eq-value (table_of rows) _ e in
      elim (Bool-cases (covers t (suite_ids suite))) [
        | inl y ↦ outcomes_of-cases suite t (rw y at e1)
        | inr y ↦ absurd (cc (rw y at e1))
      ]

missing-none :
    (ms : Members) (ks : List String) (k : String)
    → missing_keys ms ks ≡ []
    → contains k ks ≡ true
    → has ms k ≡ true
unfolding missing_keys
missing-none ms [] k e m = absurd (ground arith)
missing-none ms (j ∷ ks) k e m = elim (Bool-cases (has ms j)) [
  | inl y ↦ elim (Bool-cases (j == k)) [
    | inl here ↦ subst (λ x. has ms x ≡ true) ((eq_iff j k).0 here) y
    | inr past ↦ missing-none ms ks k (rw y at e) (ground arith)
  ]
  | inr y ↦ absurd (cc (rw y at e))
]

complete-attested :
    (ms : Members) (missing : List String) {a : Option Members}
    → complete_harness ms missing ≡ value a
    → missing ≡ []
complete-attested ms [] e = refl
complete-attested ms (k ∷ ks) e = absurd (cc)

attested-IsAttested :
    (v : Option Value) {a : Option Members}
    → attested v ≡ value a
    → (ms : Members) × (v ≡ some (object ms))
      × ((k : String) → contains k harness_keys ≡ true → has ms k ≡ true)
attested-IsAttested (some (object ms)) e =
    (ms, refl, λ k. missing-none ms harness_keys k (complete-attested ms _ e))
attested-IsAttested none e = absurd (cc)
attested-IsAttested (some null) e = absurd (cc)
attested-IsAttested (some (truth _)) e = absurd (cc)
attested-IsAttested (some (integer _)) e = absurd (cc)
attested-IsAttested (some (real _)) e = absurd (cc)
attested-IsAttested (some (text _)) e = absurd (cc)
attested-IsAttested (some (array _)) e = absurd (cc)

harness-IsAttested :
    (parsed : Members) (interface : String) (benchmark_version : ℕ) {a : Option Members}
    → parse_harness parsed interface benchmark_version ≡ value a
    → 2 ≤ benchmark_version
    → interface ≡ "agent-loop"
    → IsAttested parsed
unfolding parse_harness
harness-IsAttested parsed interface benchmark_version e v2 loop =
    let late : ltb benchmark_version 2 ≡ false = ground arith in
    let agent : (interface == "agent-loop") ≡ true = (eq_iff interface "agent-loop").1 loop in
    attested-IsAttested (lookup parsed "harness") (rw (late, agent) at e)

module _ (python : Builtins) {R : Type 0} (suite : List (Case R)) (benchmark_version : ℕ) where
  members-IsReport :
      (parsed : Members) {r : Reported}
      → parse_members python suite benchmark_version parsed ≡ value r
      → (2 ≤ benchmark_version → has parsed "interface" ≡ true)
      → IsReport suite benchmark_version parsed r
  unfolding parse_members
  members-IsReport parsed {r} e declared =
      let version = str_or python (lookup parsed "adapter_version") adapter_protocol in
      let interface = str_or python (lookup parsed "interface") "direct-api" in
      let (h, p, e1) =
        >>=-eq-value (parse_harness parsed (take_text 32 interface) benchmark_version) _ e in
      let (os, q, e2) = >>=-eq-value (parse_rows python suite (lookup parsed "cases")) _ e1 in
      let (ids, categories) = rows-cases python suite (lookup parsed "cases") q in
      let same : record {
        version = take_text 64 version;
        interface = take_text 32 interface;
        harness = h;
        outcomes = os;
      }
          ≡ r =
        ground arith in
      subst (IsReport suite benchmark_version parsed) same (record {
        cases = ids;
        categories = categories;
        version_short = len-take_text 64 version;
        interface_short = len-take_text 32 interface;
        declared = declared;
        harnessed = harness-IsAttested parsed (take_text 32 interface) benchmark_version p;
      })

  object-IsReport :
      (parsed : Members) {r : Reported}
      → parse_object python suite benchmark_version parsed ≡ value r
      → IsReport suite benchmark_version parsed r
  unfolding parse_object
  object-IsReport parsed e = elim (Bool-cases (has parsed "interface")) [
    | inl y ↦ members-IsReport parsed (ground arith) (λ _. y)
    | inr y ↦ elim (Bool-cases (ltb benchmark_version 2)) [
      | inl early ↦ members-IsReport parsed (ground arith) (λ v. absurd (ground arith))
      | inr late ↦ absurd (ground arith)
    ]
  ]

  loaded-IsReport :
      (payload : String) (l : Loaded) {r : Reported}
      → parse_loaded python suite benchmark_version payload l ≡ value r
      → (parsed : Members) × (l ≡ loaded (object parsed))
        × IsReport suite benchmark_version parsed r
  loaded-IsReport payload (loaded (object parsed)) e = (parsed, refl, object-IsReport parsed e)
  loaded-IsReport payload (loaded null) e = absurd (cc)
  loaded-IsReport payload (loaded (truth _)) e = absurd (cc)
  loaded-IsReport payload (loaded (integer _)) e = absurd (cc)
  loaded-IsReport payload (loaded (real _)) e = absurd (cc)
  loaded-IsReport payload (loaded (text _)) e = absurd (cc)
  loaded-IsReport payload (loaded (array _)) e = absurd (cc)
  loaded-IsReport payload decode_error e = absurd (cc)
  loaded-IsReport payload value_error e = absurd (cc)
  loaded-IsReport payload recursion_error e = absurd (cc)

  -- A payload is accepted only if it is a JSON object. The outcomes are then those of the cases of
  -- the suite, one each, in its order and with its categories, and the version and the interface
  -- are cut to 64 and 32 characters. From the second version of the benchmark on, the payload
  -- names its interface, and one that says agent-loop has a harness with every key of an
  -- attestation.
  pub parse_external_outcomes-IsReport :
      (payload : String) {r : Reported}
      → parse_external_outcomes python suite benchmark_version payload ≡ value r
      → (parsed : Members) × (loads python.payload_depth payload ≡ loaded (object parsed))
        × IsReport suite benchmark_version parsed r
  unfolding parse_external_outcomes
  parse_external_outcomes-IsReport payload e =
      loaded-IsReport payload (loads python.payload_depth payload) e
