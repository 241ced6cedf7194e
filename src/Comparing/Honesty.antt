-- ===== src/Comparing/Honesty.antt =====
-- What an adapter cannot claim in the companion benchmarks, and what trips no gate.
use adversarial_cognition.Prelude.{
  ℕ, String, ◌≡◌, refl, subst, true, false, arith, Bool-cases, inl, inr, Option, none, some, List,
  [], ◌∷◌, map, contains, get, Dict, take_text, ◌==◌, eq_iff,
}
use adversarial_cognition.Json.Value.{
  Value, null, truth, integer, real, text, array, object, Values, done, item, Members, end, member,
  lookup,
}
use adversarial_cognition.Json.Loading.{
  Loaded, loaded, decode_error, value_error, recursion_error, loads,
}
use adversarial_cognition.Harness.{value}
use adversarial_cognition.Report.{any_failed}
use adversarial_cognition.External.{>>=-eq-value}
use adversarial_cognition.External.Attestation.{Builtins}
use adversarial_cognition.External.Parsing.{Table, covers, row_of, str_or, table_of}
use adversarial_cognition.Comparing.{
  Case, Row, Parsed, case_ids, claimed, count_gates, hard_gates, known_keys, known_texts, parse,
  parse_loaded, parse_members, read_rows, row_for, rows_for, system_status, tripped, zero_gates,
}

-- A row is supported only if its capability is claimed, and correct only if it is supported.
abbrev pub IsHonest : List String → Row → Type 0
IsHonest capabilities r =
    (r.is_supported ≡ true → contains r.capability capabilities ≡ true)
    × (r.correct ≡ true → r.is_supported ≡ true)

abbrev pub AllHonest : List String → List Row → Type 0
AllHonest capabilities [] = Unit
AllHonest capabilities (r ∷ rows) = IsHonest capabilities r × AllHonest capabilities rows

-- What is read of a payload.
pub record IsParsed (known : List String) (suite : List Case) (p : Parsed) : Type 0 where
  pub cases : map (λ (r : Row). r.case_id) p.rows ≡ case_ids suite
  pub gates : map (λ (r : Row). r.gate) p.rows ≡ map (λ (c : Case). c.gate) suite
  pub claims : (k : String) → contains k p.capabilities ≡ true → contains k known ≡ true
  pub honest : AllHonest p.capabilities p.rows

known_texts-known :
    (known : List String) (vs : Values) (k : String)
    → contains k (known_texts known vs) ≡ true
    → contains k known ≡ true
known_texts-known known done k e = absurd (ground arith)
known_texts-known known (item (text s) vs) k e = elim (Bool-cases (contains s known)) [
  | inl y ↦ elim (Bool-cases (s == k)) [
    | inl here ↦ subst (λ x. contains x known ≡ true) ((eq_iff s k).0 here) y
    | inr past ↦ known_texts-known known vs k (ground arith)
  ]
  | inr n ↦ known_texts-known known vs k (ground arith)
]
known_texts-known known (item null vs) k e = known_texts-known known vs k e
known_texts-known known (item (truth _) vs) k e = known_texts-known known vs k e
known_texts-known known (item (integer _) vs) k e = known_texts-known known vs k e
known_texts-known known (item (real _) vs) k e = known_texts-known known vs k e
known_texts-known known (item (array _) vs) k e = known_texts-known known vs k e
known_texts-known known (item (object _) vs) k e = known_texts-known known vs k e

known_keys-known :
    (known : List String) (ms : Members) (k : String)
    → contains k (known_keys known ms) ≡ true
    → contains k known ≡ true
known_keys-known known end k e = absurd (ground arith)
known_keys-known known (member j v ms) k e = elim (Bool-cases (contains j known)) [
  | inl y ↦ elim (Bool-cases (j == k)) [
    | inl here ↦ subst (λ x. contains x known ≡ true) ((eq_iff j k).0 here) y
    | inr past ↦ known_keys-known known ms k (ground arith)
  ]
  | inr n ↦ known_keys-known known ms k (ground arith)
]

claimed-known :
    (known : List String) (v : Option Value) {capabilities : List String}
    → claimed known v ≡ value capabilities
    → (k : String) → contains k capabilities ≡ true
    → contains k known ≡ true
unfolding claimed
claimed-known known none e k c = absurd (ground arith)
claimed-known known (some (array vs)) e k c = known_texts-known known vs k (ground arith)
claimed-known known (some (object ms)) e k c = known_keys-known known ms k (ground arith)
claimed-known known (some (text _)) e k c = absurd (ground arith)
claimed-known known (some null) e k c = absurd (cc)
claimed-known known (some (truth _)) e k c = absurd (cc)
claimed-known known (some (integer _)) e k c = absurd (cc)
claimed-known known (some (real _)) e k c = absurd (cc)

module _ (python : Builtins) where
  row_for-IsHonest :
      (capabilities : List String) (c : Case) (row : Members)
      → IsHonest capabilities (row_for python capabilities c row)
  unfolding row_for
  row_for-IsHonest capabilities c row = (λ e. ground arith, λ e. ground arith)

  rows_for-AllHonest :
      (capabilities : List String) (suite : List Case) (t : Table)
      → AllHonest capabilities (rows_for python capabilities suite t)
  unfolding rows_for
  rows_for-AllHonest capabilities [] t = tt
  rows_for-AllHonest capabilities (c ∷ cs) t = (
    row_for-IsHonest capabilities c (row_of (get t.rows c.case_id)),
    rows_for-AllHonest capabilities cs t,
  )

  rows_for-cases :
      (capabilities : List String) (suite : List Case) (t : Table)
      → (map (λ (r : Row). r.case_id) (rows_for python capabilities suite t) ≡ case_ids suite)
        × (map (λ (r : Row). r.gate) (rows_for python capabilities suite t)
            ≡ map (λ (c : Case). c.gate) suite)
  unfolding rows_for row_for
  rows_for-cases capabilities [] t = (refl, refl)
  rows_for-cases capabilities (c ∷ cs) t =
      let (ids, gates) = rows_for-cases capabilities cs t in rw (ids, gates) (refl, refl)

  module _ (protocol : String) (known : List String) (suite : List Case) where
    read_rows-rows :
        (capabilities : List String) (v : Option Value) {rows : List Row}
        → read_rows python protocol known suite capabilities v ≡ value rows
        → (t : Table) × (rows ≡ rows_for python capabilities suite t)
    unfolding read_rows
    read_rows-rows capabilities none e = absurd (cc)
    read_rows-rows capabilities (some v) e =
        let (t, _, e1) = >>=-eq-value (table_of v) _ e in
        elim (Bool-cases (covers t (case_ids suite))) [
          | inl y ↦ (t, ground arith)
          | inr n ↦ absurd (cc (rw n at e1))
        ]

    members-IsParsed :
        (parsed : Members) {p : Parsed}
        → parse_members python protocol known suite parsed ≡ value p
        → IsParsed known suite p
    unfolding parse_members
    members-IsParsed parsed {p} e =
        let (capabilities, q, e1) =
          >>=-eq-value (claimed known (lookup parsed "capabilities")) _ e in
        let (rows, r, e2) =
          >>=-eq-value (read_rows python protocol known suite capabilities (lookup parsed "cases"))
            _ e1 in
        let (t, same) = read_rows-rows capabilities (lookup parsed "cases") r in
        let (ids, gates) = rows_for-cases capabilities suite t in
        let all : record {
          version = take_text 64 (str_or python (lookup parsed "adapter_version") protocol);
          capabilities = capabilities;
          rows = rows_for python capabilities suite t;
        }
            ≡ p =
          ground arith in
        subst (IsParsed known suite) all (record {
          cases = ids;
          gates = gates;
          claims = claimed-known known (lookup parsed "capabilities") q;
          honest = rows_for-AllHonest capabilities suite t;
        })

    loaded-IsParsed :
        (payload : String) (l : Loaded) {p : Parsed}
        → parse_loaded python protocol known suite payload l ≡ value p
        → IsParsed known suite p
    loaded-IsParsed payload (loaded (object parsed)) e = members-IsParsed parsed e
    loaded-IsParsed payload (loaded null) e = absurd (cc)
    loaded-IsParsed payload (loaded (truth _)) e = absurd (cc)
    loaded-IsParsed payload (loaded (integer _)) e = absurd (cc)
    loaded-IsParsed payload (loaded (real _)) e = absurd (cc)
    loaded-IsParsed payload (loaded (text _)) e = absurd (cc)
    loaded-IsParsed payload (loaded (array _)) e = absurd (cc)
    loaded-IsParsed payload decode_error e = absurd (cc)
    loaded-IsParsed payload value_error e = absurd (cc)
    loaded-IsParsed payload recursion_error e = absurd (cc)

    -- Whatever an adapter prints, the rows that are read of it are those of the cases of the suite,
    -- one each, in its order and with its gates. It claims only capabilities that the benchmark
    -- knows, no row is supported without its capability claimed, and none is correct that is not
    -- supported.
    pub parse-IsParsed :
        (payload : String) {p : Parsed}
        → parse python protocol known suite payload ≡ value p
        → IsParsed known suite p
    unfolding parse
    parse-IsParsed payload e = loaded-IsParsed payload (loads python.payload_depth payload) e

-- No row trips a gate.
abbrev pub AllHeld : List Row → Type 0
AllHeld [] = Unit
AllHeld (r ∷ rows) = (r.is_supported ≡ true → r.correct ≡ true) × AllHeld rows

held-untripped : (r : Row) → (r.is_supported ≡ true → r.correct ≡ true) → tripped r ≡ none
unfolding tripped
held-untripped r held = elim (Bool-cases r.is_supported) [
  | inl y ↦ rw (y, held y) (ground arith)
  | inr n ↦ rw n (ground arith)
]

pub held-counts :
    (rows : List Row) (gates : Dict ℕ) → AllHeld rows → count_gates rows gates ≡ some gates
unfolding count_gates
held-counts [] gates held = refl
held-counts (r ∷ rows) gates (held, rest) =
    rw (count_gates, held-untripped r held) (held-counts rows gates rest)

unclaimed-held : (rows : List Row) → AllHonest [] rows → AllHeld rows
unclaimed-held [] honest = tt
unclaimed-held (r ∷ rows) (honest, rest) =
    (λ supported. absurd (ground arith), unclaimed-held rows rest)

zeros-unfailed : (names : List String) → any_failed (zero_gates names) ≡ false
unfolding any_failed
zeros-unfailed [] = refl
zeros-unfailed (name ∷ names) = zeros-unfailed names

-- An adapter that claims no capability trips no gate, whatever it says of the cases: each gate of the
-- benchmark stays at zero, and the status of the system is a pass.
pub unclaimed_passes :
    (python : Builtins) (protocol : String) (known names : List String) (suite : List Case)
    (payload : String) {p : Parsed}
    → parse python protocol known suite payload ≡ value p
    → p.capabilities ≡ []
    → (hard_gates names p.rows ≡ some (zero_gates names))
      × (system_status "executed" (zero_gates names) ≡ "pass")
unfolding hard_gates system_status
unclaimed_passes python protocol known names suite payload {p} e none_claimed =
    let read = parse-IsParsed python protocol known suite payload e in
    let honest = subst (λ cs. AllHonest cs p.rows) none_claimed read.honest in
    (
      held-counts p.rows (zero_gates names) (unclaimed-held p.rows honest),
      rw (zeros-unfailed names) refl,
    )
