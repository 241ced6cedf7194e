-- ===== src/External/Duplicates.antt =====
-- Two rows for one case in a payload of an adapter.
use adversarial_cognition.Prelude.{
  String, ◌≡◌, refl, true, arith, Bool-cases, inl, inr, some, List, [], ◌∷◌, ap, contains,
  contains-subset, ◌==◌, Dict, put,
}
use adversarial_cognition.Json.Value.{Value, text, array, Values, done, item, Members, append}
use adversarial_cognition.Cases.{Case}
use adversarial_cognition.Harness.{value, split_answer}
use adversarial_cognition.External.Attestation.{Builtins}
use adversarial_cognition.External.Parsing.{
  Table, add_row, by_id, covers, key_of, keys, no_rows, outcomes_of, parse_rows, suite_ids,
  table_of,
}

by_id-append :
    (vs : Values) (v : Value) (t u : Table) {ms : Members} {k : String}
    → by_id vs t ≡ value u
    → key_of v ≡ value (ms, text k)
    → by_id (append vs v) t ≡ value (add_row u (ms, text k))
unfolding by_id append
by_id-append done v t u e p = rw p (ground arith)
by_id-append (item w vs) v t u e p = elim (split_answer (key_of w)) [
  | inl (k, q) ↦ rw q (by_id-append vs v (add_row t k) u (rw q at e) p)
  | inr (d, q) ↦ absurd (cc (rw q at e))
]

keys-put :
    {A : Type 0} (d : Dict A) (k : String) (v : A)
    → contains k (keys d) ≡ true
    → keys (put d k v) ≡ keys d
unfolding put
keys-put [] k v e = absurd (ground arith)
keys-put ((j, w) ∷ d) k v e = elim (Bool-cases (j == k)) [
  | inl here ↦ rw here refl
  | inr past ↦ rw past (ap (λ l. j ∷ l) (keys-put d k v (ground arith)))
]

-- If the rows of a payload cover the suite, and one more row for one of its cases stands behind
-- them, the payload is not refused: the outcomes are read with the later row in place of the
-- earlier.
pub parse_rows_duplicate :
    (python : Builtins) {R : Type 0} (suite : List (Case R)) (vs : Values) (v : Value) (t : Table)
    (ms : Members) (k : String)
    → by_id vs no_rows ≡ value t
    → covers t (suite_ids suite) ≡ true
    → key_of v ≡ value (ms, text k)
    → contains k (suite_ids suite) ≡ true
    → parse_rows python suite (some (array (append vs v)))
      ≡ outcomes_of python suite (record t { rows = put t.rows k ms })
unfolding parse_rows table_of
parse_rows_duplicate python suite vs v t ms k read covered keyed known =
    let there : contains k (keys t.rows) ≡ true =
      contains-subset k (suite_ids suite) (keys t.rows) (ground arith) known in
    let same = keys-put t.rows k ms there in
    rw (by_id-append vs v no_rows t read keyed) (rw same (rw covered refl))
