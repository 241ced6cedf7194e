-- ===== src/Harness/Answers.antt =====
-- What `parse_final` of agent_harness/loop.py reads.
use adversarial_cognition.Prelude.{
  ℕ, zero, suc, ◌≤◌, String, ◌≡◌, refl, true, false, arith, ◌⊎◌, inl, inr, Option, none, some, List,
  [], length, take_text, Short, Short-map, length-map,
}
use adversarial_cognition.Json.Value.{
  Value, Values, item, array, text, integer, truth, null, real, object,
}
use adversarial_cognition.Json.Loading.{
  Loaded, loaded, decode_error, value_error, recursion_error, loads,
}
use adversarial_cognition.Harness.{Answer, value, raised, Printer}
use adversarial_cognition.Harness.Final.{
  take_values, names, ids_of, reread, wrapped, fallback, parsed, parse_final, from_first, strip,
  max_id_chars, max_ids,
}

count_values : Values → ℕ
count_values Values.done = 0
count_values (item v vs) = suc (count_values vs)

count-take_values : (n : ℕ) (vs : Values) → count_values (take_values n vs) ≤ n
unfolding take_values count_values
count-take_values zero vs = omega arith
count-take_values (suc n) Values.done = omega arith
count-take_values (suc n) (item v vs) = omega (arith, count-take_values n vs)

length-names : (vs : Values) → length (names vs) ≤ count_values vs
unfolding names count_values
length-names Values.done = omega arith
length-names (item (text s) vs) = omega (arith, length-names vs)
length-names (item (integer n) vs) = omega (arith, length-names vs)
length-names (item (truth true) vs) = omega (arith, length-names vs)
length-names (item (truth false) vs) = omega (arith, length-names vs)
length-names (item null vs) = omega (arith, length-names vs)
length-names (item (real s) vs) = omega (arith, length-names vs)
length-names (item (array ws) vs) = omega (arith, length-names vs)
length-names (item (object ms) vs) = omega (arith, length-names vs)

-- At most eight identifiers, of at most 64 characters.
pub record FewIds (ids : List String) : Type 0 where
  pub few : length ids ≤ 8
  pub short : Short 64 ids

pub no_ids : FewIds []
no_ids = record { few = omega arith; short = tt }

ids_of-FewIds : (v : Value) → FewIds (ids_of v)
unfolding ids_of
ids_of-FewIds (array vs) =
    let kept = take_values max_ids vs in
    record {
      few = omega (
        arith,
        length-map (take_text max_id_chars) (names kept),
        length-names kept,
        count-take_values max_ids vs,
      );
      short = Short-map max_id_chars (names kept);
    }
ids_of-FewIds null = no_ids
ids_of-FewIds (truth _) = no_ids
ids_of-FewIds (integer _) = no_ids
ids_of-FewIds (real _) = no_ids
ids_of-FewIds (text _) = no_ids
ids_of-FewIds (object _) = no_ids

-- An answer meets `P`, or it is what json.loads raises for an integer that is too long or for values
-- that are nested too deep.
abbrev pub OrTooMuch : {A : Type 0} → (A → Type 0) → Answer A → Type 0
OrTooMuch P (value a) = P a
OrTooMuch P (raised e) = (e ≡ "ValueError") ⊎ (e ≡ "RecursionError")

reread-FewIds : (l : Loaded) → OrTooMuch FewIds (reread l)
unfolding reread
reread-FewIds (loaded v) = ids_of-FewIds v
reread-FewIds decode_error = no_ids
reread-FewIds value_error = inl refl
reread-FewIds recursion_error = inr refl

fallback-FewIds : (python : Printer) (o : Option String) → OrTooMuch FewIds (fallback python o)
fallback-FewIds python none = no_ids
fallback-FewIds python (some s) = reread-FewIds (loads python.answer_depth s)

parsed-FewIds : (python : Printer) (s : String) (l : Loaded) → OrTooMuch FewIds (parsed python s l)
parsed-FewIds python s (loaded v) = ids_of-FewIds v
parsed-FewIds python s decode_error = fallback-FewIds python (wrapped (from_first s))
parsed-FewIds python s value_error = inl refl
parsed-FewIds python s recursion_error = inr refl

-- Whatever the model answers, at most eight identifiers of at most 64 characters are read from it,
-- unless an integer of more than 4300 digits or too deep a nesting makes the reading raise.
pub parse_final-FewIds :
    (python : Printer) (content : String) → OrTooMuch FewIds (parse_final python content)
unfolding parse_final
parse_final-FewIds python content =
    parsed-FewIds python (strip content) (loads python.answer_depth (strip content))
