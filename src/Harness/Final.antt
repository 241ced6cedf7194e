-- ===== src/Harness/Final.antt =====
-- `parse_final` of agent_harness/loop.py: the model's last answer.
use Prim.Native.Char.{code}
use adversarial_cognition.Prelude.{
  ℕ, zero, suc, String, ◌<>◌, ◌==◌, Bool, true, false, ◌&&◌, ◌||◌, Option, none, some, List, [],
  ◌∷◌, map, take_text, eqb, leb, if◌then◌else◌,
}
use adversarial_cognition.Json.{show_int}
use adversarial_cognition.Json.Value.{Value, truth, integer, text, array, Values, done, item}
use adversarial_cognition.Json.Loading.{
  Loaded, loaded, decode_error, value_error, recursion_error, loads,
}
use adversarial_cognition.Harness.{Answer, value, raised, Printer}

abbrev pub max_ids : ℕ
max_ids = 8

abbrev pub max_id_chars : ℕ
max_id_chars = 64

-- The white space of `str.strip`
abbrev is_white : ℕ → Bool
is_white n =
    leb 9 n && leb n 13
    || leb 28 n && leb n 32
    || eqb n 0x85
    || eqb n 0xa0
    || eqb n 0x1680
    || leb 0x2000 n && leb n 0x200a
    || eqb n 0x2028
    || eqb n 0x2029
    || eqb n 0x202f
    || eqb n 0x205f
    || eqb n 0x3000

unfoldable pub lstrip : String → String
lstrip String.[] = ""
lstrip (String.◌∷◌ c s) = let rest = lstrip s in if is_white (code c) then rest else String.◌∷◌ c s

unfoldable pub rstrip : String → String
rstrip String.[] = ""
rstrip (String.◌∷◌ c s) =
    let rest = rstrip s in if rest == "" && is_white (code c) then "" else String.◌∷◌ c rest

-- text.strip()
unfoldable pub strip : String → String
unfolding lstrip rstrip
strip s = rstrip (lstrip s)

-- The text from its first "[" on
unfoldable pub from_first : String → Option String
from_first String.[] = none
from_first (String.◌∷◌ c s) =
    let rest = from_first s in if eqb (code c) b'[' then some (String.◌∷◌ c s) else rest

abbrev prepend : String → Option String → Option String
prepend c none = none
prepend c (some s) = some (c <> s)

-- The text up to its last "]"
unfoldable pub up_to_last : String → Option String
up_to_last String.[] = none
up_to_last (String.◌∷◌ c s) =
    let rest = prepend (String.◌∷◌ c String.[]) (up_to_last s) in
    elim rest [ some t ↦ some t | none ↦ if eqb (code c) b']' then some "]" else none ]

-- parsed[:MAX_IDS]
unfoldable pub take_values : ℕ → Values → Values
take_values zero vs = done
take_values (suc n) done = done
take_values (suc n) (item v vs) = item v (take_values n vs)

-- str(item) of the items that are a `str` or an `int`, of which `bool` is one
unfoldable pub names : Values → List String
names done = []
names (item (text s) vs) = s ∷ names vs
names (item (integer n) vs) = show_int n ∷ names vs
names (item (truth true) vs) = "True" ∷ names vs
names (item (truth false) vs) = "False" ∷ names vs
names (item _ vs) = names vs

unfoldable pub ids_of : Value → List String
unfolding take_values names
ids_of (array vs) = map (take_text max_id_chars) (names (take_values max_ids vs))
ids_of _ = []

-- The array in the middle of prose
unfoldable pub reread : Loaded → Answer (List String)
unfolding ids_of
reread (loaded v) = value (ids_of v)
reread decode_error = value []
reread value_error = raised "ValueError"
reread recursion_error = raised "RecursionError"

abbrev pub wrapped : Option String → Option String
wrapped none = none
wrapped (some s) = up_to_last s

abbrev pub fallback : Printer → Option String → Answer (List String)
fallback python none = value []
fallback python (some s) = reread (loads python.answer_depth s)

abbrev pub parsed : Printer → String → Loaded → Answer (List String)
parsed python s (loaded v) = value (ids_of v)
parsed python s decode_error = fallback python (wrapped (from_first s))
parsed python s value_error = raised "ValueError"
parsed python s recursion_error = raised "RecursionError"

unfoldable pub parse_final : Printer → String → Answer (List String)
unfolding ids_of reread from_first up_to_last
parse_final python content = let s = strip content in parsed python s (loads python.answer_depth s)
