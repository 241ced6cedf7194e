-- ===== src/Json/Loading.antt =====
-- `json.loads`: the steps of the automaton of Json/Reading.antt, and its run over a text. `depth` is
-- how many lists and dictionaries may be open at once: what the stack leaves at the call, which is
-- the interpreter's and no part of the text.
use Prim.Native.Char.{Char, code}
use adversarial_cognition.Prelude.{
  ℕ, zero, suc, ◌+◌, ◌-◌, ◌*◌, String, ◌<>◌, ◌≡◌, refl, Bool, true, false, ◌&&◌, ◌||◌, not, Option,
  none, some, List, [], ◌∷◌, eqb, leb, length, if◌then◌else◌,
}
use adversarial_cognition.Prelude.Int.{pos, negsuc}
use adversarial_cognition.Json.Value.{
  Value, null, truth, integer, real, text, array, object, done, item, end, member,
}
use adversarial_cognition.Json.Reading.{
  Frame, in_array, in_object, Mode, wants_value, first_item, first_key, wants_key, wants_colon,
  after_value, finished, word, minus, digits, point, exponent, exponent_sign, fraction,
  exponent_digits, chars, escaped, hex, low_backslash, low_u, low_hex, Reading, at, malformed,
  too_long, too_deep, is_space, is_digit, letter, hex_value, complete, unit, pair, in_text,
  in_escape, end_integer, leave_integer,
}

-- One more list or dictionary is opened.
abbrev open_frame : ℕ → Mode → Frame → List Frame → Reading
open_frame depth m f st = if leb depth (length st) then too_deep else at m (f ∷ st)

-- A value begins with `c`.
unfoldable begin_value : ℕ → Char → List Frame → Reading
begin_value depth c st =
    let n = code c in
    if eqb n b'"'
    then at (chars false "") st
    else if eqb n b'['
    then open_frame depth first_item (in_array done) st
    else if eqb n b'{'
    then open_frame depth first_key (in_object end "") st
    else if eqb n b'-'
    then at minus st
    else if eqb n b'0'
    then at (digits false true 0 1 "0") st
    else if is_digit n
    then at (digits false false (n - 48) 1 (letter c)) st
    else if eqb n b'n'
    then at (word "ull" null) st
    else if eqb n b't'
    then at (word "rue" (truth true)) st
    else if eqb n b'f'
    then at (word "alse" (truth false)) st
    else if eqb n b'N'
    then at (word "aN" (real "NaN")) st
    else if eqb n b'I'
    then at (word "nfinity" (real "Infinity")) st
    else malformed

unfoldable after_minus : Char → List Frame → Reading
after_minus c st =
    let n = code c in
    if eqb n b'0'
    then at (digits true true 0 1 "-0") st
    else if is_digit n
    then at (digits true false (n - 48) 1 ("-" <> letter c)) st
    else if eqb n b'I'
    then at (word "nfinity" (real "-Infinity")) st
    else malformed

-- A value has ended inside the frame on top.
unfoldable in_frame : ℕ → List Frame → Reading
unfolding complete
in_frame n [] = malformed
in_frame n (in_array vs ∷ st) =
    if eqb n b','
    then at wants_value (in_array vs ∷ st)
    else if eqb n b']'
    then complete (array vs) st
    else malformed
in_frame n (in_object ms k ∷ st) =
    if eqb n b','
    then at wants_key (in_object ms k ∷ st)
    else if eqb n b'}'
    then complete (object ms) st
    else malformed

-- The character behind a value, where the value ended before it
unfoldable settle : ℕ → Reading → Reading
unfolding in_frame
settle n (at after_value st) = if is_space n then at after_value st else in_frame n st
settle n (at (finished v) st) = if is_space n then at (finished v) st else malformed
settle n (at other st) = at other st
settle n malformed = malformed
settle n too_long = too_long
settle n too_deep = too_deep

abbrev close_array : List Frame → Reading
close_array (in_array vs ∷ st) = complete (array vs) st
close_array _ = malformed

abbrev close_object : List Frame → Reading
close_object (in_object ms k ∷ st) = complete (object ms) st
close_object _ = malformed

abbrev spell : ℕ → String → Value → List Frame → Reading
spell n String.[] v st = malformed
spell n (String.◌∷◌ d String.[]) v st = if eqb n (code d) then complete v st else malformed
spell n (String.◌∷◌ d (String.◌∷◌ e rest)) v st =
    if eqb n (code d) then at (word (String.◌∷◌ e rest) v) st else malformed

abbrev hex_step : ℕ → ℕ → Option ℕ → (ℕ → Reading) → (ℕ → ℕ → Reading) → Reading
hex_step n v none last more = malformed
hex_step zero v (some d) last more = malformed
hex_step (suc zero) v (some d) last more = last (v * 16 + d)
hex_step (suc (suc n)) v (some d) last more = more (suc n) (v * 16 + d)

unfoldable in_digits : Bool → Bool → ℕ → ℕ → String → Char → List Frame → Reading
unfolding settle end_integer
in_digits negative leading_zero value count source c st =
    let n = code c in
    if is_digit n && not leading_zero
    then at (digits negative false (value * 10 + (n - 48)) (count + 1) (source <> letter c)) st
    else if eqb n b'.'
    then at (point count (source <> letter c)) st
    else if eqb n b'e' || eqb n b'E'
    then at (exponent count (source <> letter c)) st
    else settle n (end_integer negative value count st)

unfoldable step : ℕ → Char → Mode → List Frame → Reading
unfolding begin_value after_minus settle in_digits unit pair in_text in_escape complete
step depth c wants_value st =
    if is_space (code c) then at wants_value st else begin_value depth c st
step depth c first_item st =
    if is_space (code c)
    then at first_item st
    else if eqb (code c) b']'
    then close_array st
    else begin_value depth c st
step depth c first_key st =
    if is_space (code c)
    then at first_key st
    else if eqb (code c) b'}'
    then close_object st
    else if eqb (code c) b'"'
    then at (chars true "") st
    else malformed
step depth c wants_key st =
    if is_space (code c)
    then at wants_key st
    else if eqb (code c) b'"'
    then at (chars true "") st
    else malformed
step depth c wants_colon st =
    if is_space (code c)
    then at wants_colon st
    else if eqb (code c) b':'
    then at wants_value st
    else malformed
step depth c after_value st = settle (code c) (at after_value st)
step depth c (finished v) st = settle (code c) (at (finished v) st)
step depth c (word rest v) st = spell (code c) rest v st
step depth c minus st = after_minus c st
step depth c (digits negative leading_zero value count source) st =
    in_digits negative leading_zero value count source c st
step depth c (point count source) st =
    if is_digit (code c) then at (fraction (source <> letter c)) st else leave_integer count
step depth c (exponent count source) st =
    if is_digit (code c)
    then at (exponent_digits (source <> letter c)) st
    else if eqb (code c) b'+' || eqb (code c) b'-'
    then at (exponent_sign count (source <> letter c)) st
    else leave_integer count
step depth c (exponent_sign count source) st =
    if is_digit (code c) then at (exponent_digits (source <> letter c)) st else leave_integer count
step depth c (fraction source) st =
    if is_digit (code c)
    then at (fraction (source <> letter c)) st
    else if eqb (code c) b'e' || eqb (code c) b'E'
    then at (exponent 0 (source <> letter c)) st
    else settle (code c) (complete (real source) st)
step depth c (exponent_digits source) st =
    if is_digit (code c)
    then at (exponent_digits (source <> letter c)) st
    else settle (code c) (complete (real source) st)
step depth c (chars key acc) st = in_text key acc c st
step depth c (escaped key acc) st = in_escape key acc (code c) st
step depth c (hex key acc n v) st =
    hex_step n v (hex_value (code c)) (λ u. unit key acc u st) (λ k u. at (hex key acc k u) st)
step depth c (low_backslash key acc high) st =
    if eqb (code c) b'\\' then at (low_u key acc high) st else malformed
step depth c (low_u key acc high) st =
    if eqb (code c) b'u' then at (low_hex key acc high 4 0) st else malformed
step depth c (low_hex key acc high n v) st =
    hex_step n v (hex_value (code c)) (λ u. pair key acc high u st)
      (λ k u. at (low_hex key acc high k u) st)

-- The text has ended.
unfoldable at_end : Mode → List Frame → Reading
unfolding end_integer complete
at_end (finished v) st = at (finished v) st
at_end (digits negative leading_zero value count source) st = end_integer negative value count st
at_end (point count source) st = leave_integer count
at_end (exponent count source) st = leave_integer count
at_end (exponent_sign count source) st = leave_integer count
at_end (fraction source) st = complete (real source) st
at_end (exponent_digits source) st = complete (real source) st
at_end _ st = malformed

unfoldable read : ℕ → String → Reading → Reading
unfolding step at_end
read depth String.[] (at m st) = at_end m st
read depth (String.◌∷◌ c s) (at m st) = read depth s (step depth c m st)
read depth s malformed = malformed
read depth s too_long = too_long
read depth s too_deep = too_deep

pub data Loaded : Type 0 where
  loaded : Value → Loaded
  decode_error value_error recursion_error : Loaded

abbrev loaded_of : Reading → Loaded
loaded_of (at (finished v) []) = loaded v
loaded_of (at _ _) = decode_error
loaded_of malformed = decode_error
loaded_of too_long = value_error
loaded_of too_deep = recursion_error

unfoldable pub loads : ℕ → String → Loaded
unfolding read
loads depth s = loaded_of (read depth s (at wants_value []))

loads_example :
    loads 900 "[\"a\\u00e9\\ud83d\\ude00\", -12, {\"k\": 1.5, \"k\": [true, null]}] "
    ≡ loaded (
        array (
          item (text "aé😀") (
            item
              (integer (negsuc 11))
              (item (object (member "k" (array (item (truth true) (item null done))) end)) done))))
unfolding loads
loads_example = refl

refused_example :
    (loads 900 "[1,]" ≡ decode_error)
    × (loads 900 "01" ≡ decode_error)
    × (loads 900 "1." ≡ decode_error)
    × (loads 900 "" ≡ decode_error)
    × (loads 900 "-" ≡ decode_error)
    × (loads 900 "[1] 2" ≡ decode_error)
    × (loads 900 " 0 " ≡ loaded (integer (pos 0)))
    × (loads 900 "2e-3" ≡ loaded (real "2e-3"))
    × (loads 900 "\"\\ud800\"" ≡ decode_error)
unfolding loads
refused_example = (refl, refl, refl, refl, refl, refl, refl, refl, refl)

deep_example :
    (loads 2 "[[1], {}]"
      ≡ loaded (array (item (array (item (integer (pos 1)) done)) (item (object end) done))))
    × (loads 2 "[[[1]]]" ≡ recursion_error)
    × (loads 2 "[{\"k\": [" ≡ recursion_error)
    × (loads 2 "[1 [[[" ≡ decode_error)
    × (loads 0 "1" ≡ loaded (integer (pos 1)))
unfolding loads
deep_example = (refl, refl, refl, refl, refl)
