-- ===== src/Json/Reading.antt =====
-- `json.loads` of the standard library, as an automaton that reads one character at a time, so
-- that no text is too long for it. A text outside the grammar is `malformed`
-- (json.JSONDecodeError). Two other exceptions are told apart: an integer of more than 4300 digits
-- is a ValueError, here `too_long`, and a list or a dictionary inside of as many others as the
-- interpreter's stack has room for is a RecursionError, here `too_deep`. Where Python makes a text
-- with half of a surrogate pair, which is no text here, the answer is `malformed`.
use Prim.Native.Nat.{compare, Ordering}
use Prim.Native.Char.{Char, char, code, IsScalar}
use adversarial_cognition.Prelude.{
  ℕ, zero, suc, ◌+◌, ◌-◌, ◌*◌, String, ◌<>◌, ◌≡◌, refl, Bool, true, false, ◌&&◌, ◌||◌, Option, none,
  some, List, [], ◌∷◌, ltb, leb, eqb, if◌then◌else◌,
}
use adversarial_cognition.Prelude.Int.{ℤ, pos, negsuc}
use adversarial_cognition.Json.Value.{Value, integer, text, Values, Members, append, assign}

pub data Frame : Type 0 where
  in_array : Values → Frame
  in_object : Members → String → Frame

-- Where in the grammar the automaton stands. A text of the source that is being read is kept:
-- `key` says of a text whether it is a key.
pub data Mode : Type 0 where
  wants_value first_item first_key wants_key wants_colon after_value : Mode
  finished : Value → Mode
  word : String → Value → Mode
  minus : Mode
  -- negative, after a leading zero, the number so far, how many digits, the source
  digits : Bool → Bool → ℕ → ℕ → String → Mode
  -- how many digits the integer has before the point or the exponent
  point exponent exponent_sign : ℕ → String → Mode
  fraction exponent_digits : String → Mode
  chars escaped : (key : Bool) → String → Mode
  hex : (key : Bool) → String → ℕ → ℕ → Mode
  low_backslash low_u : (key : Bool) → String → ℕ → Mode
  low_hex : (key : Bool) → String → ℕ → ℕ → ℕ → Mode

pub data Reading : Type 0 where
  at : Mode → List Frame → Reading
  malformed too_long too_deep : Reading

abbrev pub is_space : ℕ → Bool
is_space n = eqb n 32 || eqb n 9 || eqb n 10 || eqb n 13

abbrev pub is_digit : ℕ → Bool
is_digit n = leb 48 n && leb n 57

-- What a value makes of the frame that it stands in
unfoldable pub complete : Value → List Frame → Reading
unfolding append assign
complete v [] = at (finished v) []
complete v (in_array vs ∷ st) = at after_value (in_array (append vs v) ∷ st)
complete v (in_object ms k ∷ st) = at after_value (in_object (assign ms k v) k ∷ st)

pub IsScalar-low : (n : ℕ) → compare n 55296 ≡ Ordering.lt → IsScalar n
IsScalar-low n e = rw e tt

pub IsScalar-high :
    (n : ℕ)
    → compare n 55296 ≡ Ordering.gt
    → compare 57343 n ≡ Ordering.lt
    → compare n 1114112 ≡ Ordering.lt
    → IsScalar n
IsScalar-high n e f g = rw (e, f, g) tt

-- `chr` of a number that is a scalar value
unfoldable pub to_char_in :
    (n : ℕ) (a b c : Ordering)
    → compare n 55296 ≡ a
    → compare 57343 n ≡ b
    → compare n 1114112 ≡ c
    → Option Char
to_char_in n Ordering.lt b c e f g = some (char n (IsScalar-low n e))
to_char_in n Ordering.gt Ordering.lt Ordering.lt e f g = some (char n (IsScalar-high n e f g))
to_char_in n _ _ _ e f g = none

unfoldable pub to_char : ℕ → Option Char
unfolding to_char_in
to_char n = to_char_in n (compare n 55296) (compare 57343 n) (compare n 1114112) refl refl refl

abbrev pub letter : Char → String
letter c = String.◌∷◌ c String.[]

abbrev pub hex_value : ℕ → Option ℕ
hex_value n =
    if is_digit n
    then some (n - 48)
    else if leb 97 n && leb n 102
    then some (n - 87)
    else if leb 65 n && leb n 70
    then some (n - 55)
    else none

-- A character of a text is read.
abbrev pub add_char : Bool → String → Option Char → List Frame → Reading
add_char key acc none st = malformed
add_char key acc (some c) st = at (chars key (acc <> letter c)) st

-- The escaped unit `u` is read.
unfoldable pub unit : Bool → String → ℕ → List Frame → Reading
unfolding to_char
unit key acc u st =
    if leb 0xd800 u && leb u 0xdbff
    then at (low_backslash key acc u) st
    else add_char key acc (to_char u) st

unfoldable pub pair : Bool → String → ℕ → ℕ → List Frame → Reading
unfolding to_char
pair key acc high u st =
    if leb 0xdc00 u && leb u 0xdfff
    then add_char key acc (to_char (0x10000 + (high - 0xd800) * 1024 + (u - 0xdc00))) st
    else malformed

abbrev pub end_text : Bool → String → List Frame → Reading
end_text true acc (in_object ms k ∷ st) = at wants_colon (in_object ms acc ∷ st)
end_text true acc _ = malformed
end_text false acc st = complete (text acc) st

unfoldable pub in_text : Bool → String → Char → List Frame → Reading
unfolding complete
in_text key acc c st =
    if eqb (code c) b'"'
    then end_text key acc st
    else if eqb (code c) b'\\'
    then at (escaped key acc) st
    else if ltb (code c) 32
    then malformed
    else at (chars key (acc <> letter c)) st

unfoldable pub in_escape : Bool → String → ℕ → List Frame → Reading
in_escape key acc n st =
    if eqb n b'"'
    then at (chars key (acc <> "\"")) st
    else if eqb n b'\\'
    then at (chars key (acc <> "\\")) st
    else if eqb n b'/'
    then at (chars key (acc <> "/")) st
    else if eqb n b'b'
    then add_char key acc (some (char 8 tt)) st
    else if eqb n b'f'
    then add_char key acc (some (char 12 tt)) st
    else if eqb n b'n'
    then add_char key acc (some (char 10 tt)) st
    else if eqb n b'r'
    then add_char key acc (some (char 13 tt)) st
    else if eqb n b't'
    then add_char key acc (some (char 9 tt)) st
    else if eqb n b'u'
    then at (hex key acc 4 0) st
    else malformed

abbrev pub signed : Bool → ℕ → ℤ
signed false n = pos n
signed true zero = pos 0
signed true (suc n) = negsuc n

-- The integer ends here, or the grammar is left after it.
abbrev pub long : ℕ → Bool
long count = ltb 4300 count

unfoldable pub end_integer : Bool → ℕ → ℕ → List Frame → Reading
unfolding complete
end_integer negative n count st =
    if long count then too_long else complete (integer (signed negative n)) st

abbrev pub leave_integer : ℕ → Reading
leave_integer count = if long count then too_long else malformed
