-- ===== src/Prelude/Text.antt =====
-- Texts as Python has them: sequences of code points. `len_text` is Python's `len`, `text_le` the
-- order of `str`, `show` is `str` of a number that is not negative.
use Prim.Native.Nat.{ℕ, zero, suc, ◌/◌, ◌%◌, ◌≤◌}
use native.Mathlib.Omega.{arith}
use Prim.Native.Char.{Char, code}
use Prim.Native.String.{String, compare, ◌++◌}
use mathlib.Core.Bool.{Bool}
use Prim.Native.String.count
use Prim.Native.String.append
use text.Mathlib.TextEquality.{eq_iff}
use mathlib.Core.Logic.{◌≢◌}
use mathlib.Core.Path.{◌≡◌, refl, ap}
use mathlib.Core.List.{List, [], ◌∷◌}
use text.Mathlib.Text.{is_le}
use adversarial_cognition.Prelude.Tests.{eqb, if◌then◌else◌}

abbrev pub codes : String → List ℕ
codes String.[] = []
codes (String.◌∷◌ c s) = code c ∷ codes s

abbrev pub len_text : String → ℕ
len_text = Prim.Native.String.count

abbrev pub text_le : String → String → Bool
text_le s t = is_le (compare s t)

unfoldable pub digit : ℕ → String
digit n =
    if eqb n 0
    then "0"
    else if eqb n 1
    then "1"
    else if eqb n 2
    then "2"
    else if eqb n 3
    then "3"
    else if eqb n 4
    then "4"
    else if eqb n 5
    then "5"
    else if eqb n 6
    then "6"
    else if eqb n 7
    then "7"
    else if eqb n 8
    then "8"
    else "9"

-- The digits of `n` in front of `rest`; `n + 1` rounds are more than a number has digits.
unfoldable pub show_fuel : ℕ → ℕ → String → String
unfolding digit
show_fuel zero n rest = rest
show_fuel (suc f) n rest =
    let more = show_fuel f (n / 10) (digit (n % 10) ++ rest) in
    if eqb (n / 10) 0 then digit (n % 10) ++ rest else more

unfoldable pub show : ℕ → String
unfolding show_fuel
show n = show_fuel (suc n) n ""

-- text[:n]
abbrev pub take_text : ℕ → String → String
take_text zero s = String.[]
take_text (suc n) String.[] = String.[]
take_text (suc n) (String.◌∷◌ c s) = String.◌∷◌ c (take_text n s)

pub len-take_text : (n : ℕ) (s : String) → len_text (take_text n s) ≤ n
len-take_text zero s = omega arith
len-take_text (suc n) String.[] = omega arith
len-take_text (suc n) (String.◌∷◌ c s) =
    let e : len_text (String.◌∷◌ c (take_text n s)) ≡ suc (len_text (take_text n s)) =
      λ i. count.cons c (take_text n s) i in
    omega (arith, e, len-take_text n s)

-- text[:-1]
abbrev pub drop_last : String → String
drop_last String.[] = String.[]
drop_last (String.◌∷◌ c String.[]) = String.[]
drop_last (String.◌∷◌ c (String.◌∷◌ d s)) = String.◌∷◌ c (drop_last (String.◌∷◌ d s))

pub cons-append : (c : Char) (s t : String) → String.◌∷◌ c s ++ t ≡ String.◌∷◌ c (s ++ t)
cons-append c s t = λ i. append.cons c s t i

pub drop_last-x : (s : String) → drop_last (s ++ "x") ≡ s
drop_last-x String.[] = refl
drop_last-x (String.◌∷◌ c String.[]) = rw (cons-append c "" "x") refl
drop_last-x (String.◌∷◌ c (String.◌∷◌ d s)) =
    rw (cons-append c (String.◌∷◌ d s) "x", cons-append d s "x")
      (ap (String.◌∷◌ c) (rw (cons-append d s "x") at (drop_last-x (String.◌∷◌ d s))))

pub append_x-ne : (s : String) → s ++ "x" ≢ ""
append_x-ne String.[] e = absurd (ground (arith, (eq_iff "x" "").1 e))
append_x-ne (String.◌∷◌ c s) e = absurd (cc (cons-append c s "x"))
