-- ===== src/Prelude/TextOrder.antt =====
-- The order of texts is total, transitive and antisymmetric; texts with other first characters or
-- other ends differ.
use Prim.Native.Nat.{compare as compare_ℕ, Ordering}
use Prim.Native.Char.{Char, code}
use Prim.Native.String.{String, compare, then, ◌++◌}
use Prim.Native.String.append
use Prim.Native.String.compare
use mathlib.Core.Bool.{true, false}
use mathlib.Core.Logic.{◌≢◌}
use mathlib.Core.Path.{◌≡◌, refl, ap, ◌∙◌}
use native.Mathlib.Omega.{arith}
use text.Mathlib.Text.{◌==◌}
use text.Mathlib.TextEquality.{path_by_compare}
use adversarial_cognition.Prelude.Text.{text_le}

compare-nil-cons : (d : Char) (t : String) → compare String.[] (String.◌∷◌ d t) ≡ Ordering.lt
compare-nil-cons d t = λ i. Prim.Native.String.compare.nil-cons d t i

compare-cons-nil : (c : Char) (s : String) → compare (String.◌∷◌ c s) String.[] ≡ Ordering.gt
compare-cons-nil c s = λ i. Prim.Native.String.compare.cons-nil c s i

pub compare-cons-cons :
    (c d : Char) (s t : String)
    → compare (String.◌∷◌ c s) (String.◌∷◌ d t) ≡ then (compare_ℕ (code c) (code d)) (compare s t)
compare-cons-cons c d s t = λ i. Prim.Native.String.compare.cons-cons c d s t i

-- Of two texts one is at most the other.
pub text_le_total : (s t : String) → text_le s t ≡ false → text_le t s ≡ true
text_le_total String.[] String.[] h = refl
text_le_total String.[] (String.◌∷◌ d t) h = ground (arith, compare-nil-cons d t)
text_le_total (String.◌∷◌ c s) String.[] h = ground (arith, compare-nil-cons c s)
text_le_total (String.◌∷◌ c s) (String.◌∷◌ d t) h =
    ground (arith, compare-cons-cons c d s t, compare-cons-cons d c t s, text_le_total s t)

pub text_le_trans : (s t u : String) → text_le s t ≡ true → text_le t u ≡ true → text_le s u ≡ true
text_le_trans String.[] t String.[] h k = refl
text_le_trans String.[] t (String.◌∷◌ e u) h k = ground (arith, compare-nil-cons e u)
text_le_trans (String.◌∷◌ c s) String.[] u h k = ground (arith, compare-cons-nil c s)
text_le_trans (String.◌∷◌ c s) (String.◌∷◌ d t) String.[] h k = ground (arith, compare-cons-nil d t)
text_le_trans (String.◌∷◌ c s) (String.◌∷◌ d t) (String.◌∷◌ e u) h k = ground (
  arith,
  compare-cons-cons c d s t,
  compare-cons-cons d e t u,
  compare-cons-cons c e s u,
  text_le_trans s t u,
)

text_le_eq : (s t : String) → text_le s t ≡ true → text_le t s ≡ true → compare s t ≡ Ordering.eq
text_le_eq String.[] String.[] h k = refl
text_le_eq String.[] (String.◌∷◌ d t) h k = ground (arith, compare-cons-nil d t)
text_le_eq (String.◌∷◌ c s) String.[] h k = ground (arith, compare-cons-nil c s)
text_le_eq (String.◌∷◌ c s) (String.◌∷◌ d t) h k =
    ground (arith, compare-cons-cons c d s t, compare-cons-cons d c t s, text_le_eq s t)

pub text_le_antisymm : (s t : String) → text_le s t ≡ true → text_le t s ≡ true → s ≡ t
text_le_antisymm s t h k = path_by_compare s t (text_le_eq s t h k)

-- Texts that begin with different characters differ.
differ_at_head :
    (c d : Char) (s t : String) → code c ≢ code d → (String.◌∷◌ c s == String.◌∷◌ d t) ≡ false
differ_at_head c d s t h = ground (arith, compare-cons-cons c d s t)

-- So do such texts whatever stands behind the first.
pub differ_before_append :
    (c d : Char) (s t rest : String)
    → code c ≢ code d
    → ((String.◌∷◌ c s ++ rest) == String.◌∷◌ d t) ≡ false
differ_before_append c d s t rest h =
    ap (λ (x : String). x == String.◌∷◌ d t) (λ i. Prim.Native.String.append.cons c s rest i)
    ∙ differ_at_head c d (s ++ rest) t h
