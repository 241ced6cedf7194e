-- ===== src/Prelude/Limits.antt =====
-- Lists of texts that are all within a length.
use Prim.Native.Nat.{ℕ, ◌≤◌}
use Prim.Native.String.{String}
use mathlib.Core.List.{List, [], ◌∷◌, map}
use mathlib.Core.Path.{◌≡◌, refl}
use native.Mathlib.Omega.{arith}
use adversarial_cognition.Prelude.Lists.{length}
use adversarial_cognition.Prelude.Text.{len_text, take_text, len-take_text}

-- No text is longer.
abbrev pub Short : ℕ → List String → Type 0
Short n [] = Unit
Short n (s ∷ ss) = (len_text s ≤ n) × Short n ss

pub Short-map : (n : ℕ) (ss : List String) → Short n (map (take_text n) ss)
Short-map n [] = tt
Short-map n (s ∷ ss) = (len-take_text n s, Short-map n ss)

pub length-map : {A B : Type 0} (f : A → B) (xs : List A) → length (map f xs) ≡ length xs
length-map f [] = refl
length-map f (x ∷ xs) = omega (arith, length-map f xs)
