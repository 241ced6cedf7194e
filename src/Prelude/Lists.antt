-- ===== src/Prelude/Lists.antt =====
-- Lists with native lengths, and sets of texts: the order and the repetitions of a set's list are
-- never observed.
use Prim.Native.Nat.{ℕ, zero, suc, ◌+◌, ◌≤◌}
use Prim.Native.String.{String}
use mathlib.Core.Bool.{Bool, true, false, ◌||◌, ◌&&◌}
use mathlib.Core.List.{List, [], ◌∷◌, ◌++◌}
use mathlib.Core.Path.{◌≡◌, refl, subst}
use mathlib.Core.Logic.{inl, inr}
use adversarial_cognition.Prelude.Tests.{Bool-cases}
use native.Mathlib.Omega.{arith}
use text.Mathlib.Text.{◌==◌}
use text.Mathlib.TextEquality.{eq_iff}

module _ {ℓ} {A : Type ℓ} where
  abbrev pub length : List A → ℕ
  length [] = 0
  length (x ∷ xs) = suc (length xs)

  abbrev pub all : (A → Bool) → List A → Bool
  all p [] = true
  all p (x ∷ xs) = p x && all p xs

  -- xs[:n]
  abbrev pub take : ℕ → List A → List A
  take zero xs = []
  take (suc n) [] = []
  take (suc n) (x ∷ xs) = x ∷ take n xs

  pub length-take : (n : ℕ) (xs : List A) → length (take n xs) ≤ n
  length-take zero xs = omega arith
  length-take (suc n) [] = omega arith
  length-take (suc n) (x ∷ xs) = omega (arith, length-take n xs)

  pub length-append : (xs ys : List A) → length (xs ++ ys) ≡ length xs + length ys
  length-append [] ys = omega arith
  length-append (x ∷ xs) ys = omega (arith, length-append xs ys)

-- `x in xs`
abbrev pub contains : String → List String → Bool
contains s [] = false
contains s (x ∷ xs) = x == s || contains s xs

pub contains-append :
    (s : String) (xs ys : List String) → contains s (xs ++ ys) ≡ (contains s xs || contains s ys)
contains-append s [] ys = refl
contains-append s (x ∷ xs) ys = ground (arith, contains-append s xs ys)

-- `xs <= ys` of sets
abbrev pub subset : List String → List String → Bool
subset xs ys = all (λ x. contains x ys) xs

pub contains-subset :
    (s : String) (xs ys : List String)
    → subset xs ys ≡ true
    → contains s xs ≡ true
    → contains s ys ≡ true
contains-subset s [] ys h m = ground arith
contains-subset s (x ∷ xs) ys h m = ground (arith, eq_iff x s, contains-subset s xs ys)

-- Equality of lists of texts
abbrev pub same_texts : List String → List String → Bool
same_texts [] [] = true
same_texts (x ∷ xs) (y ∷ ys) = x == y && same_texts xs ys
same_texts _ _ = false

pub same_texts→path : (xs ys : List String) → same_texts xs ys ≡ true → ys ≡ xs
same_texts→path [] [] e = refl
same_texts→path [] (y ∷ ys) e = absurd (ground arith)
same_texts→path (x ∷ xs) [] e = absurd (ground arith)
same_texts→path (x ∷ xs) (y ∷ ys) e = ground (arith, eq_iff x y, same_texts→path xs ys)

pub same_texts_refl : (xs : List String) → same_texts xs xs ≡ true
same_texts_refl [] = refl
same_texts_refl (x ∷ xs) = ground (arith, (eq_iff x x).1 refl, same_texts_refl xs)

pub contains-all :
    (p : String → Bool) (s : String) (xs : List String)
    → all p xs ≡ true
    → contains s xs ≡ true
    → p s ≡ true
contains-all p s [] a e = absurd (ground arith)
contains-all p s (x ∷ xs) a e = elim (Bool-cases (x == s)) [
  | inl here ↦ subst (λ y. p y ≡ true) ((eq_iff x s).0 here) (ground arith)
  | inr past ↦ contains-all p s xs (ground arith) (ground arith)
]
