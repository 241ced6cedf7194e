-- ===== src/Prelude/Mapping.antt =====
-- Python's `dict` with keys that are texts: entries in the order of insertion. To assign to a key
-- that is there keeps its place.
use Prim.Native.String.{String}
use mathlib.Core.List.{List, [], ◌∷◌}
use mathlib.Core.Logic.{inl, inr}
use mathlib.Core.Option.{Option, none, some}
use mathlib.Core.Path.{◌≡◌, refl, sym, subst, subst₂}
use native.Mathlib.Omega.{arith}
use text.Mathlib.Text.{◌==◌}
use text.Mathlib.TextEquality.{eq_iff}
use adversarial_cognition.Prelude.Tests.{if◌then◌else◌, Bool-cases}

abbrev pub Dict {ℓ} : Type ℓ → Type ℓ
Dict A = List (String × A)

module _ {ℓ} {A : Type ℓ} where
  -- d.get(k)
  unfoldable pub get : Dict A → String → Option A
  get [] k = none
  get ((j, v) ∷ d) k = if j == k then some v else get d k

  -- d[k] = v
  unfoldable pub put : Dict A → String → A → Dict A
  put [] k v = (k, v) ∷ []
  put ((j, w) ∷ d) k v = if j == k then (j, v) ∷ d else (j, w) ∷ put d k v

  pub get-put :
      (d : Dict A) (k j : String) (v : A) → get (put d k v) j ≡ (if k == j then some v else get d j)
  unfolding get put
  get-put [] k j v = refl
  get-put ((i, w) ∷ d) k j v = ground (arith, eq_iff k j, eq_iff i k, eq_iff i j, get-put d k j v)

  -- No key stands twice.
  abbrev pub Distinct : Dict A → Type ℓ
  Distinct [] = Unit
  Distinct ((k, v) ∷ d) = (get d k ≡ none) × Distinct d

  pub Distinct-put : (d : Dict A) (k : String) (v : A) → Distinct d → Distinct (put d k v)
  unfolding get put
  Distinct-put [] k v h = (refl, tt)
  Distinct-put ((i, w) ∷ d) k v h =
      ground (arith, eq_iff i k, eq_iff k i, Distinct-put d k v h.1, get-put d k i v)

module _ {ℓ κ} {A : Type ℓ} (P : String → A → Type κ) where
  -- Every entry meets `P`.
  abbrev pub Entries : Dict A → Type κ
  Entries [] = Unit
  Entries ((k, v) ∷ d) = P k v × Entries d

  pub Entries-put : (d : Dict A) (k : String) (v : A) → P k v → Entries d → Entries (put d k v)
  unfolding put
  Entries-put [] k v p h = (p, tt)
  Entries-put ((j, w) ∷ d) k v p h = elim (Bool-cases (j == k)) [
    | inl here ↦ rw here (subst (λ x. P x v) (sym ((eq_iff j k).0 here)) p, h.1)
    | inr past ↦ rw past (h.0, Entries-put d k v p h.1)
  ]

  pub Entries-get : (d : Dict A) (k : String) (v : A) → Entries d → get d k ≡ some v → P k v
  unfolding get
  Entries-get [] k v h e = cc
  Entries-get ((j, w) ∷ d) k v h e = elim (Bool-cases (j == k)) [
    | inl here ↦ subst₂ P ((eq_iff j k).0 here) (ground arith) h.0
    | inr past ↦ Entries-get d k v h.1 (rw past at e)
  ]
