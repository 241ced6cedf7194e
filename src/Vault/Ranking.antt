-- ===== src/Vault/Ranking.antt =====
-- `ranked.sort(key=lambda item: (-item[0], item[1]))` of adversarial_cognition/backend.py, and the
-- text of the ranked list.
use adversarial_cognition.Prelude.{
  ℕ, String, ◌<>◌, Bool, List, [], ◌∷◌, ltb, eqb, ◌&&◌, ◌||◌, text_le, show,
}
use adversarial_cognition.Prelude.Sorting
use adversarial_cognition.Hashes.{Hashes}

-- The key of the first is at most that of the second.
abbrev pub before : ℕ × String → ℕ × String → Bool
before (m, i) (n, j) = ltb n m || eqb m n && text_le i j

unfoldable pub sort : List (ℕ × String) → List (ℕ × String)
unfolding Sorting.sort
sort = Sorting.sort before

unfoldable pub ids_of : List (ℕ × String) → List String
ids_of [] = []
ids_of ((_, i) ∷ rest) = i ∷ ids_of rest

module _ (h : Hashes) where
  repr_item : ℕ × String → String
  unfolding show
  repr_item (score, i) = "(" <> (show score <> (", " <> (h.repr i <> ")")))

  repr_rest : List (ℕ × String) → String
  unfolding repr_item
  repr_rest [] = "]"
  repr_rest (x ∷ xs) = ", " <> (repr_item x <> repr_rest xs)

  -- f"{ranked}"
  unfoldable pub repr_ranked : List (ℕ × String) → String
  unfolding repr_item repr_rest
  repr_ranked [] = "[]"
  repr_ranked (x ∷ xs) = "[" <> (repr_item x <> repr_rest xs)
