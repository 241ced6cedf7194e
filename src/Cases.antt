-- ===== src/Cases.antt =====
-- adversarial_cognition/cases.py: the cases of the first benchmark and how one is scored.
-- `case.run` is a function of the backend: what it leaves of the backend is not used.
pub mod Scenarios
pub mod Suite
pub mod Scoring
pub mod Passing
pub mod Second
mod Examples
use adversarial_cognition.Prelude.{
  String, Bool, true, false, not, ◌&&◌, ◌||◌, List, [], ◌∷◌, ◌==◌, if◌then◌else◌, contains,
}
use adversarial_cognition.Vault.{Decision}

-- A case whose `run` is an `R`.
pub record Case (R : Type 0) : Type 0 where
  pub case_id : String
  pub category : String
  pub description : String
  pub run : R
  pub expected_allowed : Bool
  pub expected_ids : List String
  pub must_abstain : Bool
  pub forbidden_ids : List String

abbrev pub same : Bool → Bool → Bool
same true b = b
same false b = not b

-- `ids[: len(expected)] == expected`
unfoldable pub starts_with_ids : List String → List String → Bool
starts_with_ids [] ids = true
starts_with_ids (e ∷ es) [] = false
starts_with_ids (e ∷ es) (i ∷ ids) = i == e && starts_with_ids es ids

abbrev pub nonempty : List String → Bool
nonempty [] = false
nonempty (_ ∷ _) = true

-- `set(xs) & set(ys)`, as a truth value
unfoldable pub meets : List String → List String → Bool
meets [] ys = false
meets (x ∷ xs) ys = contains x ys || meets xs ys

-- The rest of `run_case`, and of `run_case_v2`, which is the same text.
unfoldable pub correct : {R : Type 0} → Case R → Decision → Bool
unfolding starts_with_ids meets
correct c d =
    let first = same d.allowed c.expected_allowed in
    let second =
      if nonempty c.expected_ids then first && starts_with_ids c.expected_ids d.ids else first in
    let third = if c.must_abstain then second && not (nonempty d.ids) else second in
    if nonempty c.forbidden_ids then third && not (meets c.forbidden_ids d.ids) else third

-- `run_case`, on the backend that `_fresh` makes
unfoldable pub run_case : {B : Type 0} → B → Case (B → Decision) → Bool × Decision
unfolding correct
run_case fresh c = (correct c (c.run fresh), c.run fresh)
