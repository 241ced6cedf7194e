-- ===== src/Cases/Scoring.antt =====
-- How `run_case` of adversarial_cognition/cases.py scores a decision.
use adversarial_cognition.Prelude.{
  String, ◌≡◌, refl, Bool, true, false, ◌↔◌, List, [], ◌∷◌, ◌++◌, arith, eq_iff, contains,
  Bool-cases, inl, inr, not, ◌&&◌, ◌||◌,
}
use adversarial_cognition.Vault.{Decision}
use adversarial_cognition.Cases.{Case, starts_with_ids, meets, correct, same, nonempty}

-- The decision is the expected one, the identifiers begin with the expected ones, there are none
-- where the case must abstain, and none is forbidden.
pub record MeetsExpectation {B : Type 0} (c : Case B) (d : Decision) : Type 0 where
  pub decision : d.allowed ≡ c.expected_allowed
  pub ranked : (rest : List String) × (d.ids ≡ c.expected_ids ++ rest)
  pub abstained : c.must_abstain ≡ true → d.ids ≡ []
  pub contained : (i : String) → contains i c.forbidden_ids ≡ true → contains i d.ids ≡ false

starts_with_ids→prefix :
    (es ids : List String)
    → starts_with_ids es ids ≡ true
    → (rest : List String) × (ids ≡ es ++ rest)
unfolding starts_with_ids
starts_with_ids→prefix [] ids h = (ids, refl)
starts_with_ids→prefix (e ∷ es) [] h = cc
starts_with_ids→prefix (e ∷ es) (i ∷ ids) h =
    let (rest, same) = starts_with_ids→prefix es ids (ground arith) in
    (rest, ground (arith, eq_iff i e))

prefix→starts_with_ids : (es rest : List String) → starts_with_ids es (es ++ rest) ≡ true
unfolding starts_with_ids
prefix→starts_with_ids [] rest = refl
prefix→starts_with_ids (e ∷ es) rest = ground (arith, eq_iff e e, prefix→starts_with_ids es rest)

not-meets :
    (xs ys : List String) (i : String)
    → meets xs ys ≡ false
    → contains i xs ≡ true
    → contains i ys ≡ false
unfolding meets
not-meets [] ys i h e = cc
not-meets (x ∷ xs) ys i h e = ground (arith, eq_iff x i, not-meets xs ys i)

disjoint→not-meets :
    (xs ys : List String)
    → ((i : String) → contains i xs ≡ true → contains i ys ≡ false)
    → meets xs ys ≡ false
unfolding meets
disjoint→not-meets [] ys h = refl
disjoint→not-meets (x ∷ xs) ys h =
    rw (h x (ground (arith, eq_iff x x))) (disjoint→not-meets xs ys (λ i e. h i (ground arith)))

-- The tests of `run_case` without the guards, which change nothing.
correct_lem :
    {B : Type 0} (c : Case B) (d : Decision)
    → correct c d ≡ (
        same d.allowed c.expected_allowed
        && starts_with_ids c.expected_ids d.ids
        && (not c.must_abstain || not (nonempty d.ids))
        && not (meets c.forbidden_ids d.ids))
unfolding correct
correct_lem c d = ground arith

same_iff : (a b : Bool) → (same a b ≡ true) ↔ (a ≡ b)
same_iff a b = (λ e. ground arith, λ e. ground arith)

empty_of : (ids : List String) → nonempty ids ≡ false → ids ≡ []
empty_of [] h = refl
empty_of (i ∷ ids) h = cc

correct→meets : {B : Type 0} (c : Case B) (d : Decision) → correct c d ≡ true → MeetsExpectation c d
correct→meets c d h =
    let tests = rw (correct_lem c d) at h in
    record {
      decision = (same_iff d.allowed c.expected_allowed).0 (ground arith);
      ranked = starts_with_ids→prefix c.expected_ids d.ids (ground arith);
      abstained = λ e. empty_of d.ids (ground arith);
      contained = λ i e. not-meets c.forbidden_ids d.ids i (ground arith) e;
    }

abstains :
    {B : Type 0} (c : Case B) (d : Decision)
    → MeetsExpectation c d
    → (not c.must_abstain || not (nonempty d.ids)) ≡ true
abstains c d m = elim (Bool-cases c.must_abstain) [ inl e ↦ rw (e, m.abstained e) | inr e ↦ rw e ]

begins :
    {B : Type 0} (c : Case B) (d : Decision)
    → MeetsExpectation c d
    → starts_with_ids c.expected_ids d.ids ≡ true
begins c d m =
    let (rest, same_ids) = m.ranked in rw same_ids (prefix→starts_with_ids c.expected_ids rest)

meets→correct : {B : Type 0} (c : Case B) (d : Decision) → MeetsExpectation c d → correct c d ≡ true
meets→correct c d m = rw (
  correct_lem c d,
  (same_iff d.allowed c.expected_allowed).1 m.decision,
  begins c d m,
  abstains c d m,
  disjoint→not-meets c.forbidden_ids d.ids m.contained,
)

-- A decision is scored as correct exactly if it meets the expectation of its case.
pub correct_iff :
    {B : Type 0} (c : Case B) (d : Decision) → (correct c d ≡ true) ↔ MeetsExpectation c d
correct_iff c d = (correct→meets c d, meets→correct c d)
