-- ===== src/Protocol/Simulation/Runs.antt =====
-- `_run_case` and the loop of `run` of adapters/protocol.py on two systems that answer alike.
use adversarial_cognition.Prelude.{
  ℕ, zero, suc, String, ◌≡◌, refl, ap, subst, Bool, true, false, List, [], ◌∷◌, Dict, get, inl, inr,
  ◌==◌, Bool-cases,
}
use adversarial_cognition.Hashes.{Hashes}
use adversarial_cognition.Protocol.{Call, Outcome, MemorySystem, Answer-cases}
use adversarial_cognition.Protocol.Scenarios.{scenarios}
use adversarial_cognition.Protocol.Driver.{
  Request, Row, play, attempt, attempt_again, run_case, run_cases, supported, attempts,
}
use adversarial_cognition.Protocol.Simulation.{Same, Simulates, same_end, seed-Same}
use adversarial_cognition.Protocol.Simulation.Scenarios.{SameTable, scenarios_same}

ap_cons : {x y : Row} {xs ys : List Row} → x ≡ y → xs ≡ ys → (x ∷ xs) ≡ (y ∷ ys)
ap_cons e es = λ i. e i ∷ es i

module _ {S T : Type 0} (Related : S → T → Type 0) where
  -- The rows are equal, and the states that are left are related.
  abbrev pub SameRows : {R : Type 0} → R × S → R × T → Type 0
  SameRows x y = (x.0 ≡ y.0) × Related x.1 y.1

  module _ (h : Hashes) (a : MemorySystem S) (b : MemorySystem T) (sim : Simulates Related a b)
      (temporal : Bool) where
    play-Same :
        (d : Dict (Call S Outcome)) (e : Dict (Call T Outcome)) (k : String)
        → SameTable Related d e
        → Same Related (play h a temporal k (get d k)) (play h b temporal k (get e k))
    unfolding play get
    play-Same [] [] k same s t r = (refl, r)
    play-Same [] (_ ∷ e) k same s t r = elim same [ ]
    play-Same (_ ∷ d) [] k same s t r = elim same [ ]
    play-Same ((i, m) ∷ d) ((j, n) ∷ e) k (named, ends, rest) s t r = elim (Bool-cases (i == k)) [
      | inl here ↦
          let there : (j == k) ≡ true = subst (λ x. (x == k) ≡ true) named here in
          rw (here, there) (ends s t r)
      | inr past ↦
          let gone : (j == k) ≡ false = subst (λ x. (x == k) ≡ false) named past in
          rw (past, gone) (play-Same d e k rest s t r)
    ]

    attempt-Same : (k : String) → Same Related (attempt h a temporal k) (attempt h b temporal k)
    unfolding attempt
    attempt-Same k s t r = same_end Related _ _ _ _ (sim.resets s t r) (λ _ u v q.
        same_end Related _ _ _ _ (seed-Same Related h a b sim temporal u v q) (λ _.
          play-Same (scenarios h a temporal) (scenarios h b temporal) k
            (scenarios_same Related h a b sim temporal)))

    again_same :
        (c : Request) (rounds : ℕ) (e : String) (s : S) (t : T)
        → Related s t
        → SameRows
            (attempt_again h a temporal c rounds e s)
            (attempt_again h b temporal c rounds e t)
    unfolding attempt_again
    again_same c zero e s t r = (refl, r)
    again_same c (suc rounds) e s t r =
        let (alike, left) = attempt-Same c.case_id s t r in
        elim (Answer-cases (attempt h b temporal c.case_id t)) [
          | inl (o, u, p) ↦ rw (attempt_again, alike, ap (λ x. x.0) p) (refl, left)
          | inr (inl (u, p)) ↦ rw (attempt_again, alike, ap (λ x. x.0) p) (refl, left)
          | inr (inr (d, u, p)) ↦
              rw (attempt_again, alike, ap (λ x. x.0) p) (again_same c rounds d _ _ left)
        ]

    run_case_same :
        (capabilities : List String) (c : Request) (s : S) (t : T)
        → Related s t
        → SameRows (run_case h a temporal capabilities c s) (run_case h b temporal capabilities c t)
    unfolding run_case
    run_case_same capabilities c s t r = elim (Bool-cases (supported capabilities c.case_id)) [
      | inl y ↦ rw y (again_same c attempts "" s t r)
      | inr n ↦ rw n (refl, r)
    ]

    -- Runs of the two systems from related states give the same rows, and end in related states.
    pub run_cases_same :
        (capabilities : List String) (cases : List Request) (s : S) (t : T)
        → Related s t
        → SameRows
            (run_cases h a temporal capabilities cases s)
            (run_cases h b temporal capabilities cases t)
    unfolding run_cases
    run_cases_same capabilities [] s t r = (refl, r)
    run_cases_same capabilities (c ∷ cs) s t r =
        let (row, left) = run_case_same capabilities c s t r in
        let (rows, last) = run_cases_same capabilities cs _ _ left in (ap_cons row rows, last)
