-- ===== src/Protocol/Independence.antt =====
-- The rows of adapters/protocol.py for a system whose `reset` clears all that it holds.
use adversarial_cognition.Prelude.{ℕ, zero, suc, String, ◌≡◌, refl, Bool, arith, List, [], ◌∷◌, map}
use adversarial_cognition.Hashes.{Hashes}
use adversarial_cognition.Protocol.{value, MemorySystem}
use adversarial_cognition.Protocol.Driver.{
  Request, attempt, attempts, attempt_again, run_case, run_cases,
}

module _ {S : Type 0} (h : Hashes) (system : MemorySystem S) (temporal : Bool) {empty : S}
    (clears : (s : S) → system.reset s ≡ (value tt, empty)) where
  attempt_clears :
      (case_id : String) (s t : S)
      → attempt h system temporal case_id s ≡ attempt h system temporal case_id t
  unfolding attempt
  attempt_clears case_id s t = rw (clears s, clears t) refl

  again_clears :
      (c : Request) (rounds : ℕ) (e : String) (s t : S)
      → (attempt_again h system temporal c rounds e s).0
        ≡ (attempt_again h system temporal c rounds e t).0
  unfolding attempt_again
  again_clears c zero e s t = refl
  again_clears c (suc rounds) e s t = ground (arith, attempt_clears c.case_id s t)

  run_case_clears :
      (capabilities : List String) (c : Request) (s t : S)
      → (run_case h system temporal capabilities c s).0
        ≡ (run_case h system temporal capabilities c t).0
  unfolding run_case
  run_case_clears capabilities c s t = ground (arith, again_clears c attempts "" s t)

  -- If `reset` brings the system from every state to one and the same, the row of each case is
  -- that of the case run alone: neither the state at the start nor the other cases of the request
  -- nor their order count.
  pub run_cases_independent :
      (capabilities : List String) (cs : List Request) (s : S)
      → (run_cases h system temporal capabilities cs s).0
        ≡ map (λ c. (run_case h system temporal capabilities c empty).0) cs
  unfolding run_cases
  run_cases_independent capabilities [] s = refl
  run_cases_independent capabilities (c ∷ cs) s = ground (
    arith,
    run_case_clears capabilities c s empty,
    run_cases_independent capabilities cs (run_case h system temporal capabilities c s).1,
  )
