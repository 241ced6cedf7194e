-- ===== src/Protocol/Credits.antt =====
-- When `_run_case` of adapters/protocol.py counts a case as passed.
use adversarial_cognition.Prelude.{
  ℕ, suc, ◌+◌, ◌<◌, ◌-◌, String, ◌≡◌, refl, ◌∙◌, sym, ap, true, inl, inr, arith, List, ◌↔◌,
  Bool-cases, Bool,
}
use adversarial_cognition.Hashes.{Hashes}
use adversarial_cognition.Protocol.{value, Outcome, outcome, MemorySystem}
use adversarial_cognition.Protocol.Driver.{
  Request, Row, attempt, attempts, attempt_again, run_case, supported, completed_row,
  unsupported_row, error_row, clip, evaluate,
}
use adversarial_cognition.Protocol.Attempts.{
  Failing, Ends, again_fails, run_case-Ends, run_case-unclaimed,
}

module _ {S : Type 0} (h : Hashes) (system : MemorySystem S) (temporal : Bool) (c : Request) where
  after-Failing :
      {n : ℕ} {e : String} {s t : S} (rounds : ℕ)
      → Failing h system temporal c n e s t
      → n + rounds ≡ attempts
      → attempt_again h system temporal c rounds e t
        ≡ attempt_again h system temporal c attempts "" s
  after-Failing {s} rounds Failing.none_yet sum =
      ap (λ k. attempt_again h system temporal c k "" s) (the_rounds rounds sum)
    where
      the_rounds : (k : ℕ) → 0 + k ≡ attempts → k ≡ attempts
      the_rounds k p = omega arith
  after-Failing rounds (Failing.one_more {n} {d} {e} {s} {t} {u} tried fails) sum =
      again_fails h system temporal c rounds d e t u fails
      ∙ after-Failing (suc rounds) tried (omega arith)

  again_completes :
      (rounds : ℕ) (e : String) (t u : S) (o : Outcome)
      → attempt h system temporal c.case_id t ≡ (value o, u)
      → attempt_again h system temporal c (suc rounds) e t ≡ (completed_row c o, u)
  unfolding attempt_again
  again_completes rounds e t u o p = ground arith

  -- If a claimed case fails in fewer than three attempts and then completes, its row is made of
  -- the outcome of the attempt that completes, as if none had failed.
  pub run_case_recovers :
      (capabilities : List String) (n : ℕ) (e : String) (s t u : S) (o : Outcome)
      → supported capabilities c.case_id ≡ true
      → Failing h system temporal c n e s t
      → n < attempts
      → attempt h system temporal c.case_id t ≡ (value o, u)
      → run_case h system temporal capabilities c s ≡ (completed_row c o, u)
  unfolding run_case
  run_case_recovers capabilities n e s t u o claimed tried few p = rw claimed (
      sym (after-Failing (suc (attempts - suc n)) tried (omega arith))
      ∙ again_completes (attempts - suc n) e t u o p)

  -- An attempt, the first that does not fail, completes with an outcome that the score accepts.
  pub record Credit (capabilities : List String) (s : S) : Type 0 where
    pub claimed : supported capabilities c.case_id ≡ true
    pub failures : ℕ
    pub error : String
    pub before : S
    pub after : S
    pub result : Outcome
    pub failing : Failing h system temporal c failures error s before
    pub few : failures < attempts
    pub completes : attempt h system temporal c.case_id before ≡ (value result, after)
    pub accepted : evaluate c (outcome result.allowed (clip result.ids)) ≡ true

  correct→Credit :
      (capabilities : List String) (s : S)
      → (run_case h system temporal capabilities c s).0.correct ≡ true
      → Credit capabilities s
  unfolding completed_row unsupported_row error_row
  correct→Credit capabilities s right = elim (Bool-cases (supported capabilities c.case_id)) [
    | inl e ↦ ended e refl (run_case-Ends h system temporal c capabilities s e)
    | inr e ↦ absurd (ground (arith, run_case-unclaimed h system temporal c capabilities s e))
  ]
    where
      ended :
          supported capabilities c.case_id ≡ true
          → {r : Row × S} → r ≡ run_case h system temporal capabilities c s
          → Ends h system temporal c s r
          → Credit capabilities s
      ended claimed same (Ends.completes n e t u o tried few p q) = record {
        claimed = claimed;
        failures = n;
        error = e;
        before = t;
        after = u;
        result = o;
        failing = tried;
        few = few;
        completes = p;
        accepted = ground arith;
      }
      ended claimed same (Ends.declines _ _ _ _ _ _ _ q) = absurd (ground arith)
      ended claimed same (Ends.gives_up _ _ _ _ _ q) = absurd (ground arith)

  -- A case counts as passed exactly if the system claims it, fewer than three attempts fail, and
  -- the next completes with an outcome that meets the case's expectation, its identifiers cut to
  -- the bounds. So no case passes that is unclaimed, that raises `Unsupported` or that gives up.
  pub correct-iff-Credit :
      (capabilities : List String) (s : S)
      → ((run_case h system temporal capabilities c s).0.correct ≡ true) ↔ Credit capabilities s
  unfolding completed_row
  correct-iff-Credit capabilities s = (
    correct→Credit capabilities s,
    λ (m : Credit capabilities s).
        ap (λ (r : Row × S). r.0.correct)
          (run_case_recovers capabilities m.failures m.error s m.before m.after m.result m.claimed
            m.failing m.few m.completes)
        ∙ m.accepted,
  )
