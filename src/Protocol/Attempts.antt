-- ===== src/Protocol/Attempts.antt =====
-- The retries of `_run_case` of adapters/protocol.py, as a relation, and what a row says of them.
use adversarial_cognition.Prelude.{
  Bool, List, ℕ, zero, suc, ◌+◌, ◌<◌, String, ◌≡◌, refl, subst, true, false, inl, inr, arith,
}
use adversarial_cognition.Hashes.{Hashes}
use adversarial_cognition.Protocol.{value, unsupported, failed, Outcome, MemorySystem, Answer-cases}
use adversarial_cognition.Protocol.Driver.{
  Request, Row, attempt, attempts, attempt_again, run_case, supported, completed_row,
  unsupported_row, error_row,
}

module _ {S : Type 0} (h : Hashes) (system : MemorySystem S) (temporal : Bool) (c : Request) where
  -- `Failing n e s s'`: n attempts from s on fail, the last with the error e, and leave s'. Without
  -- an attempt the error is the empty text.
  pub data Failing : ℕ → String → S → S → Type 0 where
    none_yet : {s : S} → Failing zero "" s s
    one_more :
        {n : ℕ} {d e : String} {s t u : S}
        → Failing n d s t
        → attempt h system temporal c.case_id t ≡ (failed e, u)
        → Failing (suc n) e s u

  -- How a supported case can end.
  pub data Ends (s : S) (r : Row × S) : Type 0 where
    completes :
        (n : ℕ) (e : String) (t u : S) (o : Outcome)
        → Failing n e s t
        → n < attempts
        → attempt h system temporal c.case_id t ≡ (value o, u)
        → r ≡ (completed_row c o, u)
        → Ends s r
    declines :
        (n : ℕ) (e : String) (t u : S)
        → Failing n e s t
        → n < attempts
        → attempt h system temporal c.case_id t ≡ (unsupported, u)
        → r ≡ (unsupported_row c.case_id, u)
        → Ends s r
    gives_up :
        (n : ℕ) (e : String) (t : S)
        → Failing n e s t
        → n ≡ attempts
        → r ≡ (error_row c.case_id e, t)
        → Ends s r

  pub again_fails :
      (rounds : ℕ) (e d : String) (t u : S)
      → attempt h system temporal c.case_id t ≡ (failed d, u)
      → attempt_again h system temporal c rounds d u
        ≡ attempt_again h system temporal c (suc rounds) e t
  unfolding attempt_again
  again_fails rounds e d t u p = ground arith

  again-Ends :
      (s t : S) (done rounds : ℕ) (e : String)
      → done + rounds ≡ attempts
      → Failing done e s t
      → Ends s (attempt_again h system temporal c rounds e t)
  unfolding attempt_again
  again-Ends s t done zero e sum tried = Ends.gives_up done e t tried (omega arith) refl
  again-Ends s t done (suc rounds) e sum tried =
      elim (Answer-cases (attempt h system temporal c.case_id t)) [
        | inl (o, u, p) ↦ Ends.completes done e t u o tried (omega arith) p (ground arith)
        | inr (inl (u, p)) ↦ Ends.declines done e t u tried (omega arith) p (ground arith)
        | inr (inr (d, u, p)) ↦
            subst (Ends s) (again_fails rounds e d t u p)
              (again-Ends s u (suc done) rounds d (omega arith) (Failing.one_more tried p))
      ]

  -- A supported case runs until an attempt completes or the system raises `Unsupported`, and that
  -- attempt alone makes the row; it gives up after three attempts that fail, with the last error.
  pub run_case-Ends :
      (capabilities : List String) (s : S)
      → supported capabilities c.case_id ≡ true
      → Ends s (run_case h system temporal capabilities c s)
  unfolding run_case
  run_case-Ends capabilities s e = rw e (again-Ends s s 0 attempts "" refl Failing.none_yet)

  -- A case that the system does not claim does not touch it.
  pub run_case-unclaimed :
      (capabilities : List String) (s : S)
      → supported capabilities c.case_id ≡ false
      → run_case h system temporal capabilities c s ≡ (unsupported_row c.case_id, s)
  unfolding run_case
  run_case-unclaimed capabilities s e = rw e
