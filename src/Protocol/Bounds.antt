-- ===== src/Protocol/Bounds.antt =====
-- What every row of adapters/protocol.py has, whatever the system answers.
use adversarial_cognition.Prelude.{
  ◌≤◌, String, ◌≡◌, refl, Bool, arith, Bool-cases, inl, inr, subst, sym, List, [], ◌∷◌, length, map,
  take, take_text, length-take, Short, Short-map, length-map,
}
use adversarial_cognition.Hashes.{Hashes}
use adversarial_cognition.Protocol.{Outcome, MemorySystem}
use adversarial_cognition.Protocol.Driver.{
  Request, Row, run_case, run_cases, supported, completed_row, unsupported_row, error_row, clip,
  max_ids, max_id_chars,
}
use adversarial_cognition.Protocol.Attempts.{Ends, run_case-Ends, run_case-unclaimed}

pub length-clip : (ids : List String) → length (clip ids) ≤ max_ids
unfolding clip
length-clip ids =
    omega (arith, length-map (take_text max_id_chars) (take max_ids ids), length-take max_ids ids)

pub Short-clip : (ids : List String) → Short max_id_chars (clip ids)
unfolding clip
Short-clip ids = Short-map max_id_chars (take max_ids ids)

-- At most eight identifiers, of at most 64 characters.
pub record IsBounded (r : Row) : Type 0 where
  pub few : length r.returned_ids ≤ 8
  pub short : Short 64 r.returned_ids

module _ {S : Type 0} (h : Hashes) (system : MemorySystem S) (temporal : Bool) where
  -- What the three kinds of row have, every row has.
  every_row :
      (P : Row → Type 0) (c : Request)
      → ((o : Outcome) → P (completed_row c o))
      → P (unsupported_row c.case_id)
      → ((e : String) → P (error_row c.case_id e))
      → (capabilities : List String) (s : S) → P (run_case h system temporal capabilities c s).0
  every_row P c completed declined failing capabilities s =
      elim (Bool-cases (supported capabilities c.case_id)) [
        | inl e ↦ ended (run_case-Ends h system temporal c capabilities s e)
        | inr e ↦
            subst (λ x. P x.0) (sym (run_case-unclaimed h system temporal c capabilities s e))
              declined
      ]
    where
      ended : {r : Row × S} → Ends h system temporal c s r → P r.0
      ended (Ends.completes _ _ _ _ o _ _ _ e) = subst (λ x. P x.0) (sym e) (completed o)
      ended (Ends.declines _ _ _ _ _ _ _ e) = subst (λ x. P x.0) (sym e) declined
      ended (Ends.gives_up _ e _ _ _ p) = subst (λ x. P x.0) (sym p) (failing e)

  -- Whatever the system returns or raises, a row names at most eight identifiers of at most 64
  -- characters each.
  pub run_case-IsBounded :
      (capabilities : List String) (c : Request) (s : S)
      → IsBounded (run_case h system temporal capabilities c s).0
  unfolding completed_row unsupported_row error_row
  run_case-IsBounded capabilities c s =
      every_row IsBounded c (λ o. record { few = length-clip o.ids; short = Short-clip o.ids })
        (record { few = omega arith; short = tt }) (λ e. record { few = omega arith; short = tt })
        capabilities s

  pub run_case-id :
      (capabilities : List String) (c : Request) (s : S)
      → (run_case h system temporal capabilities c s).0.case_id ≡ c.case_id
  unfolding completed_row unsupported_row error_row
  run_case-id capabilities c s =
      every_row (λ r. r.case_id ≡ c.case_id) c (λ o. refl) refl (λ e. refl) capabilities s

  -- Every case of the request gets one row under its name, in the order of the request, whatever
  -- the system returns or raises.
  pub run_cases-ids :
      (capabilities : List String) (cs : List Request) (s : S)
      → map (λ (r : Row). r.case_id) (run_cases h system temporal capabilities cs s).0
        ≡ map (λ (c : Request). c.case_id) cs
  unfolding run_cases
  run_cases-ids capabilities [] s = refl
  run_cases-ids capabilities (c ∷ cs) s = ground (
    arith,
    run_case-id capabilities c s,
    run_cases-ids capabilities cs (run_case h system temporal capabilities c s).1,
  )
