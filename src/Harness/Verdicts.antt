-- ===== src/Harness/Verdicts.antt =====
-- What agent_harness/driver.py makes of a failed probe, and of a model that cannot be reached.
use adversarial_cognition.Prelude.{
  ℕ, suc, String, ◌≡◌, refl, true, false, arith, Bool-cases, inl, inr, Option, some, List, [], ◌∷◌,
  all, contains, get, ltb, eq_iff, contains-all,
}
use adversarial_cognition.Cases.{meets}
use adversarial_cognition.Protocol.Driver.{Request}
use adversarial_cognition.Harness.{value, raised, Printer, AgentMemoryBackend, Message, Transport}
use adversarial_cognition.Harness.Prompts.{recall_prompt, system_prompt}
use adversarial_cognition.Harness.Loop.{
  message, exceeded, transport_failed, LoopResult, run_operation, take_turns, turned,
  max_transcript_chars, transcript_chars,
}
use adversarial_cognition.Harness.Driver.{
  Row, Track, supported, scored, declined, evaluate, any_authorization, requirements, options_of,
}
use adversarial_cognition.Harness.Track.{
  run_case, play, fresh, recall, scenario, recall_of, authorization_voided, now,
}

-- The cases that need one of the three capabilities of authorization.
abbrev pub authorization_cases : List String
authorization_cases =
    "isolation-tenant" ∷ "isolation-clearance" ∷ "purpose-denial" ∷ "confusable-query"
    ∷ "injection-contained" ∷ []

meets-nil : (xs : List String) → meets xs [] ≡ false
unfolding meets
meets-nil [] = refl
meets-nil (x ∷ xs) = meets-nil xs

all_authorization :
    all (λ i. any_authorization (options_of (get requirements i))) authorization_cases ≡ true
unfolding any_authorization get meets
all_authorization = refl

module _ {S N : Type 0} (python : Printer) (transport : Transport S)
    (backend : AgentMemoryBackend S N) where
  -- Once the backend has accepted the forged credential of the probe, each of the five
  -- authorization cases is declined without a call of the backend or the model, whatever the
  -- backend claims.
  pub run_case_voided :
      (c : Request) (track : Track N) (s : S)
      → track.authorization_check ≡ "failed-negative-probe"
      → contains c.case_id authorization_cases ≡ true
      → run_case python transport backend c track s ≡ (value (declined c.case_id, track), s)
  unfolding run_case authorization_voided
  run_case_voided c track s failed e =
      let needs =
        contains-all (λ i. any_authorization (options_of (get requirements i))) c.case_id
          authorization_cases all_authorization e in
      let known = (eq_iff track.authorization_check "failed-negative-probe").1 failed in
      elim (Bool-cases (supported backend.capabilities c.case_id)) [
        | inl y ↦ rw (y, known, needs) refl
        | inr y ↦ rw y refl
      ]

  -- The model can never be reached.
  abbrev pub IsDown : Type 0
  IsDown =
      (messages : List Message) (s : S)
      → (e : String) × (t : S) × (transport messages s ≡ (raised e, t))

  turn_down :
      (session : Option N) (left turn : ℕ) (messages : List Message) (s : S)
      → IsDown
      → (r : LoopResult) × (t : S) × (take_turns python transport backend session
            (suc left)
            turn
            messages
            s
          ≡ (value r, t))
        × (r.ids ≡ [])
  unfolding take_turns turned
  turn_down session left turn messages s down =
      elim (Bool-cases (ltb max_transcript_chars (transcript_chars messages))) [
        | inl e ↦ (exceeded turn, s, rw e refl, refl)
        | inr e ↦
            let (d, t, p) = down messages s in (transport_failed turn d, t, rw e (rw p refl), refl)
      ]

  recall_down :
      (track : Track N) (principal query : String) (as_of : Option String) (s : S)
      → IsDown
      → (t : S) × (recall python transport backend track principal query as_of s
          ≡ (value (true, []), t))
  unfolding recall run_operation
  recall_down track principal query as_of s down =
      let (r, t, p, q) =
        turn_down (get track.sessions principal) 5 1
          (message "system" system_prompt [] ∷ message "user" (recall_prompt query as_of) [] ∷ []) s
          down in
      (t, rw p (rw q refl))

  -- If the model can never be reached, a case that recalls, is supported and is not voided, is
  -- scored like an answer of no identifiers: it passes if it expects to be allowed and names no
  -- identifier, such as every case that must abstain.
  pub run_case_unreachable :
      (c : Request) (track track' : Track N) (principal query : String) (as_of : Option String)
      (s u : S)
      → IsDown
      → supported backend.capabilities c.case_id ≡ true
      → authorization_voided python transport backend track c.case_id ≡ false
      → recall_of c.case_id (now python transport backend) ≡ some (principal, query, as_of)
      → fresh python transport backend track s ≡ (value track', u)
      → c.expected_allowed ≡ true
      → c.expected_ids ≡ []
      → (r : Row) × (t : S) × (run_case python transport backend c track s ≡ (value (r, track'), t))
        × (r.correct ≡ true)
        × (r.returned_ids ≡ [])
  unfolding run_case play scenario scored evaluate meets
  run_case_unreachable c track track' principal query as_of s u down claimed kept recalls ready
        allowed ids =
      let (t, p) = recall_down track' principal query as_of u down in
      (
        scored c (true, []),
        t,
        rw (claimed, kept) (rw ready (rw recalls (rw p refl))),
        rw (allowed, ids) (ground (arith, meets-nil c.forbidden_ids)),
        refl,
      )
