-- ===== src/Protocol/Second/Stripping.antt =====
-- The authorization cases of a run of adapters/protocol_v2.py by a system that does not
-- authenticate.
use adversarial_cognition.Prelude.{
  String, ◌≡◌, ◌≢◌, refl, ◌∙◌, sym, subst, Bool, true, false, not, ◌&&◌, Option, none, some, arith,
  ap, Dict, get, List, [], ◌∷◌, contains, all, contains-all, eq_iff,
}
use adversarial_cognition.Hashes.{Hashes}
use adversarial_cognition.Protocol.{value, MemorySystem, >>=-eq-value}
use adversarial_cognition.Protocol.Driver.{
  Request, Row, any_met, run_case, run_cases, supported, unsupported_row,
}
use adversarial_cognition.Protocol.Attempts.{run_case-unclaimed}
use adversarial_cognition.Protocol.Bounds.{run_case-id}
use adversarial_cognition.Protocol.Second.{
  SecondSystem, Surface, Posture, SecondPayload, authorization_capabilities, without, stripped,
  prepare, prepare_authenticated, unauthenticated, voided, passed, judged, obtain, run_v2,
  payload_of, corrupted, or_else, principals,
}

-- The cases that need one of the three capabilities.
abbrev pub authorization_cases : List String
authorization_cases =
    "isolation-tenant" ∷ "isolation-clearance" ∷ "purpose-denial" ∷ "confusable-query"
    ∷ "injection-contained" ∷ []

contains-without :
    (s : String) (xs ys : List String)
    → contains s (without xs ys) ≡ (contains s xs && not (contains s ys))
unfolding without
contains-without s [] ys = refl
contains-without s (x ∷ xs) ys = ground (arith, eq_iff x s, contains-without s xs ys)

module _ (capabilities : List String) where
  all_unsupported :
      all
        (λ i. not (supported (without capabilities authorization_capabilities) i))
        authorization_cases
      ≡ true
  unfolding supported any_met get
  all_unsupported =
      rw
        (
          contains-without "isolation" capabilities authorization_capabilities,
          contains-without "clearance" capabilities authorization_capabilities,
          contains-without "purpose" capabilities authorization_capabilities,
        )
        (ground arith)

  stripped-unsupported :
      (case_id : String)
      → contains case_id authorization_cases ≡ true
      → supported (without capabilities authorization_capabilities) case_id ≡ false
  stripped-unsupported case_id e =
      let none_supported =
        contains-all (λ i. not (supported (without capabilities authorization_capabilities) i))
          case_id authorization_cases all_unsupported e in
      ground arith

module _ {S : Type 0} (system : SecondSystem S) where
  judged-stripped :
      (surface : Surface S) (secrets : Dict String) (forged : Option String) {p : Posture S} (s : S)
      {t : S}
      → judged system surface secrets forged s ≡ (value p, t)
      → p.check ≢ "passed"
      → p.capabilities ≡ stripped system
  unfolding voided passed
  judged-stripped surface secrets (some forged) s e other = ground arith
  judged-stripped surface secrets none s e other =
      let (tokens, u, got, e') = >>=-eq-value (obtain system surface secrets principals []) _ e in
      absurd (other (ground arith))

  prepare-stripped :
      (surface : Option (Surface S)) {p : Posture S} (s : S) {t : S}
      → prepare system surface s ≡ (value p, t)
      → p.check ≢ "passed"
      → p.capabilities ≡ stripped system
  unfolding prepare unauthenticated prepare_authenticated
  prepare-stripped none s e other = ground arith
  prepare-stripped (some surface) s e other =
      let (secrets, u, _, e') = >>=-eq-value surface.issued_credentials _ e in
      let (forged, v, _, e'') =
        >>=-eq-value
          (surface.authenticate "operator" (corrupted (or_else (get secrets "operator") ""))) _
          e' in
      judged-stripped surface secrets forged v e'' other

-- Every row of an authorization case says that the case is not supported, and credits nothing.
abbrev pub DeclinesAuthorization : List Row → Type 0
DeclinesAuthorization [] = Unit
DeclinesAuthorization (r ∷ rows) =
    (contains r.case_id authorization_cases ≡ true → r ≡ unsupported_row r.case_id)
    × DeclinesAuthorization rows

module _ {S : Type 0} (h : Hashes) (system : MemorySystem S) (temporal : Bool) where
  run_cases-declines :
      (capabilities : List String) (cases : List Request) (s : S)
      → DeclinesAuthorization
          (run_cases h system temporal (without capabilities authorization_capabilities) cases s).0
  unfolding run_cases
  run_cases-declines capabilities [] s = tt
  run_cases-declines capabilities (c ∷ cases) s =
      let left = without capabilities authorization_capabilities in
      (
        (λ e.
            let named = run_case-id h system temporal left c s in
            let declined =
              run_case-unclaimed h system temporal c left s
                (stripped-unsupported capabilities c.case_id (rw named at e)) in
            rw named (ap (λ x. x.0) declined)),
        run_cases-declines capabilities cases (run_case h system temporal left c s).1,
      )

-- Unless the system passes the probe, the run credits it with no authorization case: each of the
-- five is declined, though the system claims the capability.
pub run_v2_declines :
    {S : Type 0} (h : Hashes) (system : SecondSystem S) (cases : List Request) (s : S) {t : S}
    {payload : SecondPayload}
    → run_v2 h system cases s ≡ (value payload, t)
    → payload.authorization_check ≢ "passed"
    → DeclinesAuthorization payload.cases
unfolding run_v2 payload_of
run_v2_declines h system cases s {payload = payload} e other =
    let (p, u, prepared, e') = >>=-eq-value (prepare system system.surface) _ e in
    let same : payload_of h system cases p u ≡ payload = ground arith in
    let kept =
      prepare-stripped system system.surface s prepared
        (λ q. other (sym (ap (λ x. x.authorization_check) same) ∙ q)) in
    subst (λ x. DeclinesAuthorization x.cases) same
      (subst
        (λ c.
          DeclinesAuthorization
            (run_cases h p.view (contains "temporal" p.capabilities) c cases u).0)
        (sym kept)
        (run_cases-declines h p.view (contains "temporal" p.capabilities) system.memory.capabilities
          cases u))
