-- ===== src/Protocol/Second/Probe.antt =====
-- The negative probe of `prepare` in adapters/protocol_v2.py, on a system that accepts exactly the
-- credentials that it issued.
use adversarial_cognition.Prelude.{
  String, ◌<>◌, ◌≡◌, ◌≢◌, refl, drop_last-x, append_x-ne, sym, Option-cases, ◌↔◌, Option, none,
  some, arith, List, [], ◌∷◌, ◌==◌, Dict, get, eq_iff, drop_last, Bool-cases, inl, inr, ap, subst,
  ◌∙◌,
}
use adversarial_cognition.Protocol.{value}
use adversarial_cognition.Protocol.Second.{
  Surface, SecondSystem, corrupted, prepare, prepare_authenticated, obtain, voided, passed, or_else,
  principals, with_token, judged,
}

-- The probe offers the issued credential itself exactly if that ends in "x".
pub corrupted-eq_iff :
    (secret : String) → (corrupted secret ≡ secret) ↔ ((rest : String) × (secret ≡ rest <> "x"))
unfolding corrupted
corrupted-eq_iff secret = (same, λ (rest, e). back rest e)
  where
    same : corrupted secret ≡ secret → (rest : String) × (secret ≡ rest <> "x")
    same e = elim (Bool-cases (secret == "")) [
      | inl empty ↦
          absurd (ground (arith, eq_iff secret "", eq_iff "forged" "", (eq_iff "forged" secret).1))
      | inr given ↦ (drop_last secret, sym (rw given at e))
    ]

    back : (rest : String) → secret ≡ rest <> "x" → corrupted secret ≡ secret
    back rest e =
        ground (arith, eq_iff secret "", append_x-ne rest, drop_last-x rest, ap drop_last e)

-- The system accepts a credential exactly if it issued it, and neither call changes its state.
pub record IsHonest {S : Type 0} (surface : Surface S) (secrets : Dict String) : Type 0 where
  pub issued : (s : S) → surface.issued_credentials s ≡ (value secrets, s)
  pub accepts :
      (name secret : String) (s : S)
      → get secrets name ≡ some secret
      → (t : String) × (surface.authenticate name secret s ≡ (value (some t), s))
  pub rejects :
      (name secret : String) (s : S)
      → get secrets name ≢ some secret
      → surface.authenticate name secret s ≡ (value none, s)

module _ {S : Type 0} (system : SecondSystem S) (surface : Surface S) {secrets : Dict String}
    (honest : IsHonest surface secrets) where
  answer_to :
      (p : String) (s : S)
      → (answer : Option String) × (surface.authenticate p (or_else (get secrets p) "") s
          ≡ (value answer, s))
  answer_to p s = elim (Option-cases (get secrets p)) [
    | inl missing ↦ (none, honest.rejects p _ s (λ e. cc))
    | inr (v, found) ↦
        let (t, e) = honest.accepts p v s found in
        (
          some t,
          subst (λ o. surface.authenticate p (or_else o "") s ≡ (value (some t), s)) (sym found) e,
        )
  ]

  obtains :
      (ps : List String) (tokens : Dict String) (s : S)
      → (tokens' : Dict String) × (obtain system surface secrets ps tokens s ≡ (value tokens', s))
  unfolding obtain
  obtains [] tokens s = (tokens, refl)
  obtains (p ∷ ps) tokens s =
      let (answer, e) = answer_to p s in
      let (tokens', rest) = obtains ps (with_token p answer tokens) s in (tokens', rw e rest)

  probe_answered :
      (secret : String) (answer : Option String) (s : S)
      → get secrets "operator" ≡ some secret
      → surface.authenticate "operator" (corrupted secret) s ≡ (value answer, s)
      → prepare system (some surface) s ≡ judged system surface secrets answer s
  unfolding prepare prepare_authenticated
  probe_answered secret answer s e answered = rw (honest.issued s, e, answered) refl

  -- The system passes the probe and its claims stand, its principals with the tokens that it gives
  -- them, if the secret of the operator does not end in "x". If it does, the probe offers the
  -- issued secret itself: the system, which is right to accept it, loses its claims.
  pub prepare-honest :
      (secret : String) (s : S)
      → get secrets "operator" ≡ some secret
      → ((rest : String)
          → secret ≡ rest <> "x"
          → prepare system (some surface) s ≡ (value (voided system), s))
        × (((rest : String) → secret ≢ rest <> "x")
            → (tokens : Dict String) × (obtain system surface secrets principals [] s
                ≡ (value tokens, s))
              × (prepare system (some surface) s ≡ (value (passed system tokens), s)))
  prepare-honest secret s e = (
    (λ rest x.
        let same = (corrupted-eq_iff secret).1 (rest, x) in
        let (t, answered) = honest.accepts "operator" (corrupted secret) s (rw same e) in
        probe_answered secret (some t) s e answered),
    (λ other.
        let answered =
          honest.rejects "operator" (corrupted secret) s
            (λ q. let (rest, x) = (corrupted-eq_iff secret).0 (cc) in other rest x) in
        let (tokens, got) = obtains principals [] s in
        (tokens, got, probe_answered secret none s e answered ∙ rw got refl)),
  )
