-- ===== src/Authenticated/Access.antt =====
-- adversarial_cognition/backend_v2.py refines adversarial_cognition/backend.py: whatever is called,
-- the vault goes through requests of registered identities only.
use adversarial_cognition.Prelude.{
  String, ◌≡◌, refl, sym, ◌∙◌, ap, subst, true, Option, none, some, inl, inr, List, [], ◌∷◌, arith,
  get, contains, Bool-cases, ltb, len_text,
}
use adversarial_cognition.Hashes.{Hashes}
use adversarial_cognition.Vault.{
  Actor, Memory, Date, Decision, Vault, claim, claimed, max_query_chars,
}
use adversarial_cognition.Vault
use adversarial_cognition.Vault.Requests.{Request, Event}
use adversarial_cognition.Vault.Requests
use adversarial_cognition.Vault.Invariant.{IsWellFormed, run-IsWellFormed}
use adversarial_cognition.Vault.Policy.{MayRead, recall_exact}
use adversarial_cognition.Identity.{
  IdentityRecord, IdentityRegistry, Session, Authentic, authenticate_exact,
}
use adversarial_cognition.Identity
use adversarial_cognition.Authenticated.{
  AuthenticatedBackend, actor_of, with_session, authenticate, recall,
}
use adversarial_cognition.Authenticated
use adversarial_cognition.Authenticated.Calls.{Call, ask, happen, run}
use adversarial_cognition.Authenticated.Gate.{session-cases, answer-with_session}

-- The actors of the requests have the attributes of registered identities.
abbrev pub ByRegistered : IdentityRegistry → List Event → Type 0
ByRegistered r [] = Unit
ByRegistered r (Event.restart ∷ events) = ByRegistered r events
ByRegistered r (Event.ask request a nonce ∷ events) =
    ((did : String) × (holder : IdentityRecord) × (get r.records did ≡ some holder)
      × (a ≡ actor_of (record { holder = holder })))
    × ByRegistered r events

-- The request that a call comes down to, in front of others: none if it has no session.
abbrev asked : Option (Option Session) → Request → String → List Event → List Event
asked (some (some session)) request nonce events =
    Event.ask request (actor_of session) nonce ∷ events
asked _ request nonce events = events

module _ (h : Hashes) where
  unfoldable pub requests_of : IdentityRegistry → List Call → List Event
  requests_of r [] = []
  requests_of r (Call.restart ∷ calls) = Event.restart ∷ requests_of r calls
  requests_of r (ask request did credential nonce ∷ calls) =
      asked (Identity.authenticate h did credential r) request nonce (requests_of r calls)

  -- The backend after requests to its core
  abbrev after : List Event → AuthenticatedBackend → AuthenticatedBackend
  after events b = record b { core = Requests.run h events b.core }

  asked-after :
      (o : Option (Option Session)) (request : Request) (nonce : String) (events : List Event)
      (b : AuthenticatedBackend)
      → after (asked o request nonce events) b
        ≡ after events (with_session o (λ a. Requests.answer h request a nonce) b).1
  unfolding with_session Requests.run Requests.happen
  asked-after none request nonce events b = refl
  asked-after (some none) request nonce events b = refl
  asked-after (some (some session)) request nonce events b = refl

  same_identities :
      (o : Option (Option Session)) (act : Actor → Vault → Decision × Vault)
      (b : AuthenticatedBackend)
      → (with_session o act b).1.identities ≡ b.identities
  unfolding with_session
  same_identities none act b = refl
  same_identities (some none) act b = refl
  same_identities (some (some session)) act b = refl

  asked-ByRegistered :
      (request : Request) (did credential nonce : String) (r : IdentityRegistry)
      (events : List Event)
      → ByRegistered r events
      → ByRegistered r (asked (Identity.authenticate h did credential r) request nonce events)
  asked-ByRegistered request did credential nonce r events rest =
      elim (session-cases (Identity.authenticate h did credential r)) [
        | inl (inl raised) ↦ rw raised rest
        | inl (inr refused) ↦ rw refused rest
        | inr (s, e) ↦
            let known : Authentic h did credential r s.holder =
              ((authenticate_exact h did credential r).0 s.holder).0 e in
            rw e ((did, s.holder, known.registered, refl), rest)
      ]

  requests_of-ByRegistered :
      (r : IdentityRegistry) (calls : List Call) → ByRegistered r (requests_of r calls)
  unfolding requests_of
  requests_of-ByRegistered r [] = tt
  requests_of-ByRegistered r (Call.restart ∷ calls) = requests_of-ByRegistered r calls
  requests_of-ByRegistered r (ask request did credential nonce ∷ calls) =
      asked-ByRegistered request did credential nonce r _ (requests_of-ByRegistered r calls)

  run-after :
      (calls : List Call) (b : AuthenticatedBackend)
      → run h calls b ≡ after (requests_of b.identities calls) b
  unfolding run happen requests_of Requests.run Requests.happen Authenticated.restart authenticate
  run-after [] b = refl
  run-after (Call.restart ∷ calls) b = run-after calls (Authenticated.restart b)
  run-after (ask request did credential nonce ∷ calls) b =
      let o = authenticate h did credential b in
      let act = λ (a : Actor). Requests.answer h request a nonce in
      let next = with_session o act b in
      ap (λ (x : Option Decision × AuthenticatedBackend). run h calls x.1)
        (answer-with_session h request did credential nonce b)
      ∙ run-after calls next.1
      ∙ ap (λ r. after (requests_of r calls) next.1) (same_identities o act b)
      ∙ sym (asked-after o request nonce (requests_of b.identities calls) b)

  -- Whatever is called on the authenticated backend, by anyone, it ends as it began but for the
  -- vault, and the vault ends as after some history of requests and restarts in which every actor
  -- has the attributes of a registered identity.
  pub run_refines :
      (calls : List Call) (b : AuthenticatedBackend)
      → (events : List Event) × (run h calls b ≡ record b { core = Requests.run h events b.core })
        × ByRegistered b.identities events
  run_refines calls b = (
    requests_of b.identities calls,
    run-after calls b,
    requests_of-ByRegistered b.identities calls,
  )

  -- What a recall of the vault returns the actor may read.
  recall_reads :
      (query : String) (a : Actor) (as_of : Date) (nonce : String) (v : Vault) (i : String)
      → IsWellFormed v
      → contains i (Vault.recall h query a as_of nonce v).0.ids ≡ true
      → (m : Memory) × (get v.memories i ≡ some m) × MayRead m a as_of
  unfolding Vault.recall claim
  recall_reads query a as_of nonce v i s e = elim (Bool-cases (claimed a.did nonce v.nonces)) [
    | inl used ↦ absurd (ground arith)
    | inr fresh ↦ elim (Bool-cases (ltb max_query_chars (len_text query))) [
      | inl long ↦ absurd (ground arith)
      | inr short ↦
          let (m, found, may, _) =
            ((recall_exact h query a as_of nonce v i s fresh (ground arith)).2).0 e in
          (m, found, may)
    ]
  ]

  session_reads :
      (o : Option (Option Session)) (query : String) (as_of : Date) (nonce : String)
      (b : AuthenticatedBackend) (i : String) (d : Decision)
      → IsWellFormed b.core
      → (with_session o (λ a. Vault.recall h query a as_of nonce) b).0 ≡ some d
      → contains i d.ids ≡ true
      → (session : Session) × (o ≡ some (some session))
        × (m : Memory) × (get b.core.memories i ≡ some m)
        × MayRead m (actor_of session) as_of
  unfolding with_session
  session_reads none query as_of nonce b i d s e shown = absurd (ground arith)
  session_reads (some none) query as_of nonce b i d s e shown = absurd (ground arith)
  session_reads (some (some session)) query as_of nonce b i d s e shown =
      let (m, found, may) =
        recall_reads query (actor_of session) as_of nonce b.core i s (ground arith) in
      (session, refl, m, found, may)

  -- An identifier in what a recall returns is that of a memory that the identity may read whose
  -- credential was shown.
  abbrev ReadsRegistered :
      String
      → String
      → String
      → Date
      → String
      → String
      → IdentityRegistry
      → AuthenticatedBackend
      → Type 0
  ReadsRegistered query did credential as_of nonce i r b =
      (d : Decision)
      → (recall h query did credential as_of nonce b).0 ≡ some d
      → contains i d.ids ≡ true
      → (holder : IdentityRecord) × Authentic h did credential r holder
        × (m : Memory) × (get b.core.memories i ≡ some m)
        × MayRead m (actor_of (record { holder = holder })) as_of

  reads_registered :
      (query did credential : String) (as_of : Date) (nonce i : String) (b : AuthenticatedBackend)
      → IsWellFormed b.core
      → ReadsRegistered query did credential as_of nonce i b.identities b
  unfolding recall authenticate
  reads_registered query did credential as_of nonce i b s d e shown =
      let (session, known, m, found, may) =
        session_reads (authenticate h did credential b) query as_of nonce b i d s e shown in
      (
        session.holder,
        ((authenticate_exact h did credential b.identities).0 session.holder).0 known,
        m,
        found,
        may,
      )

  -- Whatever was called before: an identifier that a recall returns is that of a memory that the
  -- registered identity may read whose credential was shown.
  pub recall_registered :
      (calls : List Call) (query did credential : String) (as_of : Date) (nonce i : String)
      (b : AuthenticatedBackend) (d : Decision)
      → IsWellFormed b.core
      → (recall h query did credential as_of nonce (run h calls b)).0 ≡ some d
      → contains i d.ids ≡ true
      → (holder : IdentityRecord) × Authentic h did credential b.identities holder
        × (m : Memory) × (get (run h calls b).core.memories i ≡ some m)
        × MayRead m (actor_of (record { holder = holder })) as_of
  recall_registered calls query did credential as_of nonce i b d s e shown =
      let events = requests_of b.identities calls in
      subst (ReadsRegistered query did credential as_of nonce i b.identities)
        (sym (run-after calls b))
        (reads_registered query did credential as_of nonce i (after events b)
          (run-IsWellFormed h events b.core s))
        d e shown
