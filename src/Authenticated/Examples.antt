-- ===== src/Authenticated/Examples.antt =====
-- The theorems on identities and on the backend behind them, at the principals of
-- adversarial_cognition/backend_v2.py.
use adversarial_cognition.Prelude.{
  String, ◌≡◌, ◌==◌, refl, true, false, none, some, ◌⊎◌, List, [], ◌∷◌, arith, ◌&&◌, ◌↔◌, Option,
  get, put,
}
use adversarial_cognition.Hashes.{plain}
use adversarial_cognition.Vault.{
  Actor, Memory, Vault, Decision, date, digest, claim, authorized, expired, visible, rank,
}
use adversarial_cognition.Vault
use adversarial_cognition.Vault.Words.{words, overlap}
use adversarial_cognition.Vault.Ranking.{sort, ids_of, repr_ranked}
use adversarial_cognition.Vault.Seed
use adversarial_cognition.Vault.Requests.{Request, Event}
use adversarial_cognition.Vault.Requests
use adversarial_cognition.Vault.Invariant.{IsWellFormed}
use adversarial_cognition.Vault.Policy.{MayRead}
use adversarial_cognition.Identity.{
  IdentityRecord, identity, Session, IdentityRegistry, register, credential_of, is_ascii, Authentic,
  authenticate_exact, register_authenticates, compare_digest,
}
use adversarial_cognition.Identity
use adversarial_cognition.Authenticated.{
  AuthenticatedBackend, actor_of, with_session, authentication_denied, new, recall, register_all,
}
use adversarial_cognition.Authenticated
use adversarial_cognition.Authenticated.Calls.{Call, ask, answer, run}
use adversarial_cognition.Authenticated.Gate.{gate_exact}
use adversarial_cognition.Authenticated.Access.{ByRegistered, run_refines, recall_registered}

engine : Unit {0}
unfolding Vault.restart claim authorized expired visible rank digest Vault.remember Vault.recall
    words overlap sort ids_of repr_ranked Seed.seed get put register credential_of is_ascii
    compare_digest Identity.authenticate actor_of with_session new register_all recall
    Authenticated.seed Authenticated.authenticate Authenticated.forget Authenticated.restart run
engine = tt

abbrev seeded : AuthenticatedBackend
seeded = Authenticated.seed plain (new plain)

abbrev analyst : String
analyst = "did:key:analyst"

abbrev credential : String
credential = credential_of plain analyst seeded.identities

authenticate_exact_example :
    ((holder : IdentityRecord)
      → (Identity.authenticate plain analyst credential seeded.identities
          ≡ some (some (record { holder = holder })))
        ↔ Authentic plain analyst credential seeded.identities holder)
    × (Identity.authenticate plain analyst credential seeded.identities ≡ none
        → ((holder : IdentityRecord) × (get seeded.identities.records analyst ≡ some holder))
          × ((is_ascii (credential_of plain analyst seeded.identities) && is_ascii credential)
              ≡ false))
authenticate_exact_example = authenticate_exact plain analyst credential seeded.identities

analyst_session :
    Identity.authenticate plain analyst credential seeded.identities
    ≡ some (some (record { holder = identity analyst }))
unfolding engine
analyst_session = refl

gate_exact_example :
    ((holder : IdentityRecord)
      → Authentic plain analyst credential seeded.identities holder
      → answer plain (Request.forget "soil") analyst credential "n" seeded ≡ (
        some
            (Requests.answer plain
              (Request.forget "soil")
              (actor_of (record { holder = holder }))
              "n"
              seeded.core).0,
        record seeded {
          core =
              (Requests.answer plain
                (Request.forget "soil")
                (actor_of (record { holder = holder }))
                "n"
                seeded.core).1;
        },
      ))
    × (((holder : IdentityRecord) → ¬ Authentic plain analyst credential seeded.identities holder)
        → (answer plain (Request.forget "soil") analyst credential "n" seeded
            ≡ (some authentication_denied, seeded))
          ⊎ (answer plain (Request.forget "soil") analyst credential "n" seeded ≡ (none, seeded)))
gate_exact_example = gate_exact plain (Request.forget "soil") analyst credential "n" seeded

-- Someone without a credential, then a restart.
abbrev intrusion : List Call
intrusion = ask (Request.forget "soil") analyst "guess" "n" ∷ Call.restart ∷ []

run_refines_example :
    (events : List Event) × (run plain intrusion seeded
      ≡ record seeded { core = Requests.run plain events seeded.core })
    × ByRegistered seeded.identities events
run_refines_example = run_refines plain intrusion seeded

seeded-IsWellFormed : IsWellFormed seeded.core
unfolding engine
seeded-IsWellFormed = ground arith

-- What the analyst finds on the private farm.
abbrev or_denied : Option Decision → Decision
or_denied none = authentication_denied
or_denied (some d) = d

abbrev found : Decision
found = or_denied (
    (recall plain "private farm price" analyst credential (date 2026 2 1) "q"
      (run plain intrusion seeded)).0)

recall_registered_example :
    (holder : IdentityRecord) × Authentic plain analyst credential seeded.identities holder
    × (m : Memory) × (get (run plain intrusion seeded).core.memories "price-current" ≡ some m)
    × MayRead m (actor_of (record { holder = holder })) (date 2026 2 1)
recall_registered_example =
    recall_registered plain intrusion "private farm price" analyst credential (date 2026 2 1) "q"
      "price-current" seeded found seeded-IsWellFormed (unfold engine in refl)
      (unfold engine in refl)

register_authenticates_example :
    (is_ascii (register plain (identity analyst) Identity.empty).0 ≡ true
      → Identity.authenticate plain analyst
          (register plain (identity analyst) Identity.empty).0
          (register plain (identity analyst) Identity.empty).1
        ≡ some (some (record { holder = identity analyst })))
    × ((did shown : String)
        → (analyst == did) ≡ false
        → Identity.authenticate plain did shown (register plain (identity analyst) Identity.empty).1
          ≡ Identity.authenticate plain did shown Identity.empty)
register_authenticates_example = register_authenticates plain (identity analyst) Identity.empty
