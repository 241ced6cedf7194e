-- ===== src/Authenticated.antt =====
-- adversarial_cognition/backend_v2.py: the vault behind authenticated identities. A method takes a
-- DID and a credential instead of an actor; `none` is the TypeError that authentication may raise.
pub mod Calls
pub mod Gate
pub mod Access
mod Examples
use adversarial_cognition.Prelude.{String, Option, none, some, List, [], ◌∷◌, Dict, put}
use adversarial_cognition.Hashes.{Hashes}
use adversarial_cognition.Vault.{Actor, Memory, Date, Decision, Vault, denied}
use adversarial_cognition.Vault
use adversarial_cognition.Vault.Seed
use adversarial_cognition.Identity.{IdentityRecord, identity, Session, IdentityRegistry, register}
use adversarial_cognition.Identity

abbrev pub authentication_denied : Decision
authentication_denied = denied "authentication-denied"

abbrev pub principals : List IdentityRecord
principals =
    (record (identity "did:key:operator") { clearance = 3 })
    ∷ (record (identity "did:key:analyst") { clearance = 1 })
    ∷ (record (identity "did:key:outsider") { tenant = "rival" })
    ∷ (record (identity "did:key:advertiser") { purpose = "advertising" })
    ∷ []

pub record AuthenticatedBackend : Type 0 where
  pub core : Vault
  pub identities : IdentityRegistry
  pub credentials : Dict String

-- `_actor`
unfoldable pub actor_of : Session → Actor
actor_of session = record {
  did = session.holder.did;
  tenant = session.holder.tenant;
  space = session.holder.space;
  purpose = session.holder.purpose;
  clearance = session.holder.clearance;
  can_mutate = session.holder.can_mutate;
}

unfoldable pub restart : AuthenticatedBackend → AuthenticatedBackend
restart b = record b { core = Vault.restart b.core }

-- What a method does with what `authenticate` returned: `act` is its call of the core.
unfoldable pub with_session :
    Option (Option Session)
    → (Actor → Vault → Decision × Vault)
    → AuthenticatedBackend
    → Option Decision × AuthenticatedBackend
unfolding actor_of
with_session none act b = (none, b)
with_session (some none) act b = (some authentication_denied, b)
with_session (some (some session)) act b =
    let (decision, core) = act (actor_of session) b.core in
    (some decision, record b { core = core })

module _ (h : Hashes) where
  -- The dictionary of `__init__`: each principal is registered, and its credential kept.
  unfoldable pub register_all :
      List IdentityRecord → IdentityRegistry → Dict String → IdentityRegistry × Dict String
  register_all [] r credentials = (r, credentials)
  register_all (p ∷ ps) r credentials =
      register_all ps (register h p r).1 (put credentials p.did (register h p r).0)

  -- `__init__`
  unfoldable pub new : AuthenticatedBackend
  unfolding register_all
  new =
      let (identities, credentials) = register_all principals Identity.empty [] in
      record { core = Vault.empty; identities = identities; credentials = credentials }

  unfoldable pub seed : AuthenticatedBackend → AuthenticatedBackend
  seed b = record b { core = Seed.seed h b.core }

  unfoldable pub authenticate : String → String → AuthenticatedBackend → Option (Option Session)
  authenticate did credential b = Identity.authenticate h did credential b.identities

  unfoldable pub remember :
      Memory
      → String
      → String
      → String
      → AuthenticatedBackend
      → Option Decision × AuthenticatedBackend
  remember m did credential nonce b =
      with_session (authenticate did credential b) (λ a. Vault.remember h m a nonce) b

  unfoldable pub recall :
      String
      → String
      → String
      → Date
      → String
      → AuthenticatedBackend
      → Option Decision × AuthenticatedBackend
  recall query did credential as_of nonce b =
      with_session (authenticate did credential b) (λ a. Vault.recall h query a as_of nonce) b

  unfoldable pub improve :
      String
      → Memory
      → String
      → String
      → String
      → String
      → String
      → AuthenticatedBackend
      → Option Decision × AuthenticatedBackend
  improve i replacement did credential nonce expected key b =
      with_session (authenticate did credential b)
        (λ a. Vault.improve h i replacement a nonce expected key) b

  unfoldable pub forget :
      String
      → String
      → String
      → String
      → AuthenticatedBackend
      → Option Decision × AuthenticatedBackend
  forget i did credential nonce b =
      with_session (authenticate did credential b) (λ a. Vault.forget h i a nonce) b
