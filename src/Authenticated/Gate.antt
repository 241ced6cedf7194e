-- ===== src/Authenticated/Gate.antt =====
-- adversarial_cognition/backend_v2.py: what a call does depends on the registered identity alone, and
-- the identities are those of the start.
use adversarial_cognition.Prelude.{String, ◌≡◌, refl, Option, none, some, ◌⊎◌, inl, inr}
use adversarial_cognition.Hashes.{Hashes}
use adversarial_cognition.Vault.Requests.{Request}
use adversarial_cognition.Vault.Requests
use adversarial_cognition.Identity.{IdentityRecord, Session, Authentic, authenticate_exact}
use adversarial_cognition.Authenticated.{
  AuthenticatedBackend, actor_of, with_session, authentication_denied, authenticate, remember,
  recall, improve, forget,
}
use adversarial_cognition.Authenticated.Calls.{answer}

-- What `authenticate` may return
pub session-cases :
    (o : Option (Option Session))
    → ((o ≡ none) ⊎ (o ≡ some none)) ⊎ ((s : Session) × (o ≡ some (some s)))
session-cases none = inl (inl refl)
session-cases (some none) = inl (inr refl)
session-cases (some (some s)) = inr (s, refl)

module _ (h : Hashes) where
  pub answer-with_session :
      (r : Request) (did credential nonce : String) (b : AuthenticatedBackend)
      → answer h r did credential nonce b
        ≡ with_session (authenticate h did credential b) (λ a. Requests.answer h r a nonce) b
  unfolding answer Requests.answer remember recall improve forget
  answer-with_session (Request.remember m) did credential nonce b = refl
  answer-with_session (Request.recall query as_of) did credential nonce b = refl
  answer-with_session (Request.improve i m expected key) did credential nonce b = refl
  answer-with_session (Request.forget i) did credential nonce b = refl

  -- A call with the credential of a registered identity is answered as the vault answers an actor
  -- with that identity's registered attributes, and changes nothing but the vault. Any other call is
  -- denied or raises, and changes nothing.
  pub gate_exact :
      (r : Request) (did credential nonce : String) (b : AuthenticatedBackend)
      → ((holder : IdentityRecord)
          → Authentic h did credential b.identities holder
          → answer h r did credential nonce b ≡ (
            some (Requests.answer h r (actor_of (record { holder = holder })) nonce b.core).0,
            record b {
              core = (Requests.answer h r (actor_of (record { holder = holder })) nonce b.core).1;
            },
          ))
        × (((holder : IdentityRecord) → ¬ Authentic h did credential b.identities holder)
            → (answer h r did credential nonce b ≡ (some authentication_denied, b))
              ⊎ (answer h r did credential nonce b ≡ (none, b)))
  unfolding with_session authenticate
  gate_exact r did credential nonce b = (
    λ holder a.
        rw
          (
            answer-with_session r did credential nonce b,
            ((authenticate_exact h did credential b.identities).0 holder).1 a,
          )
          refl,
    λ stranger. elim (session-cases (authenticate h did credential b)) [
      | inl (inl raised) ↦ inr (rw (answer-with_session r did credential nonce b, raised) refl)
      | inl (inr refused) ↦ inl (rw (answer-with_session r did credential nonce b, refused) refl)
      | inr (s, e) ↦
          absurd (
            stranger s.holder (((authenticate_exact h did credential b.identities).0 s.holder).0 e))
    ],
  )
