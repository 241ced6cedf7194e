-- ===== src/Authenticated/Calls.antt =====
-- The methods of adversarial_cognition/backend_v2.py as values, and histories of calls by anyone,
-- with restarts between.
use adversarial_cognition.Prelude.{String, Option, List, [], ◌∷◌}
use adversarial_cognition.Hashes.{Hashes}
use adversarial_cognition.Vault.{Decision}
use adversarial_cognition.Vault.Requests.{Request}
use adversarial_cognition.Authenticated.{AuthenticatedBackend}
use adversarial_cognition.Authenticated

pub data Call : Type 0 where
  ask : Request → String → String → String → Call
  restart : Call

module _ (h : Hashes) where
  -- A request under a DID, a credential and a nonce
  unfoldable pub answer :
      Request
      → String
      → String
      → String
      → AuthenticatedBackend
      → Option Decision × AuthenticatedBackend
  answer (Request.remember m) did credential nonce b =
      Authenticated.remember h m did credential nonce b
  answer (Request.recall query as_of) did credential nonce b =
      Authenticated.recall h query did credential as_of nonce b
  answer (Request.improve i replacement expected key) did credential nonce b =
      Authenticated.improve h i replacement did credential nonce expected key b
  answer (Request.forget i) did credential nonce b = Authenticated.forget h i did credential nonce b

  unfoldable pub happen : Call → AuthenticatedBackend → AuthenticatedBackend
  unfolding answer
  happen (ask r did credential nonce) b = (answer r did credential nonce b).1
  happen restart b = Authenticated.restart b

  unfoldable pub run : List Call → AuthenticatedBackend → AuthenticatedBackend
  unfolding happen
  run [] b = b
  run (c ∷ calls) b = run calls (happen c b)
