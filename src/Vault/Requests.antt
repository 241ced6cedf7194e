-- ===== src/Vault/Requests.antt =====
-- The operations of adversarial_cognition/backend.py as values, and histories of them with restarts
-- between: `case.run` of adversarial_cognition/cases.py is such a history.
use adversarial_cognition.Prelude.{String, List, [], ◌∷◌}
use adversarial_cognition.Hashes.{Hashes}
use adversarial_cognition.Vault.{Actor, Memory, Date, Decision, Vault}
use adversarial_cognition.Vault

pub data Request : Type 0 where
  remember : Memory → Request
  recall : String → Date → Request
  improve : String → Memory → String → String → Request
  forget : String → Request

pub data Event : Type 0 where
  ask : Request → Actor → String → Event
  restart : Event

module _ (h : Hashes) where
  unfoldable pub answer : Request → Actor → String → Vault → Decision × Vault
  answer (remember m) a nonce v = Vault.remember h m a nonce v
  answer (recall query as_of) a nonce v = Vault.recall h query a as_of nonce v
  answer (improve i replacement expected key) a nonce v =
      Vault.improve h i replacement a nonce expected key v
  answer (forget i) a nonce v = Vault.forget h i a nonce v

  unfoldable pub happen : Event → Vault → Vault
  unfolding answer
  happen (ask r a nonce) v = (answer r a nonce v).1
  happen restart v = Vault.restart v

  unfoldable pub run : List Event → Vault → Vault
  unfolding happen
  run [] v = v
  run (e ∷ events) v = run events (happen e v)
