-- ===== src/Vault/Replay.antt =====
-- Replay protection of the vault: `_claim` and its users in adversarial_cognition/backend.py.
use adversarial_cognition.Prelude.{String, ◌≡◌, true, List, [], ◌∷◌, arith, eq_refl}
use adversarial_cognition.Hashes.{Hashes}
use adversarial_cognition.Vault.{
  Actor, Decision, Vault, denied, claimed, claim, remember, recall, improve, improve_new, forget,
  forget_known,
}
use adversarial_cognition.Vault
use adversarial_cognition.Vault.Requests.{Request, Event, ask, answer, happen, run}

-- What a replayed request is told.
abbrev pub refusal : Request → Decision
refusal (Request.recall query as_of) = denied "replay"
refusal _ = denied "replay-or-mutation-denied"

claim-claimed :
    (a : Actor) (nonce : String) (v : Vault) → claimed a.did nonce (claim a nonce v).1.nonces ≡ true
unfolding claim
claim-claimed a nonce v = ground (arith, eq_refl a.did, eq_refl nonce)

claim-keeps_claimed :
    (d n : String) (a : Actor) (nonce : String) (v : Vault)
    → claimed d n v.nonces ≡ true
    → claimed d n (claim a nonce v).1.nonces ≡ true
unfolding claim
claim-keeps_claimed d n a nonce v used = ground arith

module _ (h : Hashes) where
  -- A request whose nonce its actor has used is refused, and changes nothing of the vault.
  pub answer_replayed :
      (r : Request) (a : Actor) (nonce : String) (v : Vault)
      → claimed a.did nonce v.nonces ≡ true
      → answer h r a nonce v ≡ (refusal r, v)
  unfolding answer remember recall improve forget
  answer_replayed (Request.remember m) a nonce v used = rw used
  answer_replayed (Request.recall query as_of) a nonce v used = rw used
  answer_replayed (Request.improve i m expected key) a nonce v used = rw used
  answer_replayed (Request.forget i) a nonce v used = rw used

  -- The nonces after a request are those that `_claim` leaves.
  nonces-improve_new :
      (i : String) (m : Vault.Memory) (a : Actor) (expected key : String) (v : Vault)
      → (improve_new h i m a expected key v).1.nonces ≡ v.nonces
  unfolding improve_new
  nonces-improve_new i m a expected key v = ground arith

  nonces-answer :
      (r : Request) (a : Actor) (nonce : String) (v : Vault)
      → (answer h r a nonce v).1.nonces ≡ (claim a nonce v).1.nonces
  unfolding answer remember recall improve forget
  nonces-answer (Request.remember m) a nonce v = ground arith
  nonces-answer (Request.recall query as_of) a nonce v = ground arith
  nonces-answer (Request.improve i m expected key) a nonce v =
      ground (arith, nonces-improve_new i m a expected key (claim a nonce v).1)
  nonces-answer (Request.forget i) a nonce v = ground arith

  -- After a request its nonce is used.
  pub answer-claimed :
      (r : Request) (a : Actor) (nonce : String) (v : Vault)
      → claimed a.did nonce (answer h r a nonce v).1.nonces ≡ true
  answer-claimed r a nonce v = rw (nonces-answer r a nonce v) (claim-claimed a nonce v)

  -- No request makes a used nonce free.
  answer-keeps_claimed :
      (d n : String) (r : Request) (a : Actor) (nonce : String) (v : Vault)
      → claimed d n v.nonces ≡ true
      → claimed d n (answer h r a nonce v).1.nonces ≡ true
  answer-keeps_claimed d n r a nonce v used =
      rw (nonces-answer r a nonce v) (claim-keeps_claimed d n a nonce v used)

  happen-keeps_claimed :
      (d n : String) (e : Event) (v : Vault)
      → claimed d n v.nonces ≡ true
      → claimed d n (happen h e v).nonces ≡ true
  unfolding happen Vault.restart
  happen-keeps_claimed d n (ask r a nonce) v used = answer-keeps_claimed d n r a nonce v used
  happen-keeps_claimed d n Event.restart v used = used

  run-keeps_claimed :
      (d n : String) (events : List Event) (v : Vault)
      → claimed d n v.nonces ≡ true
      → claimed d n (run h events v).nonces ≡ true
  unfolding run
  run-keeps_claimed d n [] v used = used
  run-keeps_claimed d n (e ∷ events) v used =
      run-keeps_claimed d n events (happen h e v) (happen-keeps_claimed d n e v used)

  -- Once an actor has made a request with a nonce, allowed or not, every later request of any actor
  -- with that DID under the same nonce is refused and leaves the vault as it is, whatever requests
  -- and restarts come between.
  pub replay_refused :
      (r s : Request) (a b : Actor) (nonce : String) (between : List Event) (v : Vault)
      → b.did ≡ a.did
      → answer h s b nonce (run h between (answer h r a nonce v).1)
        ≡ (refusal s, run h between (answer h r a nonce v).1)
  replay_refused r s a b nonce between v same =
      answer_replayed s b nonce (run h between (answer h r a nonce v).1) (
        rw same (
          run-keeps_claimed a.did nonce between (answer h r a nonce v).1
            (answer-claimed r a nonce v)))
