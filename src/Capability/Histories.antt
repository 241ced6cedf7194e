-- ===== src/Capability/Histories.antt =====
-- Histories of calls of the guard of docs/book/code/capability/capability_adversarial/backend.py,
-- and what stays through them: revocation, epochs and time.
use adversarial_cognition.Prelude.{
  ◌≤◌, String, ◌≡◌, refl, true, Option, none, some, List, [], ◌∷◌, arith, contains,
}
use adversarial_cognition.Prelude.Int.{ℤ, pos, ◌≤ℤ◌, +ℤ_parts}
use adversarial_cognition.Hashes.{Hashes}
use adversarial_cognition.Capability.{Guard, verify, attenuate_valid}
use adversarial_cognition.Capability
use adversarial_cognition.Capability.Sealing.{Capability, SecureValue}
use adversarial_cognition.Capability.Wire
use adversarial_cognition.Capability.Wire.{Request, mint_request}

pub data Call : Type 0 where
  grant_policy : String → String → List String → Call
  tick : ℤ → Call
  mint : String → List String → String → String → ℤ → Call
  attenuate : Option Capability → Option (List String) → Option ℤ → Call
  revoke : String → Call
  revoke_all : Call
  reveal : Option Capability → SecureValue → Call
  declassify : Option Capability → SecureValue → Call
  invoke : Option Capability → String → String → String → Call
  request : Request → Call
  restart : Call

module _ (h : Hashes) where
  unfoldable pub happen : Call → Guard → Guard
  happen (Call.grant_policy subject resource grants) g =
      Capability.grant_policy subject resource grants g
  happen (Call.tick n) g = Capability.tick n g
  happen (Call.mint subject grants resource operation lease) g =
      (Capability.mint h subject grants resource operation lease g).1
  happen (Call.attenuate held grants lease) g = (Capability.attenuate h held grants lease g).1
  happen (Call.revoke cap_id) g = Capability.revoke h cap_id g
  happen Call.revoke_all g = Capability.revoke_all h g
  happen (Call.reveal held value) g = (Capability.reveal h held value g).1
  happen (Call.declassify held value) g = (Capability.declassify h held value g).1
  happen (Call.invoke held tool resource operation) g =
      (Capability.invoke h held tool resource operation g).1
  happen (Call.request payload) g = (Wire.request h payload g).1
  happen Call.restart g = Capability.restart g

  unfoldable pub run : List Call → Guard → Guard
  unfolding happen
  run [] g = g
  run (c ∷ calls) g = run calls (happen c g)

-- What never goes back: `g'` has the revocations of `g`, and no lower an epoch.
pub record Follows (g g' : Guard) : Type 0 where
  pub revoked : (i : String) → contains i g.revoked ≡ true → contains i g'.revoked ≡ true
  pub epoch : g.min_epoch ≤ g'.min_epoch

-- Only `revoke` writes the revocations, only `revoke_all` the epoch, only `tick` the clock.
abbrev Steady : Guard → Guard → Type 0
Steady g g' = (g'.revoked ≡ g.revoked) × (g'.min_epoch ≡ g.min_epoch) × (g'.now ≡ g.now)

module _ (h : Hashes) where
  mint-Steady :
      (subject : String) (grants : List String) (resource operation : String) (lease : ℤ)
      (g : Guard)
      → Steady g (Capability.mint h subject grants resource operation lease g).1
  unfolding Capability.mint
  mint-Steady subject grants resource operation lease g = (ground arith, ground arith, ground arith)

  attenuate-Steady :
      (cap : Option Capability) (grants : Option (List String)) (lease : Option ℤ) (g : Guard)
      → Steady g (Capability.attenuate h cap grants lease g).1
  unfolding Capability.attenuate attenuate_valid
  attenuate-Steady none grants lease g = (refl, refl, refl)
  attenuate-Steady (some cap) grants lease g = (ground arith, ground arith, ground arith)

  reveal-Steady :
      (cap : Option Capability) (value : SecureValue) (g : Guard)
      → Steady g (Capability.reveal h cap value g).1
  unfolding Capability.reveal
  reveal-Steady none value g = (refl, refl, refl)
  reveal-Steady (some cap) value g = (ground arith, ground arith, ground arith)

  declassify-Steady :
      (cap : Option Capability) (value : SecureValue) (g : Guard)
      → Steady g (Capability.declassify h cap value g).1
  unfolding Capability.declassify
  declassify-Steady none value g = (refl, refl, refl)
  declassify-Steady (some cap) value g = (ground arith, ground arith, ground arith)

  invoke-Steady :
      (cap : Option Capability) (tool resource operation : String) (g : Guard)
      → Steady g (Capability.invoke h cap tool resource operation g).1
  unfolding Capability.invoke
  invoke-Steady none tool resource operation g = (refl, refl, refl)
  invoke-Steady (some cap) tool resource operation g = (ground arith, ground arith, ground arith)

  mint_request-Steady :
      (s : Option String) (gs : Option (List String)) (r : Option String) (operation : String)
      (lease : ℤ) (g : Guard)
      → Steady g (mint_request h s gs r operation lease g).1
  unfolding mint_request
  mint_request-Steady (some s) (some gs) (some r) operation lease g =
      mint-Steady s gs r operation lease g
  mint_request-Steady _ _ _ operation lease g = (refl, refl, refl)

  request-Steady : (payload : Request) (g : Guard) → Steady g (Wire.request h payload g).1
  unfolding Wire.request
  request-Steady payload g =
      let minted =
        mint_request-Steady payload.subject payload.grants payload.resource
          (Wire.or_default "" payload.operation) (Wire.or_default (pos 100) payload.lease) g in
      (ground arith, ground arith, ground arith)

  Steady-Follows : (g g' : Guard) → Steady g g' → Follows g g'
  Steady-Follows g g' s = record { revoked = λ i e. rw (s.0) e; epoch = omega arith }

  happen-Follows : (c : Call) (g : Guard) → Follows g (happen h c g)
  unfolding happen Capability.grant_policy Capability.tick Capability.revoke Capability.revoke_all
      Capability.restart
  happen-Follows (Call.grant_policy subject resource grants) g = record {
    revoked = λ i e. e;
    epoch = omega arith;
  }
  happen-Follows (Call.tick n) g = record { revoked = λ i e. e; epoch = omega arith }
  happen-Follows (Call.mint subject grants resource operation lease) g =
      Steady-Follows g _ (mint-Steady subject grants resource operation lease g)
  happen-Follows (Call.attenuate held grants lease) g =
      Steady-Follows g _ (attenuate-Steady held grants lease g)
  happen-Follows (Call.revoke cap_id) g = record {
    revoked = λ i e. ground arith;
    epoch = omega arith;
  }
  happen-Follows Call.revoke_all g = record { revoked = λ i e. e; epoch = omega arith }
  happen-Follows (Call.reveal held value) g = Steady-Follows g _ (reveal-Steady held value g)
  happen-Follows (Call.declassify held value) g =
      Steady-Follows g _ (declassify-Steady held value g)
  happen-Follows (Call.invoke held tool resource operation) g =
      Steady-Follows g _ (invoke-Steady held tool resource operation g)
  happen-Follows (Call.request payload) g = Steady-Follows g _ (request-Steady payload g)
  happen-Follows Call.restart g = record { revoked = λ i e. e; epoch = omega arith }

  pub run-Follows : (calls : List Call) (g : Guard) → Follows g (run h calls g)
  unfolding run
  run-Follows [] g = record { revoked = λ i e. e; epoch = omega arith }
  run-Follows (c ∷ calls) g =
      let step = happen-Follows c g in
      let rest = run-Follows calls (happen h c g) in
      record {
        revoked = λ i e. rest.revoked i (step.revoked i e);
        epoch = omega (arith, step.epoch, rest.epoch);
      }

-- A call that does not turn the clock back.
abbrev pub Forward : Call → Type 0
Forward (Call.tick n) = pos 0 ≤ℤ n
Forward _ = Unit

abbrev pub IsForward : List Call → Type 0
IsForward [] = Unit
IsForward (c ∷ calls) = Forward c × IsForward calls

module _ (h : Hashes) where
  pub happen-now : (c : Call) (g : Guard) → Forward c → g.now ≤ℤ (happen h c g).now
  unfolding happen Capability.grant_policy Capability.tick Capability.revoke Capability.revoke_all
      Capability.restart
  happen-now (Call.tick n) g f = omega (arith, +ℤ_parts g.now n)
  happen-now (Call.grant_policy subject resource grants) g f = omega arith
  happen-now (Call.mint subject grants resource operation lease) g f =
      rw ((mint-Steady h subject grants resource operation lease g).2) (omega arith)
  happen-now (Call.attenuate held grants lease) g f =
      rw ((attenuate-Steady h held grants lease g).2) (omega arith)
  happen-now (Call.revoke cap_id) g f = omega arith
  happen-now Call.revoke_all g f = omega arith
  happen-now (Call.reveal held value) g f = rw ((reveal-Steady h held value g).2) (omega arith)
  happen-now (Call.declassify held value) g f =
      rw ((declassify-Steady h held value g).2) (omega arith)
  happen-now (Call.invoke held tool resource operation) g f =
      rw ((invoke-Steady h held tool resource operation g).2) (omega arith)
  happen-now (Call.request payload) g f = rw ((request-Steady h payload g).2) (omega arith)
  happen-now Call.restart g f = omega arith
