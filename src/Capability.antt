-- ===== src/Capability.antt =====
-- docs/book/code/capability/capability_adversarial/backend.py: the guard of a capability-gated
-- authority. A method returns its outcome and the guard afterwards.
pub mod Grants
pub mod Sealing
pub mod Wire
pub mod Narrowing
pub mod Authority
pub mod Escalation
pub mod Histories
pub mod Revocation
pub mod Auditing
pub mod Minting
pub mod Cases
mod Examples
use adversarial_cognition.Prelude.{
  ℕ, suc, ◌+◌, String, ◌<>◌, Bool, true, false, not, ◌&&◌, ◌||◌, Option, none, some, List, [], ◌∷◌,
  ◌++◌, ltb, if◌then◌else◌, ◌==◌, Dict, get, put, contains, all, subset, show, length,
}
use adversarial_cognition.Prelude.Int.{ℤ, pos, ◌+ℤ◌, less}
use adversarial_cognition.Hashes.{Hashes}
use adversarial_cognition.Json.{
  Items, item, done, text, number, object, array, texts, Fields, end, field,
}
use Grants.{level, read_ceiling, grant_implied, sorted_grants}
use Sealing.{Capability, SecureValue, Outcome, refused, granted, redacted, digest, seal_of, sealed}

pub record Guard : Type 0 where
  pub policy : Dict (Dict (List String))
  pub revoked : List String
  pub min_epoch : ℕ
  pub now : ℤ
  pub audit : List String
  pub n : ℕ

abbrev pub empty : Guard
empty = record { policy = []; revoked = []; min_epoch = 0; now = pos 0; audit = []; n = 0 }

abbrev pub or_empty {ℓ} : {A : Type ℓ} → Option (List A) → List A
or_empty none = []
or_empty (some xs) = xs

unfoldable pub grant_policy : String → String → List String → Guard → Guard
grant_policy subject resource grants g = record g {
  policy = put g.policy subject (put (or_empty (get g.policy subject)) resource grants);
}

unfoldable pub tick : ℤ → Guard → Guard
tick n g = record g { now = g.now +ℤ n }

-- `str(n)` with leading zeros to four digits
unfoldable pub padded : ℕ → String
padded n =
    if ltb n 10
    then "000" <> show n
    else if ltb n 100
    then "00" <> show n
    else if ltb n 1000
    then "0" <> show n
    else show n

-- `_next_id`
unfoldable pub next_id : Guard → String × Guard
unfolding padded
next_id g = ("cap-" <> padded (suc g.n), record g { n = suc g.n })

-- `restart`: what it copies is all that there is.
unfoldable pub restart : Guard → Guard
restart g = record {
  policy = g.policy;
  revoked = g.revoked;
  min_epoch = g.min_epoch;
  now = g.now;
  audit = g.audit;
  n = g.n;
}

-- The grants and the expiry that `attenuate` takes where it is given none.
abbrev pub or_all : List String → Option (List String) → List String
or_all held none = held
or_all held (some grants) = grants

abbrev pub new_expiry : ℤ → ℤ → Option ℤ → ℤ
new_expiry now expiry none = expiry
new_expiry now expiry (some lease) = now +ℤ lease

module _ (h : Hashes) where
  -- `_audit`
  unfoldable pub audit : String → Fields → Guard → Guard
  audit kind fields g = record g {
    audit =
        g.audit
        ++ digest h (item (text "audit") (item (text kind) (item (object fields) done))) ∷ [];
  }

  unfoldable pub verify : Guard → Capability → Bool
  verify g c =
      seal_of h c == c.seal
      && not (contains c.cap_id g.revoked)
      && not (ltb c.epoch g.min_epoch)
      && less g.now c.expiry

  -- `verify` of a capability that may be None
  abbrev pub verify? : Guard → Option Capability → Bool
  verify? g none = false
  verify? g (some c) = verify g c

  -- The capability that `mint` makes.
  unfoldable pub minted : String → String → List String → String → String → ℤ → Guard → Capability
  unfolding sealed
  minted cap_id subject grants resource operation lease g = sealed h (record {
    cap_id = cap_id;
    subject = subject;
    grants = sorted_grants grants;
    resource = resource;
    operation = operation;
    expiry = g.now +ℤ lease;
    epoch = g.min_epoch;
    seal = "";
  })

  unfoldable pub mint : String → List String → String → String → ℤ → Guard → Outcome × Guard
  unfolding next_id audit
  mint subject grants resource operation lease g =
      let allowed = or_empty (get (or_empty (get g.policy subject)) resource) in
      let (cap_id, g') = next_id g in
      let cap = minted cap_id subject grants resource operation lease g in
      if not (subset grants allowed)
      then (
        refused "policy-denied" true,
        audit "mint-denied" (field "resource" (text resource) (field "subject" (text subject) end))
            g,
      )
      else (
        record granted { capability = some cap },
        audit "mint"
            (field "cap_id" (text cap_id)
              (field "resource" (text resource) (field "subject" (text subject) end)))
            g',
      )

  -- The capability that `attenuate` derives.
  unfoldable pub derive : Capability → String → List String → ℤ → Capability
  unfolding sealed
  derive cap cap_id grants expiry =
      sealed h
        (record cap { cap_id = cap_id; grants = sorted_grants grants; expiry = expiry; seal = "" })

  -- `attenuate` of a capability that verifies
  unfoldable pub attenuate_valid :
      Capability → Option (List String) → Option ℤ → Guard → Outcome × Guard
  unfolding next_id audit
  attenuate_valid cap grants lease g =
      let new_grants = or_all cap.grants grants in
      let expiry = new_expiry g.now cap.expiry lease in
      let (cap_id, g') = next_id g in
      let derived = derive cap cap_id new_grants expiry in
      if not (all (grant_implied cap.grants) new_grants)
      then (
        refused "permission-widened" true,
        audit "attenuate-denied" (field "reason" (text "widen") end) g,
      )
      else if less cap.expiry expiry
      then (
        refused "lease-extended" true,
        audit "attenuate-denied" (field "reason" (text "extend") end) g,
      )
      else (
        record granted { capability = some derived },
        audit "attenuate" (field "cap_id" (text cap_id) (field "parent" (text cap.cap_id) end)) g',
      )

  unfoldable pub attenuate :
      Option Capability → Option (List String) → Option ℤ → Guard → Outcome × Guard
  attenuate none grants lease g = (refused "invalid-parent" false, g)
  attenuate (some cap) grants lease g =
      if verify g cap
      then attenuate_valid cap grants lease g
      else (refused "invalid-parent" false, g)

  unfoldable pub revoke : String → Guard → Guard
  unfolding audit
  revoke cap_id g =
      audit "revoke" (field "cap_id" (text cap_id) end) (record g { revoked = cap_id ∷ g.revoked })

  unfoldable pub revoke_all : Guard → Guard
  unfolding audit
  revoke_all g =
      audit "revoke-all" (field "epoch" (number (pos (suc g.min_epoch))) end)
        (record g { min_epoch = suc g.min_epoch })

  abbrev unauthorized : SecureValue → Guard → Outcome × Guard
  unauthorized value g = (
    record (refused "unauthorized" true) { revealed = some redacted },
    audit "reveal-refused" (field "resource" (text value.resource) end) g,
  )

  -- `reveal` of a valid capability for the resource. `none` is the ValueError of a label that is
  -- not in LEVELS.
  unfoldable pub reveal_valid : Capability → SecureValue → Guard → Option Outcome × Guard
  unfolding audit
  reveal_valid cap value g = elim (level value.label) [
    | none ↦ (none, g)
    | some l ↦
        if less (read_ceiling cap.grants) (pos l)
        then (
          some (record (refused "below-clearance" true) { revealed = some redacted }),
          audit "reveal-redacted"
              (field "label" (text value.label) (field "resource" (text value.resource) end)) g,
        )
        else (
          some (record granted { revealed = some value.cleartext }),
          audit "reveal"
              (field "cap_id" (text cap.cap_id) (field "resource" (text value.resource) end)) g,
        )
  ]

  unfoldable pub reveal : Option Capability → SecureValue → Guard → Option Outcome × Guard
  unfolding reveal_valid
  reveal none value g = let (o, g') = unauthorized value g in (some o, g')
  reveal (some cap) value g =
      let (o, g') = unauthorized value g in
      if not (verify g cap) || not (cap.resource == value.resource)
      then (some o, g')
      else reveal_valid cap value g

  unfoldable pub declassify : Option Capability → SecureValue → Guard → Outcome × Guard
  unfolding audit
  declassify none value g = (refused "unauthorized" false, g)
  declassify (some cap) value g =
      if not (verify g cap) || not (cap.resource == value.resource)
      then (refused "unauthorized" false, g)
      else if not (contains "declassify" cap.grants)
      then (
        refused "no-declassify-grant" true,
        audit "declassify-refused" (field "resource" (text value.resource) end) g,
      )
      else (
        granted,
        audit "declassify"
            (field "cap_id" (text cap.cap_id) (field "resource" (text value.resource) end)) g,
      )

  -- A refusal of `invoke`
  abbrev denied : String → String → String → Guard → Outcome × Guard
  denied error tool reason g = (
    refused error true,
    audit "invoke-denied" (field "reason" (text reason) (field "tool" (text tool) end)) g,
  )

  unfoldable pub invoke : Option Capability → String → String → String → Guard → Outcome × Guard
  unfolding audit
  invoke none tool resource operation g = denied "ambient-denied" tool "no-capability" g
  invoke (some cap) tool resource operation g =
      if not (verify g cap)
      then denied "ambient-denied" tool "no-capability" g
      else if not (cap.resource == resource)
      then denied "cross-resource" tool "resource" g
      else if not (contains ("tool:" <> tool) cap.grants) || not (cap.operation == operation)
      then denied "confused-deputy" tool "confused-deputy" g
      else (
        granted,
        audit "invoke"
            (field "cap_id" (text cap.cap_id)
              (field "resource" (text resource) (field "tool" (text tool) end)))
            g,
      )
