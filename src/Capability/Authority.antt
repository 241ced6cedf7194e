-- ===== src/Capability/Authority.antt =====
-- What a capability authorizes, of docs/book/code/capability/capability_adversarial/backend.py, and
-- that a derived capability authorizes nothing that its parent does not.

use adversarial_cognition.Prelude.{
  ℕ, ◌≤◌, String, ◌<>◌, ◌≡◌, refl, true, false, ◌↔◌, ◌⊎◌, none, some, arith, eq_iff, contains,
  Bool-cases, inl, inr, Option-cases,
}
use adversarial_cognition.Prelude.Int.{pos, ◌≤ℤ◌, ◌<ℤ◌}
use adversarial_cognition.Hashes.{Hashes}
use adversarial_cognition.Capability.{Guard, verify, reveal, invoke}
use adversarial_cognition.Capability.Grants.{level, read_ceiling}
use adversarial_cognition.Capability.Sealing.{
  Capability, SecureValue, Outcome, granted, redacted, seal_of,
}

module _ (h : Hashes) where
  -- The seal is the engine's, neither the identifier nor the epoch is revoked, and the lease runs.
  pub record IsValid (g : Guard) (c : Capability) : Type 0 where
    pub sealed : c.seal ≡ seal_of h c
    pub kept : contains c.cap_id g.revoked ≡ false
    pub epoch : g.min_epoch ≤ c.epoch
    pub leased : g.now <ℤ c.expiry

  pub verify→IsValid : (g : Guard) (c : Capability) → verify h g c ≡ true → IsValid g c
  unfolding verify
  verify→IsValid g c e = record {
    sealed = ground (arith, eq_iff (seal_of h c) c.seal);
    kept = ground arith;
    epoch = ground arith;
    leased = ground arith;
  }

  pub IsValid→verify : (g : Guard) (c : Capability) → IsValid g c → verify h g c ≡ true
  unfolding verify
  IsValid→verify g c v = ground (arith, eq_iff (seal_of h c) c.seal)

  -- What is revealed where a reveal is granted.
  abbrev pub disclosed : SecureValue → Outcome
  disclosed value = record granted { revealed = some value.cleartext }

  -- The capability may reveal the value.
  pub record MayReveal (g : Guard) (c : Capability) (value : SecureValue) : Type 0 where
    pub valid : IsValid g c
    pub resource : c.resource ≡ value.resource
    pub cleared : (l : ℕ) × (level value.label ≡ some l) × (pos l ≤ℤ read_ceiling c.grants)

  -- The capability may drive the tool on the resource in the operation.
  pub record MayInvoke (g : Guard) (c : Capability) (tool resource operation : String)
      : Type 0 where
    pub valid : IsValid g c
    pub bound : c.resource ≡ resource
    pub purpose : c.operation ≡ operation
    pub held : contains ("tool:" <> tool) c.grants ≡ true

  reveals→MayReveal :
      (g : Guard) (c : Capability) (value : SecureValue)
      → (reveal h (some c) value g).0 ≡ some (disclosed value)
      → MayReveal g c value
  unfolding reveal
  reveals→MayReveal g c value e = elim (Option-cases (level value.label)) [
    | inl unknown ↦ absurd (ground arith)
    | inr (l, known) ↦ record {
      valid = verify→IsValid g c (ground arith);
      resource = ground (arith, eq_iff c.resource value.resource);
      cleared = (l, known, ground arith);
    }
  ]

  MayReveal→reveals :
      (g : Guard) (c : Capability) (value : SecureValue)
      → MayReveal g c value
      → (reveal h (some c) value g).0 ≡ some (disclosed value)
  unfolding reveal
  MayReveal→reveals g c value may =
      let (l, known, cleared) = may.cleared in
      let valid = IsValid→verify g c may.valid in ground (arith, eq_iff c.resource value.resource)

  reveal_cases :
      (g : Guard) (c : Capability) (value : SecureValue) (o : Outcome)
      → (reveal h (some c) value g).0 ≡ some o
      → (o ≡ disclosed value) ⊎ ((o.ok ≡ false) × (o.revealed ≡ some redacted))
  unfolding reveal
  reveal_cases g c value o e = elim (Bool-cases o.ok) [
    | inl ok ↦ elim (Option-cases (level value.label)) [
      | inl unknown ↦ absurd (ground arith)
      | inr (l, known) ↦ inl (ground arith)
    ]
    | inr refused ↦ elim (Option-cases (level value.label)) [
      | inl unknown ↦ inr (refused, ground arith)
      | inr (l, known) ↦ inr (refused, ground arith)
    ]
  ]

  -- The cleartext of a value is disclosed exactly to a valid capability for its resource whose read
  -- grants reach its label; a reveal that is not granted shows the placeholder, and one that raises
  -- shows nothing.
  pub reveal_exact :
      (g : Guard) (c : Capability) (value : SecureValue)
      → (((reveal h (some c) value g).0 ≡ some (disclosed value)) ↔ MayReveal g c value)
        × ((o : Outcome)
            → (reveal h (some c) value g).0 ≡ some o
            → (o ≡ disclosed value) ⊎ ((o.ok ≡ false) × (o.revealed ≡ some redacted)))
  reveal_exact g c value = (
    (reveals→MayReveal g c value, MayReveal→reveals g c value),
    λ o e. reveal_cases g c value o e,
  )

  invokes→MayInvoke :
      (g : Guard) (c : Capability) (tool resource operation : String)
      → (invoke h (some c) tool resource operation g).0.ok ≡ true
      → MayInvoke g c tool resource operation
  unfolding invoke
  invokes→MayInvoke g c tool resource operation e = record {
    valid = verify→IsValid g c (ground arith);
    bound = ground (arith, eq_iff c.resource resource);
    purpose = ground (arith, eq_iff c.operation operation);
    held = ground arith;
  }

  MayInvoke→invokes :
      (g : Guard) (c : Capability) (tool resource operation : String)
      → MayInvoke g c tool resource operation
      → (invoke h (some c) tool resource operation g).0.ok ≡ true
  unfolding invoke
  MayInvoke→invokes g c tool resource operation may =
      let valid = IsValid→verify g c may.valid in
      ground (arith, eq_iff c.resource resource, eq_iff c.operation operation)

  -- A tool call runs exactly on a valid capability for the resource and the operation that has the
  -- tool's grant; with no capability it is refused.
  pub invoke_exact :
      (g : Guard) (tool resource operation : String)
      → ((c : Capability)
          → ((invoke h (some c) tool resource operation g).0.ok ≡ true)
            ↔ MayInvoke g c tool resource operation)
        × ((invoke h none tool resource operation g).0.ok ≡ false)
  unfolding invoke
  invoke_exact g tool resource operation = (
    λ c. (
      invokes→MayInvoke g c tool resource operation,
      MayInvoke→invokes g c tool resource operation,
    ),
    refl,
  )
