-- ===== src/Capability/Escalation.antt =====
-- A derived capability of docs/book/code/capability/capability_adversarial/backend.py authorizes
-- nothing that its parent does not.

use adversarial_cognition.Prelude.{
  String, ◌<>◌, ◌≡◌, refl, sym, ◌∙◌, true, false, Option, none, some, List, arith, eq_iff, contains,
}
use adversarial_cognition.Prelude.Int.{ℤ}
use adversarial_cognition.Prelude.TextOrder.{differ_before_append}
use adversarial_cognition.Hashes.{Hashes}
use adversarial_cognition.Capability.{Guard, attenuate, reveal, declassify, invoke}
use adversarial_cognition.Capability.Grants.{read_level, grant_implied}
use adversarial_cognition.Capability.Sealing.{Capability, SecureValue, seal_of}
use adversarial_cognition.Capability.Narrowing.{Narrower, attenuate-Narrower}
use adversarial_cognition.Capability.Authority.{
  IsValid, verify→IsValid, IsValid→verify, disclosed, MayReveal, MayInvoke, reveal_exact,
  invoke_exact,
}

-- A tool's grant is no read grant.
read_level-tool : (tool : String) → read_level ("tool:" <> tool) ≡ none
unfolding read_level
read_level-tool tool = rw (
  differ_before_append "t" "r" "ool:" "ead:public" tool (omega arith),
  differ_before_append "t" "r" "ool:" "ead:internal" tool (omega arith),
  differ_before_append "t" "r" "ool:" "ead:sensitive" tool (omega arith),
)

-- A grant that is no read grant is implied only by itself.
held_of_implied :
    (held : List String) (g : String)
    → read_level g ≡ none
    → grant_implied held g ≡ true
    → contains g held ≡ true
unfolding grant_implied
held_of_implied held g e h = rw e at h

module _ (h : Hashes) {d c : Capability} (narrow : Narrower d c) (seal : c.seal ≡ seal_of h c) where
  Narrower-IsValid :
      (g : Guard) → contains c.cap_id g.revoked ≡ false → IsValid h g d → IsValid h g c
  Narrower-IsValid g kept v = record {
    sealed = seal;
    kept = kept;
    epoch = rw (← narrow.epoch) v.epoch;
    leased = omega (arith, narrow.expiry, v.leased);
  }

  Narrower-MayReveal :
      (g : Guard) (value : SecureValue)
      → contains c.cap_id g.revoked ≡ false
      → MayReveal h g d value
      → MayReveal h g c value
  Narrower-MayReveal g value kept may =
      let (l, known, cleared) = may.cleared in
      record {
        valid = Narrower-IsValid g kept may.valid;
        resource = sym narrow.resource ∙ may.resource;
        cleared = (l, known, omega (arith, narrow.ceiling, cleared));
      }

  Narrower-MayInvoke :
      (g : Guard) (tool resource operation : String)
      → contains c.cap_id g.revoked ≡ false
      → MayInvoke h g d tool resource operation
      → MayInvoke h g c tool resource operation
  Narrower-MayInvoke g tool resource operation kept may = record {
    valid = Narrower-IsValid g kept may.valid;
    bound = sym narrow.resource ∙ may.bound;
    purpose = sym narrow.operation ∙ may.purpose;
    held =
        held_of_implied c.grants ("tool:" <> tool) (read_level-tool tool)
          (narrow.implied ("tool:" <> tool) may.held);
  }

  Narrower-declassifies :
      (g : Guard) (value : SecureValue)
      → contains c.cap_id g.revoked ≡ false
      → (declassify h (some d) value g).0.ok ≡ true
      → (declassify h (some c) value g).0.ok ≡ true
  unfolding declassify
  Narrower-declassifies g value kept e =
      let valid =
        IsValid→verify h g c (Narrower-IsValid g kept (verify→IsValid h g d (ground arith))) in
      let held =
        held_of_implied c.grants "declassify" (unfold read_level in refl)
          (narrow.implied "declassify" (ground arith)) in
      ground
        (arith, narrow.resource, eq_iff c.resource value.resource, eq_iff d.resource value.resource)

-- Whatever guard a derived capability is later presented to, as long as its parent's identifier is
-- not revoked there: what it reveals, the parent reveals; what it declassifies, the parent
-- declassifies; and a tool call that runs on it runs on the parent.
pub attenuate_no_escalation :
    (h : Hashes) (cap : Capability) (grants : Option (List String)) (lease : Option ℤ)
    (g g' : Guard) (d : Capability)
    → (attenuate h (some cap) grants lease g).0.capability ≡ some d
    → contains cap.cap_id g'.revoked ≡ false
    → ((value : SecureValue)
        → (reveal h (some d) value g').0 ≡ some (disclosed h value)
        → (reveal h (some cap) value g').0 ≡ some (disclosed h value))
      × ((value : SecureValue)
          → (declassify h (some d) value g').0.ok ≡ true
          → (declassify h (some cap) value g').0.ok ≡ true)
      × ((tool resource operation : String)
          → (invoke h (some d) tool resource operation g').0.ok ≡ true
          → (invoke h (some cap) tool resource operation g').0.ok ≡ true)
attenuate_no_escalation h cap grants lease g g' d e kept =
    let (valid, narrow) = attenuate-Narrower h cap grants lease g d e in
    let seal = (verify→IsValid h g cap valid).sealed in
    (
      λ value r.
          (reveal_exact h g' cap value).0.1
            (Narrower-MayReveal h narrow seal g' value kept ((reveal_exact h g' d value).0.0 r)),
      λ value r. Narrower-declassifies h narrow seal g' value kept r,
      λ tool resource operation r. ((invoke_exact h g' tool resource operation).0 cap).1 (
          Narrower-MayInvoke h narrow seal g' tool resource operation kept
            (((invoke_exact h g' tool resource operation).0 d).0 r)),
    )
