-- ===== src/Capability/Cases.antt =====
-- docs/book/code/capability/capability_adversarial/cases.py: the cases of the capability benchmark as
-- functions of the guard. `none` is an exception: a failed assertion, or an attribute of None.
pub mod Suite
pub mod Passing
use adversarial_cognition.Prelude.{
  ℕ, ◌+◌, String, Bool, true, false, not, ◌&&◌, Option, none, some, List, [], ◌∷◌, ◌==◌, eqb,
  if◌then◌else◌, subset, length,
}
use adversarial_cognition.Prelude.Int.{ℤ, pos, less}
use adversarial_cognition.Hashes.{Hashes}
use adversarial_cognition.Capability.{
  Guard, empty, grant_policy, verify, verify?, mint, attenuate, revoke, revoke_all, tick, reveal,
  declassify, invoke,
}
use adversarial_cognition.Capability.Sealing.{Capability, SecureValue, Outcome, redacted}
use adversarial_cognition.Capability.Wire.{request}

abbrev pub op : String
op = "did:key:operator"

abbrev pub r2 : String
r2 = "customer/2"

abbrev pub r1 : String
r1 = "customer/1"

-- `_seeded`
unfoldable pub seeded : Guard
seeded = grant_policy "did:key:analyst" r2 ("read:internal" ∷ []) (
    grant_policy op r2
      ("read:sensitive" ∷ "read:internal" ∷ "read:public" ∷ "write" ∷ "declassify" ∷ "tool:search"
        ∷ [])
      empty)

abbrev value : String → String → String → SecureValue
value label cleartext resource = record {
  label = label;
  cleartext = cleartext;
  resource = resource;
}

-- out.capability is None
abbrev is_none : Option Capability → Bool
is_none none = true
is_none (some _) = false

-- out.revealed == text
abbrev shows : Outcome → String → Bool
shows o text = elim o.revealed [ none ↦ false | some shown ↦ shown == text ]

-- Goes on with the outcome of a reveal.
abbrev and_then : Option Outcome × Guard → (Outcome → Guard → Option Bool) → Option Bool
and_then (none, g) next = none
and_then (some o, g) next = next o g

-- The forgery of `forged_capability_rejected`: other grants under the old seal
abbrev pub forge : Capability → Capability
forge cap = record cap { grants = "read:sensitive" ∷ "write" ∷ "tool:search" ∷ [] }

module _ (h : Hashes) where
  -- `_mint_ok` for the operator on customer/2
  unfoldable pub mint_ok :
      List String → String → ℤ → Guard → (Capability → Guard → Option Bool) → Option Bool
  mint_ok grants operation lease g next =
      let (out, g') = mint h op grants r2 operation lease g in
      elim out.capability [ none ↦ none | some cap ↦ if out.ok then next cap g' else none ]

  unfoldable pub mint_authorized : Guard → Option Bool
  mint_authorized g =
      let (out, g') = mint h op ("read:sensitive" ∷ []) r2 "job-a" (pos 100) g in
      some (
        out.ok
        && verify? h g' out.capability
        && out.audit_present
        && eqb (length g'.audit) (length g.audit + 1))

  unfoldable pub mint_denied_by_policy : Guard → Option Bool
  mint_denied_by_policy g =
      let out = (mint h "did:key:analyst" ("write" ∷ []) r2 "job-a" (pos 100) g).0 in
      some (not out.ok && is_none out.capability && out.error == "policy-denied")

  unfoldable pub forged_capability_rejected : Guard → Option Bool
  unfolding mint_ok
  forged_capability_rejected g = mint_ok ("read:sensitive" ∷ []) "job-a" (pos 100) g (λ cap g'.
      some (
        not (verify h g' (forge cap))
        && not ((invoke h (some (forge cap)) "search" r2 "job-a" g').0.ok)))

  unfoldable pub attenuate_narrows : Guard → Option Bool
  unfolding mint_ok
  attenuate_narrows g =
      mint_ok ("read:sensitive" ∷ "write" ∷ "tool:search" ∷ []) "job-a" (pos 100) g (λ cap g'.
        let (out, g'') = attenuate h (some cap) (some ("read:internal" ∷ [])) (some (pos 10)) g' in
        elim out.capability [
          | none ↦ some false
          | some d ↦ some (
              out.ok
              && verify h g'' d
              && (subset d.grants ("read:internal" ∷ []) && subset ("read:internal" ∷ []) d.grants)
              && not (less cap.expiry d.expiry))
        ])

  unfoldable pub widen_permission_rejected : Guard → Option Bool
  unfolding mint_ok
  widen_permission_rejected g = mint_ok ("read:internal" ∷ []) "job-a" (pos 100) g (λ cap g'.
      let out = (attenuate h (some cap) (some ("read:internal" ∷ "write" ∷ [])) none g').0 in
      some (not out.ok && is_none out.capability && out.error == "permission-widened"))

  unfoldable pub extend_lease_rejected : Guard → Option Bool
  unfolding mint_ok
  extend_lease_rejected g = mint_ok ("read:internal" ∷ []) "job-a" (pos 10) g (λ cap g'.
      let out = (attenuate h (some cap) none (some (pos 1000)) g').0 in
      some (not out.ok && is_none out.capability && out.error == "lease-extended"))

  unfoldable pub resource_instance_bound : Guard → Option Bool
  unfolding mint_ok
  resource_instance_bound g = mint_ok ("read:internal" ∷ []) "job-a" (pos 100) g (λ cap g'.
      and_then (reveal h (some cap) (value "internal" "the-secret" r2) g')
        (λ out _. some (out.ok && shows out "the-secret")))

  unfoldable pub cross_resource_rejected : Guard → Option Bool
  unfolding mint_ok
  cross_resource_rejected g = mint_ok ("read:internal" ∷ []) "job-a" (pos 100) g (λ cap g'.
      and_then (reveal h (some cap) (value "internal" "other-customer-secret" r1) g')
        (λ out _. some (not out.ok && shows out redacted)))

  -- A reveal, a change of the guard, and the same reveal again
  abbrev around :
      (Capability → Guard → Guard) → Capability → Guard → (Outcome → Outcome → Bool) → Option Bool
  around change cap g score =
      and_then (reveal h (some cap) (value "internal" "s" r2) g) (λ before g1.
        and_then (reveal h (some cap) (value "internal" "s" r2) (change cap g1))
          (λ after _. some (score before after)))

  unfoldable pub revoke_by_id : Guard → Option Bool
  unfolding mint_ok
  revoke_by_id g = mint_ok ("read:internal" ∷ []) "job-a" (pos 100) g (λ cap g'.
      around (λ c. revoke h c.cap_id) cap g'
        (λ before after. before.ok && not after.ok && shows after redacted))

  unfoldable pub revoke_all_epoch : Guard → Option Bool
  unfolding mint_ok
  revoke_all_epoch g =
      mint_ok ("read:internal" ∷ []) "job-a" (pos 1000) g
        (λ cap g'. around (λ _. revoke_all h) cap g' (λ before after. before.ok && not after.ok))

  unfoldable pub lease_expiry_enforced : Guard → Option Bool
  unfolding mint_ok
  lease_expiry_enforced g =
      mint_ok ("read:internal" ∷ []) "job-a" (pos 5) g
        (λ cap g'. around (λ _. tick (pos 5)) cap g' (λ before after. before.ok && not after.ok))

  unfoldable pub reveal_authorized : Guard → Option Bool
  unfolding mint_ok
  reveal_authorized g = mint_ok ("read:sensitive" ∷ []) "job-a" (pos 100) g (λ cap g'.
      and_then (reveal h (some cap) (value "sensitive" "top-secret" r2) g')
        (λ out _. some (out.ok && shows out "top-secret")))

  unfoldable pub reveal_below_clearance_redacted : Guard → Option Bool
  unfolding mint_ok
  reveal_below_clearance_redacted g = mint_ok ("read:internal" ∷ []) "job-a" (pos 100) g (λ cap g'.
      and_then (reveal h (some cap) (value "sensitive" "top-secret" r2) g')
        (λ out _. some (not out.ok && shows out redacted && out.error == "below-clearance")))

  unfoldable pub declassify_requires_grant : Guard → Option Bool
  unfolding mint_ok
  declassify_requires_grant g = mint_ok ("read:sensitive" ∷ []) "job-a" (pos 100) g (λ cap g'.
      let out = (declassify h (some cap) (value "sensitive" "top-secret" r2) g').0 in
      some (not out.ok && out.error == "no-declassify-grant"))

  unfoldable pub ambient_tool_call_denied : Guard → Option Bool
  ambient_tool_call_denied g =
      let out = (invoke h none "search" r2 "job-a" g).0 in
      some (not out.ok && out.error == "ambient-denied")

  unfoldable pub confused_deputy_rejected : Guard → Option Bool
  unfolding mint_ok
  confused_deputy_rejected g = mint_ok ("tool:search" ∷ []) "job-a" (pos 100) g (λ cap g'.
      let out = (invoke h (some cap) "delete" r2 "job-b" g').0 in
      some (not out.ok && out.error == "confused-deputy"))

  unfoldable pub audit_on_every_decision : Guard → Option Bool
  audit_on_every_decision g =
      let g1 = (mint h op ("read:internal" ∷ []) r2 "job-a" (pos 100) g).1 in
      let g2 = (mint h "did:key:analyst" ("write" ∷ []) r2 "job-a" (pos 100) g1).1 in
      some (eqb (length g2.audit) (length g.audit + 2))

  unfoldable pub wire_injected_field_rejected : Guard → Option Bool
  wire_injected_field_rejected g =
      and_then
        (request h
          (record {
            subject = some op;
            grants = some ("read:internal" ∷ []);
            resource = some r2;
            operation = some "job-a";
            lease = some (pos 100);
            extra = "shadow_grant" ∷ [];
          })
          g)
        (λ out _. some (not out.ok && out.error == "unknown-fields"))
