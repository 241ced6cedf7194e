-- ===== src/Capability/Cases/Passing.antt =====
-- The guard passes the suite of docs/book/code/capability/capability_adversarial/cases.py.
use adversarial_cognition.Prelude.{
  ◌≡◌, ◌≢◌, refl, true, some, List, [], ◌∷◌, eq_refl, get, put, show,
}
use adversarial_cognition.Prelude.Sorting
use adversarial_cognition.Prelude.Int.{pos, ◌+ℤ◌}
use adversarial_cognition.Hashes.{Hashes}
use adversarial_cognition.Capability.{
  grant_policy, verify, mint, minted, attenuate, attenuate_valid, derive, reveal, reveal_valid,
  declassify, invoke, revoke, revoke_all, next_id, tick, audit, padded,
}
use adversarial_cognition.Capability.Grants.{
  level, read_level, read_ceiling, grant_implied, sorted_grants,
}
use adversarial_cognition.Capability.Sealing.{seal_of, sealed, body}
use adversarial_cognition.Capability.Wire.{request}
use adversarial_cognition.Capability.Cases
use adversarial_cognition.Capability.Cases.{seeded, forge, op, r2}
use adversarial_cognition.Capability.Cases.Suite.{Case, cases, run_case}
use adversarial_cognition.Cases.Passing.{ne→false, ◌also◌}

-- Every case of a suite is passed.
abbrev pub Passes : List Case → Type 0
Passes [] = Unit
Passes (c ∷ cs) = (run_case c ≡ some true) × Passes cs

-- What the model of the guard computes with.
engine : Unit {0}
unfolding get put show Sorting.sort ◌+ℤ◌ grant_policy verify mint minted attenuate attenuate_valid
    derive reveal reveal_valid declassify invoke revoke revoke_all next_id tick audit padded level
    read_level read_ceiling grant_implied sorted_grants seal_of sealed body request run_case seeded
    Cases.mint_ok
engine = tt

module _ (h : Hashes) where
  -- Whatever the digests, as long as the seal of the forged capability is not that of the genuine
  -- one: the guard, seeded anew for each case, passes every case of the capability benchmark.
  pub reference-Passes_guard :
      seal_of h (forge (minted h "cap-0001" op ("read:sensitive" ∷ []) r2 "job-a" (pos 100) seeded))
        ≢ seal_of h (minted h "cap-0001" op ("read:sensitive" ∷ []) r2 "job-a" (pos 100) seeded)
      → Passes (cases h)
  unfolding engine Cases.mint_authorized Cases.mint_denied_by_policy
      Cases.forged_capability_rejected Cases.attenuate_narrows Cases.widen_permission_rejected
      Cases.extend_lease_rejected Cases.resource_instance_bound Cases.cross_resource_rejected
      Cases.revoke_by_id Cases.revoke_all_epoch Cases.lease_expiry_enforced Cases.reveal_authorized
      Cases.reveal_below_clearance_redacted Cases.declassify_requires_grant
      Cases.ambient_tool_call_denied Cases.confused_deputy_rejected Cases.audit_on_every_decision
      Cases.wire_injected_field_rejected
  reference-Passes_guard unforged =
      (rw eq_refl)
      also refl
      also (rw (run_case, Cases.forged_capability_rejected, ne→false _ _ unforged))
      also (rw (run_case, Cases.attenuate_narrows, eq_refl, eq_refl, eq_refl))
      also (rw (run_case, Cases.widen_permission_rejected, eq_refl))
      also (rw (run_case, Cases.extend_lease_rejected, eq_refl))
      also (rw (run_case, Cases.resource_instance_bound, eq_refl))
      also (rw (run_case, Cases.cross_resource_rejected, eq_refl))
      also (rw (run_case, Cases.revoke_by_id, eq_refl))
      also (rw (run_case, Cases.revoke_all_epoch, eq_refl))
      also (rw (run_case, Cases.lease_expiry_enforced, eq_refl))
      also (rw (run_case, Cases.reveal_authorized, eq_refl))
      also (rw (run_case, Cases.reveal_below_clearance_redacted, eq_refl))
      also (rw (run_case, Cases.declassify_requires_grant, eq_refl))
      also refl
      also (rw (run_case, Cases.confused_deputy_rejected, eq_refl))
      also refl
      also refl
      also tt
