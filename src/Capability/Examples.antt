-- ===== src/Capability/Examples.antt =====
-- The theorems on the guard at a small policy: `_seeded` of
-- docs/book/code/capability/capability_adversarial/cases.py, in part.
use adversarial_cognition.Prelude.{
  ◌≤◌, String, ◌≡◌, ◌≢◌, refl, true, false, ◌&&◌, Option, none, some, List, [], ◌∷◌, arith, ◌==◌,
  eq_iff, get, put, show,
}
use adversarial_cognition.Prelude.Sorting
use adversarial_cognition.Prelude.Int.{ℤ, pos, ◌+ℤ◌}
use adversarial_cognition.Hashes.{plain}
use adversarial_cognition.Json.{dumps, dumps_items, dumps_fields}
use adversarial_cognition.Capability.{
  Guard, empty, grant_policy, verify, verify?, mint, attenuate, attenuate_valid, reveal,
  reveal_valid, declassify, invoke, revoke, revoke_all, next_id, derive, minted,
}
use adversarial_cognition.Capability.Grants.{
  level, read_level, read_ceiling, grant_implied, sorted_grants,
}
use adversarial_cognition.Capability.Sealing.{
  Capability, SecureValue, Outcome, seal_of, body, sealed,
}
use adversarial_cognition.Capability.Wire.{Request}
use adversarial_cognition.Capability.Cases
use adversarial_cognition.Capability.Cases.{forge, op, r2}
use adversarial_cognition.Capability.Authority.{disclosed}
use adversarial_cognition.Capability.Escalation.{attenuate_no_escalation}
use adversarial_cognition.Capability.Histories.{Call, run}
use adversarial_cognition.Capability.Revocation.{revocation_final}
use adversarial_cognition.Capability.Auditing.{Logged, decisions-Logged}

engine : Unit {0}
unfolding grant_policy verify mint attenuate attenuate_valid reveal reveal_valid declassify invoke
    revoke revoke_all next_id derive minted level read_level read_ceiling grant_implied
    sorted_grants seal_of Sorting.sort show get put dumps dumps_items dumps_fields run ◌+ℤ◌
engine = tt

abbrev seeded : Guard
seeded =
    grant_policy "did:key:operator" "customer/2"
      ("read:sensitive" ∷ "write" ∷ "declassify" ∷ "tool:search" ∷ []) empty

abbrev operator_mint : Outcome × Guard
operator_mint =
    mint plain "did:key:operator" ("tool:search" ∷ "read:sensitive" ∷ []) "customer/2" "job-a"
      (pos 100) seeded

-- The capability of that mint.
abbrev parent : Capability
parent =
    minted plain "cap-0001" "did:key:operator" ("tool:search" ∷ "read:sensitive" ∷ []) "customer/2"
      "job-a" (pos 100) seeded

minted_parent : operator_mint.0.capability ≡ some parent
unfolding engine
minted_parent = refl

-- What `attenuate` derives from it.
abbrev child : Capability
child = derive plain parent "cap-0002" ("read:internal" ∷ []) (pos 10)

abbrev derivation : Outcome × Guard
derivation =
    attenuate plain (some parent) (some ("read:internal" ∷ [])) (some (pos 10)) operator_mint.1

derived_child : derivation.0.capability ≡ some child
unfolding engine
derived_child = refl

attenuate_no_escalation_example :
    ((value : SecureValue)
      → (reveal plain (some child) value derivation.1).0 ≡ some (disclosed plain value)
      → (reveal plain (some parent) value derivation.1).0 ≡ some (disclosed plain value))
    × ((value : SecureValue)
        → (declassify plain (some child) value derivation.1).0.ok ≡ true
        → (declassify plain (some parent) value derivation.1).0.ok ≡ true)
    × ((tool resource operation : String)
        → (invoke plain (some child) tool resource operation derivation.1).0.ok ≡ true
        → (invoke plain (some parent) tool resource operation derivation.1).0.ok ≡ true)
attenuate_no_escalation_example =
    attenuate_no_escalation plain parent (some ("read:internal" ∷ [])) (some (pos 10))
      operator_mint.1 derivation.1 child derived_child (unfold engine in refl)

abbrev secret : SecureValue
secret = record { label = "sensitive"; cleartext = "top-secret"; resource = "customer/2" }

parent_runs : (invoke plain (some parent) "search" "customer/2" "job-a" operator_mint.1).0.ok ≡ true
unfolding engine
parent_runs = refl

revocation_final_example :
    (verify plain
        (run plain (Call.restart ∷ []) (revoke plain parent.cap_id operator_mint.1))
        parent
      ≡ false)
    × (parent.epoch ≤ operator_mint.1.min_epoch
        → verify plain (run plain (Call.restart ∷ []) (revoke_all plain operator_mint.1)) parent
          ≡ false)
revocation_final_example = revocation_final plain parent operator_mint.1 (Call.restart ∷ [])

abbrev late : Guard
late = record operator_mint.1 { now = pos 100 }

decisions-Logged_example :
    ((subject : String) (grants : List String) (resource operation : String) (lease : ℤ)
      → Logged
          (mint plain subject grants resource operation lease seeded).0
          seeded
          (mint plain subject grants resource operation lease seeded).1
        × ((mint plain subject grants resource operation lease seeded).0.audit_present ≡ true))
    × ((held : Option Capability) (value : SecureValue) (o : Outcome)
        → (reveal plain held value seeded).0 ≡ some o
        → Logged o seeded (reveal plain held value seeded).1 × (o.audit_present ≡ true))
    × ((held : Option Capability) (tool resource operation : String)
        → Logged
            (invoke plain held tool resource operation seeded).0
            seeded
            (invoke plain held tool resource operation seeded).1
          × ((invoke plain held tool resource operation seeded).0.audit_present ≡ true))
    × ((held : Option Capability) (grants : Option (List String)) (lease : Option ℤ)
        → Logged
            (attenuate plain held grants lease seeded).0
            seeded
            (attenuate plain held grants lease seeded).1
          × ((attenuate plain held grants lease seeded).0.audit_present
              ≡ verify? plain seeded held))
    × ((cap : Capability) (value : SecureValue)
        → Logged
            (declassify plain (some cap) value seeded).0
            seeded
            (declassify plain (some cap) value seeded).1
          × ((declassify plain (some cap) value seeded).0.audit_present
              ≡ (verify plain seeded cap && cap.resource == value.resource)))
decisions-Logged_example = decisions-Logged plain seeded

-- A request that also carries a policy.
abbrev smuggling : Request
smuggling = record {
  subject = some "did:key:outsider";
  grants = some ("write" ∷ []);
  resource = some "customer/2";
  operation = none;
  lease = none;
  extra = "policy" ∷ [];
}

abbrev genuine : Capability
genuine = minted plain "cap-0001" op ("read:sensitive" ∷ []) r2 "job-a" (pos 100) Cases.seeded

seals_differ : seal_of plain (forge genuine) ≢ seal_of plain genuine
unfolding engine Cases.seeded body sealed
seals_differ =
    λ e. ground (arith, (eq_iff (seal_of plain (forge genuine)) (seal_of plain genuine)).1 e)
