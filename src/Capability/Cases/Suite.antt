-- ===== src/Capability/Cases/Suite.antt =====
-- The tuple that `cases()` of docs/book/code/capability/capability_adversarial/cases.py returns, and
-- `run_case`.
use adversarial_cognition.Prelude.{String, Bool, Option, List, [], ◌∷◌}
use adversarial_cognition.Hashes.{Hashes}
use adversarial_cognition.Capability.{Guard}
use adversarial_cognition.Capability.Cases.{
  seeded, mint_authorized, mint_denied_by_policy, forged_capability_rejected, attenuate_narrows,
  widen_permission_rejected, extend_lease_rejected, resource_instance_bound,
  cross_resource_rejected, revoke_by_id, revoke_all_epoch, lease_expiry_enforced, reveal_authorized,
  reveal_below_clearance_redacted, declassify_requires_grant, ambient_tool_call_denied,
  confused_deputy_rejected, audit_on_every_decision, wire_injected_field_rejected,
}

pub record Case : Type 0 where
  pub case_id : String
  pub category : String
  pub capability : String
  pub description : String
  pub run : Guard → Option Bool
  pub gate : String

abbrev pub case : String → String → String → String → (Guard → Option Bool) → String → Case
case case_id category capability description run gate = record {
  case_id = case_id;
  category = category;
  capability = capability;
  description = description;
  run = run;
  gate = gate;
}

-- `run_case`
unfoldable pub run_case : Case → Option Bool
run_case c = c.run seeded

module _ (h : Hashes) where
  abbrev pub cases : List Case
  cases =
      case "mint-authorized" "mint" "mint-capability"
        "an authorized subject mints a capability, with audit" (mint_authorized h) ""
      ∷ case "mint-denied-by-policy" "mint" "mint-capability"
          "a policy-denied mint yields no capability" (mint_denied_by_policy h) "unauthorized_mint"
      ∷ case "forged-capability-rejected" "mint" "mint-capability"
          "a capability with a tampered seal is refused" (forged_capability_rejected h)
          "forged_capability_accepted"
      ∷ case "attenuate-narrows" "attenuation" "attenuation-monotonic"
          "attenuation drops grants and shortens the lease" (attenuate_narrows h) ""
      ∷ case "widen-permission-rejected" "attenuation" "attenuation-monotonic"
          "attenuation cannot widen a permission" (widen_permission_rejected h) "permission_widened"
      ∷ case "extend-lease-rejected" "attenuation" "attenuation-monotonic"
          "attenuation cannot extend a lease" (extend_lease_rejected h) "lease_extended"
      ∷ case "resource-instance-bound" "binding" "resource-instance-binding"
          "a capability reveals its bound resource instance" (resource_instance_bound h) ""
      ∷ case "cross-resource-rejected" "binding" "resource-instance-binding"
          "a capability for one instance cannot act on another" (cross_resource_rejected h)
          "cross_resource_reveal"
      ∷ case "revoke-by-id" "revocation" "revocation" "a capability revoked by id stops authorizing"
          (revoke_by_id h) "revoked_capability_honored"
      ∷ case "revoke-all-epoch" "revocation" "revocation"
          "revoke_all invalidates outstanding capabilities mid-lease" (revoke_all_epoch h)
          "revoked_capability_honored"
      ∷ case "lease-expiry-enforced" "expiry" "lease-expiry"
          "a capability past its lease is inactive" (lease_expiry_enforced h)
          "revoked_capability_honored"
      ∷ case "reveal-authorized" "reveal" "reveal-gating"
          "a matching read capability reveals the cleartext" (reveal_authorized h) ""
      ∷ case "reveal-below-clearance-redacted" "reveal" "reveal-gating"
          "a read below clearance is redacted, not disclosed" (reveal_below_clearance_redacted h)
          "label_leaked"
      ∷ case "declassify-requires-grant" "declassify" "declassify-gating"
          "lowering a label needs an explicit declassify grant" (declassify_requires_grant h)
          "label_leaked"
      ∷ case "ambient-tool-call-denied" "tool" "deny-by-default-tool"
          "a tool-call with no capability is refused" (ambient_tool_call_denied h)
          "ambient_tool_call_executed"
      ∷ case "confused-deputy-rejected" "tool" "confused-deputy-resistance"
          "authority for one operation cannot drive another" (confused_deputy_rejected h)
          "confused_deputy_exploited"
      ∷ case "audit-on-every-decision" "audit" "audit-on-decision"
          "both allow and deny leave a durable audit event" (audit_on_every_decision h) ""
      ∷ case "wire-injected-field-rejected" "wire" "wire-integrity"
          "a request with a smuggled field is refused" (wire_injected_field_rejected h)
          "injected_field_accepted"
      ∷ []
