-- ===== src/Catalog/Cases/Suite.antt =====
-- The tuple that `cases()` of docs/book/code/catalog-provenance/catalog_provenance/cases.py returns,
-- and `run_case`.
use adversarial_cognition.Prelude.{String, Bool, Option, List, [], ◌∷◌}
use adversarial_cognition.Hashes.{Hashes}
use adversarial_cognition.Catalog.State.{ReferenceCatalog}
use adversarial_cognition.Catalog.Cases.{
  seeded, commit_fresh, cas_stale_rejected, cas_concurrent, idempotent_retry,
  idempotent_across_restart, durable_audit, outbox_atomic_present, outbox_absent_on_reject,
  replay_verifies, replay_forged_rejected, governed_scan_receipt, governed_scan_mismatch_rejected,
  receipt_chain_linked, tombstone_covered, hash_only_audit, lineage_emitted, restart_reproducible,
}

pub record Case : Type 0 where
  pub case_id : String
  pub category : String
  pub capability : String
  pub description : String
  pub run : ReferenceCatalog → Option Bool
  pub gate : String

abbrev pub case :
    String → String → String → String → (ReferenceCatalog → Option Bool) → String → Case
case case_id category capability description run gate = record {
  case_id = case_id;
  category = category;
  capability = capability;
  description = description;
  run = run;
  gate = gate;
}

module _ (h : Hashes) where
  -- `run_case`
  unfoldable pub run_case : Case → Option Bool
  unfolding seeded
  run_case c = c.run (seeded h)

  abbrev pub cases : List Case
  cases =
      case "commit-fresh" "commit" "commit"
        "a fresh commit advances the pointer and yields a receipt" (commit_fresh h) ""
      ∷ case "cas-stale-rejected" "concurrency" "compare-and-swap"
          "a commit asserting stale metadata is rejected" (cas_stale_rejected h)
          "lost_update_accepted"
      ∷ case "cas-concurrent" "concurrency" "compare-and-swap"
          "two writers on one head: exactly one wins" (cas_concurrent h) "lost_update_accepted"
      ∷ case "idempotent-retry" "idempotency" "idempotent-replay"
          "a retried commit returns the stored receipt, no double-apply" (idempotent_retry h)
          "duplicate_commit_applied"
      ∷ case "idempotent-across-restart" "idempotency" "idempotent-replay"
          "idempotency survives a restart" (idempotent_across_restart h) "duplicate_commit_applied"
      ∷ case "audit-durable" "audit" "durable-audit"
          "an accepted commit yields a durable audit event" (durable_audit h) "evidence_lost"
      ∷ case "outbox-atomic-present" "outbox" "atomic-outbox"
          "an accepted commit stages an outbox event atomically" (outbox_atomic_present h)
          "evidence_lost"
      ∷ case "outbox-absent-on-reject" "outbox" "atomic-outbox"
          "a rejected commit emits no outbox event" (outbox_absent_on_reject h) "evidence_lost"
      ∷ case "replay-verifies" "proof" "replayable-proof" "the commit receipt verifies offline"
          (replay_verifies h) "forged_proof_accepted"
      ∷ case "replay-forged-rejected" "proof" "replayable-proof"
          "a tampered receipt fails verification" (replay_forged_rejected h) "forged_proof_accepted"
      ∷ case "governed-scan-receipt" "governed-read" "governed-scan-proof"
          "a scan carries a policy-bound authorization receipt" (governed_scan_receipt h)
          "unauthorized_scan_disclosed"
      ∷ case "governed-scan-mismatch-rejected" "governed-read" "governed-scan-proof"
          "a scan receipt does not verify against a different policy"
          (governed_scan_mismatch_rejected h) "unauthorized_scan_disclosed"
      ∷ case "receipt-chain-linked" "chain" "receipt-chain"
          "a commit receipt links to its predecessor" (receipt_chain_linked h) ""
      ∷ case "tombstone-covered" "tombstone" "tombstone-proof"
          "a drop is covered by a tombstone receipt" (tombstone_covered h) ""
      ∷ case "hash-only-audit" "redaction" "hash-only-evidence"
          "evidence carries digests, never raw secrets" (hash_only_audit h) "plaintext_in_evidence"
      ∷ case "lineage-emitted" "lineage" "lineage-evidence"
          "an accepted commit emits a lineage event" (lineage_emitted h) "evidence_lost"
      ∷ case "restart-reproducible" "proof" "replayable-proof"
          "the receipt still verifies after a restart" (restart_reproducible h)
          "non_deterministic_receipt"
      ∷ []
