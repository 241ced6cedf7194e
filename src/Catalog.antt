-- ===== src/Catalog.antt =====
-- docs/book/code/catalog-provenance/catalog_provenance/backend.py: the reference catalog. A method
-- returns its outcome and the catalog afterwards; an entry that the code changes in place is put
-- back under its table.
pub mod Receipts
pub mod State
pub mod Committing
pub mod Histories
pub mod Durable
pub mod Dropping
pub mod Evidence
pub mod Cases
mod Examples
use adversarial_cognition.Prelude.{
  ℕ, suc, String, ◌<>◌, Bool, true, false, not, ◌&&◌, ◌||◌, Option, none, some, List, [], ◌∷◌, ◌++◌,
  ltb, if◌then◌else◌, ◌==◌, Dict, get, put, len_text,
}
use adversarial_cognition.Prelude.Int.{pos}
use adversarial_cognition.Hashes.{Hashes}
use adversarial_cognition.Json.{Items, item, done, text, number}
use State.{
  Outcome, failed, succeeded, Table, ReferenceCatalog, bad_text, live, stored_outcome,
  store_outcome, recorded,
}
use Receipts.{Receipt, ScanReceipt, digest, policy_digest, sealed, sealed_scan, verifies}

module _ (h : Hashes) where
  unfoldable pub create : String → String → ReferenceCatalog → Outcome × ReferenceCatalog
  create table principal c = (
    succeeded,
    record c {
      tables = put c.tables table (record {
        metadata = digest h (item (text "meta") (item (text table) (item (number (pos 0)) done)));
        snapshot_id = 0;
        head_receipt = "";
        tombstoned = false;
      });
    },
  )

  -- The receipt of a commit
  unfoldable pub commit_receipt :
      String → Table → String → String → String → String → String → String → Receipt
  unfolding sealed
  commit_receipt table entry expected update principal policy nonce key =
      let new_snapshot = suc entry.snapshot_id in
      let new_meta = digest h (
        item (text "meta")
          (item (text table) (item (number (pos new_snapshot)) (item (text update) done)))) in
      sealed h (record {
        table = table;
        op = "commit";
        previous_metadata = expected;
        new_metadata = new_meta;
        snapshot_id = new_snapshot;
        principal = principal;
        policy_hash = policy_digest h policy;
        idempotency_key = key;
        request_hash = digest h (
            item (text "request") (
              item (text table)
                (item (text expected) (item (text update) (item (text nonce) done)))));
        response_hash = digest h (
            item (text "response")
              (item (text table) (item (text new_meta) (item (number (pos new_snapshot)) done))));
        prev_receipt = entry.head_receipt;
        receipt_hash = "";
      })

  -- Evidence of one kind for a receipt
  unfoldable pub evidence : String → Receipt → String
  evidence kind r = digest h (item (text kind) (item (text r.receipt_hash) done))

  -- The transition of `commit`
  unfoldable pub advance :
      String → Table → String → Receipt → ReferenceCatalog → Outcome × ReferenceCatalog
  unfolding store_outcome
  advance table entry key r c =
      let outcome : Outcome = record succeeded {
        receipt = some r;
        audit_present = true;
        outbox_present = true;
        lineage_present = true;
      } in
      (
        outcome,
        record {
          tables = put c.tables table (record entry {
            metadata = r.new_metadata;
            snapshot_id = r.snapshot_id;
            head_receipt = r.receipt_hash;
          });
          idempotency = store_outcome key outcome c.idempotency;
          audit = c.audit ++ evidence "audit" r ∷ [];
          outbox = c.outbox ++ evidence "outbox" r ∷ [];
          lineage = c.lineage ++ evidence "lineage" r ∷ [];
          receipts = put c.receipts r.receipt_hash r;
        },
      )

  -- `commit` of texts that fit, under a key without an outcome
  unfoldable pub commit_new :
      String
      → String
      → String
      → String
      → String
      → String
      → String
      → ReferenceCatalog
      → Outcome × ReferenceCatalog
  commit_new table expected update principal policy nonce key c = elim (live table c) [
    | none ↦ (failed "no-such-table", c)
    | some entry ↦
        if not (expected == entry.metadata)
        then (failed "stale-metadata", c)
        else advance table entry key
            (commit_receipt table entry expected update principal policy nonce key) c
  ]

  unfoldable pub commit :
      String
      → String
      → String
      → String
      → String
      → String
      → String
      → ReferenceCatalog
      → Outcome × ReferenceCatalog
  unfolding commit_new
  commit table expected update principal policy nonce key c =
      if bad_text (update ∷ policy ∷ [])
      then (failed "oversized", c)
      else elim (stored_outcome key c) [
        | some outcome ↦ (outcome, c)
        | none ↦ commit_new table expected update principal policy nonce key c
      ]

  unfoldable pub scan : String → String → String → ReferenceCatalog → Outcome × ReferenceCatalog
  unfolding sealed_scan
  scan table principal policy c = elim (live table c) [
    | none ↦ (failed "no-such-table", c)
    | some entry ↦ (
      record succeeded {
        scan_receipt = some (
            sealed_scan h (record {
              table = table;
              principal = principal;
              policy_hashes = policy_digest h policy ∷ [];
              snapshot_id = entry.snapshot_id;
              receipt_hash = "";
            }));
      },
      c,
    )
  ]

  -- The receipt of a tombstone
  unfoldable pub tombstone_receipt : String → Table → String → String → String → Receipt
  unfolding sealed
  tombstone_receipt table entry principal policy nonce = sealed h (record {
    table = table;
    op = "tombstone";
    previous_metadata = entry.metadata;
    new_metadata = digest h (item (text "meta") (item (text table) (item (text "tombstone") done)));
    snapshot_id = entry.snapshot_id;
    principal = principal;
    policy_hash = policy_digest h policy;
    idempotency_key = "";
    request_hash =
        digest h
          (item (text "request") (item (text table) (item (text "drop") (item (text nonce) done))));
    response_hash = digest h (item (text "response") (item (text "dropped") done));
    prev_receipt = entry.head_receipt;
    receipt_hash = "";
  })

  -- The transition of `tombstone`
  unfoldable pub bury : String → Table → Receipt → ReferenceCatalog → Outcome × ReferenceCatalog
  bury table entry r c = (
    record succeeded { receipt = some r; audit_present = true; outbox_present = true },
    record c {
      tables =
          put c.tables table (record entry { tombstoned = true; head_receipt = r.receipt_hash });
      receipts = put c.receipts r.receipt_hash r;
      audit = c.audit ++ evidence "audit" r ∷ [];
      outbox = c.outbox ++ evidence "outbox" r ∷ [];
    },
  )

  unfoldable pub tombstone :
      String → String → String → String → ReferenceCatalog → Outcome × ReferenceCatalog
  tombstone table principal policy nonce c = elim (live table c) [
    | none ↦ (failed "no-such-table", c)
    | some entry ↦ bury table entry (tombstone_receipt table entry principal policy nonce) c
  ]

  unfoldable pub replay : Receipt → ReferenceCatalog → Bool
  unfolding recorded
  replay r c = verifies h r && recorded r.receipt_hash c
