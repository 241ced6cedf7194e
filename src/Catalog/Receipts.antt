-- ===== src/Catalog/Receipts.antt =====
-- The receipts of docs/book/code/catalog-provenance/catalog_provenance/backend.py.
use adversarial_cognition.Prelude.{
  same_texts, ℕ, String, ◌<>◌, Bool, true, false, ◌&&◌, List, [], ◌∷◌, ◌==◌,
}
use adversarial_cognition.Prelude.Int.{pos}
use adversarial_cognition.Hashes.{Hashes, zero_byte}
use adversarial_cognition.Json.{dumps, Items, item, done, text, number, array, texts}

abbrev pub domain : String
domain = "querygraph.catalog-provenance.v1"

pub record Receipt : Type 0 where
  pub table : String
  pub op : String
  pub previous_metadata : String
  pub new_metadata : String
  pub snapshot_id : ℕ
  pub principal : String
  pub policy_hash : String
  pub idempotency_key : String
  pub request_hash : String
  pub response_hash : String
  pub prev_receipt : String
  pub receipt_hash : String

pub record ScanReceipt : Type 0 where
  pub table : String
  pub principal : String
  pub policy_hashes : List String
  pub snapshot_id : ℕ
  pub receipt_hash : String

-- bool(hashes)
abbrev pub nonempty : List String → Bool
nonempty [] = false
nonempty (_ ∷ _) = true

module _ (h : Hashes) where
  unfoldable pub digest : Items → String
  unfolding dumps
  digest parts = "sha256:" <> h.sha256 (domain <> (zero_byte <> dumps "," ":" (array parts)))

  unfoldable pub policy_digest : String → String
  policy_digest policy = "sha256:" <> h.sha256 ("policy" <> (zero_byte <> policy))

  -- The hash that `Receipt.sealed` computes from the other fields.
  unfoldable pub receipt_hash_of : Receipt → String
  receipt_hash_of r = digest (
      item (text "receipt") (
        item (text r.table) (
          item (text r.op) (
            item (text r.previous_metadata) (
              item (text r.new_metadata) (
                item (number (pos r.snapshot_id)) (
                  item (text r.principal) (
                    item (text r.policy_hash) (
                      item (text r.idempotency_key) (
                        item (text r.request_hash)
                          (item (text r.response_hash) (item (text r.prev_receipt) done))))))))))))

  -- `Receipt.sealed`
  unfoldable pub sealed : Receipt → Receipt
  sealed r = record r { receipt_hash = receipt_hash_of r }

  -- `Receipt.verifies`
  unfoldable pub verifies : Receipt → Bool
  unfolding sealed
  verifies r = (sealed r).receipt_hash == r.receipt_hash

  -- `ScanReceipt.sealed`
  unfoldable pub sealed_scan : ScanReceipt → ScanReceipt
  sealed_scan r = record r {
    receipt_hash = digest (
        item (text "scan") (
          item (text r.table) (
            item (text r.principal)
              (item (array (texts r.policy_hashes)) (item (number (pos r.snapshot_id)) done)))));
  }

  -- `ScanReceipt.verifies`
  unfoldable pub scan_verifies : ScanReceipt → List String → Bool
  unfolding sealed_scan
  scan_verifies r expected =
      nonempty r.policy_hashes
      && same_texts r.policy_hashes expected
      && (sealed_scan r).receipt_hash == r.receipt_hash
