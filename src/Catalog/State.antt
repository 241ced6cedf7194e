-- ===== src/Catalog/State.antt =====
-- The state of the reference catalog of
-- docs/book/code/catalog-provenance/catalog_provenance/backend.py, its outcomes, and what its
-- methods read.
use adversarial_cognition.Prelude.{
  ℕ, String, Bool, true, false, ◌||◌, Option, none, some, List, [], ◌∷◌, ltb, if◌then◌else◌, ◌==◌,
  Dict, get, put, len_text,
}
use adversarial_cognition.Catalog.Receipts.{Receipt, ScanReceipt}

abbrev pub max_text : ℕ
max_text = 4096

pub record Outcome : Type 0 where
  pub ok : Bool
  pub error : String
  pub receipt : Option Receipt
  pub scan_receipt : Option ScanReceipt
  pub audit_present : Bool
  pub outbox_present : Bool
  pub lineage_present : Bool

abbrev pub failed : String → Outcome
failed error = record {
  ok = false;
  error = error;
  receipt = none;
  scan_receipt = none;
  audit_present = false;
  outbox_present = false;
  lineage_present = false;
}

-- Outcome(True)
abbrev pub succeeded : Outcome
succeeded = record (failed "") { ok = true }

-- `_Table`
pub record Table : Type 0 where
  pub metadata : String
  pub snapshot_id : ℕ
  pub head_receipt : String
  pub tombstoned : Bool

pub record ReferenceCatalog : Type 0 where
  pub tables : Dict Table
  pub idempotency : Dict Outcome
  pub audit : List String
  pub outbox : List String
  pub lineage : List String
  pub receipts : Dict Receipt

abbrev pub empty : ReferenceCatalog
empty = record {
  tables = [];
  idempotency = [];
  audit = [];
  outbox = [];
  lineage = [];
  receipts = [];
}

-- `_bad_text`
unfoldable pub bad_text : List String → Bool
bad_text [] = false
bad_text (v ∷ values) = ltb max_text (len_text v) || bad_text values

unfoldable pub pointer : String → ReferenceCatalog → String
pointer table c = elim (get c.tables table) [ none ↦ "" | some entry ↦ entry.metadata ]

-- The entry of the table, unless `entry is None or entry.tombstoned`.
unfoldable pub live : String → ReferenceCatalog → Option Table
live table c = elim (get c.tables table) [
  | none ↦ none
  | some entry ↦ if entry.tombstoned then none else some entry
]

-- The stored outcome of a key that is not empty
unfoldable pub stored_outcome : String → ReferenceCatalog → Option Outcome
stored_outcome key c = if key == "" then none else get c.idempotency key

-- Where `commit` stores its outcome
unfoldable pub store_outcome : String → Outcome → Dict Outcome → Dict Outcome
store_outcome key outcome idempotency =
    if key == "" then idempotency else put idempotency key outcome

-- `receipt_hash in self.receipts`
unfoldable pub recorded : String → ReferenceCatalog → Bool
recorded key c = elim (get c.receipts key) [ none ↦ false | some r ↦ true ]

-- What a copy of every part makes is the same catalog.
unfoldable pub restart : ReferenceCatalog → ReferenceCatalog
restart c = record {
  tables = c.tables;
  idempotency = c.idempotency;
  audit = c.audit;
  outbox = c.outbox;
  lineage = c.lineage;
  receipts = c.receipts;
}
