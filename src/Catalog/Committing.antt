-- ===== src/Catalog/Committing.antt =====
-- `commit` of docs/book/code/catalog-provenance/catalog_provenance/backend.py: what an accepted commit
-- does, and that a lost race leaves nothing.
use adversarial_cognition.Prelude.{
  suc, String, ◌≡◌, ◌≢◌, refl, sym, ◌∙◌, ap, subst, true, false, inl, inr, none, some, [], ◌∷◌,
  ◌++◌, arith, ◌==◌, eq_iff, eq_refl, if◌then◌else◌, get, get-put, Option-cases, Bool-cases,
}
use adversarial_cognition.Hashes.{Hashes}
use adversarial_cognition.Catalog.State.{
  Outcome, Table, ReferenceCatalog, bad_text, live, stored_outcome,
}
use adversarial_cognition.Catalog.Receipts.{Receipt, sealed, receipt_hash_of, verifies}
use adversarial_cognition.Catalog.{commit, commit_new, commit_receipt, advance, evidence}

pub live-entry :
    (table : String) (c : ReferenceCatalog) (entry : Table)
    → live table c ≡ some entry
    → (get c.tables table ≡ some entry) × (entry.tombstoned ≡ false)
unfolding live
live-entry table c entry e = elim (Option-cases (get c.tables table)) [
  | inl missing ↦ absurd (ground arith)
  | inr (found, known) ↦ (ground arith, ground arith)
]

module _ (h : Hashes) where
  pub verifies-sealed : (r : Receipt) → verifies h (sealed h r) ≡ true
  unfolding verifies sealed receipt_hash_of
  verifies-sealed r = eq_refl _

  -- The commit with receipt `r` has been applied to `entry` of the table, and recorded.
  pub record Committed (table : String) (entry : Table) (r : Receipt) (c c' : ReferenceCatalog)
      : Type 0 where
    pub verified : verifies h r ≡ true
    pub about : r.table ≡ table
    pub from : r.previous_metadata ≡ entry.metadata
    pub chained : r.prev_receipt ≡ entry.head_receipt
    pub numbered : r.snapshot_id ≡ suc entry.snapshot_id
    pub tables :
        (t : String)
        → get c'.tables t ≡ (
            if table == t
            then some (record {
              metadata = r.new_metadata;
              snapshot_id = r.snapshot_id;
              head_receipt = r.receipt_hash;
              tombstoned = false;
            })
            else get c.tables t)
    pub recorded :
        (k : String)
        → get c'.receipts k ≡ (if r.receipt_hash == k then some r else get c.receipts k)
    pub audited : c'.audit ≡ c.audit ++ evidence h "audit" r ∷ []
    pub published : c'.outbox ≡ c.outbox ++ evidence h "outbox" r ∷ []
    pub derived : c'.lineage ≡ c.lineage ++ evidence h "lineage" r ∷ []

  -- The outcome of a commit that is applied
  abbrev pub applied : Receipt → Outcome
  applied r = record {
    ok = true;
    error = "";
    receipt = some r;
    scan_receipt = none;
    audit_present = true;
    outbox_present = true;
    lineage_present = true;
  }

  receipt-verified :
      (table : String) (entry : Table) (expected update principal policy nonce key : String)
      → verifies h (commit_receipt h table entry expected update principal policy nonce key) ≡ true
  unfolding commit_receipt
  receipt-verified table entry expected update principal policy nonce key = verifies-sealed _

  advance-Committed :
      (table : String) (entry : Table) (expected update principal policy nonce key : String)
      (c : ReferenceCatalog)
      → entry.tombstoned ≡ false
      → expected ≡ entry.metadata
      → Committed table entry
          (commit_receipt h table entry expected update principal policy nonce key)
          c
          (advance h table entry key
            (commit_receipt h table entry expected update principal policy nonce key)
            c).1
  unfolding advance commit_receipt sealed
  advance-Committed table entry expected update principal policy nonce key c alive same = record {
    verified = receipt-verified table entry expected update principal policy nonce key;
    about = refl;
    from = same;
    chained = refl;
    numbered = refl;
    tables = λ t. ground (
      arith,
      get-put c.tables table t (
          (record entry {
            metadata =
                (commit_receipt h table entry expected update principal policy nonce
                  key).new_metadata;
            snapshot_id = suc entry.snapshot_id;
            head_receipt =
                (commit_receipt h table entry expected update principal policy nonce
                  key).receipt_hash;
          })),
    );
    recorded = λ k.
        get-put c.receipts
          (commit_receipt h table entry expected update principal policy nonce key).receipt_hash k
          (commit_receipt h table entry expected update principal policy nonce key);
    audited = refl;
    published = refl;
    derived = refl;
  }

  advance-applied :
      (table : String) (entry : Table) (key : String) (r : Receipt) (c : ReferenceCatalog)
      → (advance h table entry key r c).0 ≡ applied r
  unfolding advance
  advance-applied table entry key r c = refl

  pub commit_applies :
      (table expected update principal policy nonce key : String) (c : ReferenceCatalog)
      (entry : Table)
      → bad_text (update ∷ policy ∷ []) ≡ false
      → stored_outcome key c ≡ none
      → live table c ≡ some entry
      → expected ≡ entry.metadata
      → commit h table expected update principal policy nonce key c
        ≡ advance h table entry key
            (commit_receipt h table entry expected update principal policy nonce key)
            c
  unfolding commit commit_new
  commit_applies table expected update principal policy nonce key c entry fits new_key alive same =
      rw (fits, new_key, commit_new, alive, (eq_iff expected entry.metadata).1 same) refl

  commit-Committed :
      (table expected update principal policy nonce key : String) (c : ReferenceCatalog)
      (entry : Table)
      → bad_text (update ∷ policy ∷ []) ≡ false
      → stored_outcome key c ≡ none
      → live table c ≡ some entry
      → expected ≡ entry.metadata
      → ((commit h table expected update principal policy nonce key c).0
          ≡ applied (commit_receipt h table entry expected update principal policy nonce key))
        × Committed table entry
            (commit_receipt h table entry expected update principal policy nonce key)
            c
            (commit h table expected update principal policy nonce key c).1
  commit-Committed table expected update principal policy nonce key c entry fits new_key alive
        same =
      let r = commit_receipt h table entry expected update principal policy nonce key in
      let done =
        commit_applies table expected update principal policy nonce key c entry fits new_key alive
          same in
      (
        ap (λ (x : Outcome × ReferenceCatalog). x.0) done ∙ advance-applied table entry key r c,
        subst (λ (x : Outcome × ReferenceCatalog). Committed table entry r c x.1) (sym done)
            (advance-Committed table entry expected update principal policy nonce key c
              (live-entry table c entry alive).1 same),
      )

  -- For texts that fit, and a key that is empty or has no outcome yet: a commit on a live table that
  -- asserts its current metadata is applied and recorded as a whole, the pointer, the receipt that
  -- chains to the table's last one, and one event each of audit, outbox and lineage. Where the table
  -- is not live or the metadata is not the current one, the commit fails and the catalog is as it was.
  pub commit_exact :
      (table expected update principal policy nonce key : String) (c : ReferenceCatalog)
      → bad_text (update ∷ policy ∷ []) ≡ false
      → stored_outcome key c ≡ none
      → ((entry : Table)
          → live table c ≡ some entry
          → expected ≡ entry.metadata
          → (r : Receipt) × ((commit h table expected update principal policy nonce key c).0
              ≡ applied r)
            × Committed table entry r c
                (commit h table expected update principal policy nonce key c).1)
        × (((entry : Table) → live table c ≡ some entry → expected ≢ entry.metadata)
            → ((commit h table expected update principal policy nonce key c).0.ok ≡ false)
              × ((commit h table expected update principal policy nonce key c).1 ≡ c))
  unfolding commit commit_new
  commit_exact table expected update principal policy nonce key c fits new_key = (
    λ entry alive same.
        let (made, done) =
          commit-Committed table expected update principal policy nonce key c entry fits new_key
            alive same in
        (commit_receipt h table entry expected update principal policy nonce key, made, done),
    λ lost. elim (Option-cases (live table c)) [
      | inl missing ↦ (ground arith, ground arith)
      | inr (entry, alive) ↦
          let other : (expected == entry.metadata) ≡ false =
            elim (Bool-cases (expected == entry.metadata)) [
              | inl same ↦ absurd (lost entry alive ((eq_iff expected entry.metadata).0 same))
              | inr differs ↦ differs
            ] in
          (ground arith, ground arith)
    ],
  )

  pub commit_won :
      (table expected update principal policy nonce key : String) (c : ReferenceCatalog)
      → bad_text (update ∷ policy ∷ []) ≡ false
      → stored_outcome key c ≡ none
      → (commit h table expected update principal policy nonce key c).0.ok ≡ true
      → (entry : Table) × (live table c ≡ some entry) × (expected ≡ entry.metadata)
  unfolding commit commit_new
  commit_won table expected update principal policy nonce key c fits new_key won =
      elim (Option-cases (live table c)) [
        | inl missing ↦ absurd (ground arith)
        | inr (entry, alive) ↦ elim (Bool-cases (expected == entry.metadata)) [
          | inl same ↦ (entry, alive, (eq_iff expected entry.metadata).0 same)
          | inr stale ↦ absurd (ground arith)
        ]
      ]

  abbrev new_metadata_of : Outcome → String
  new_metadata_of o = elim o.receipt [ none ↦ "" | some r ↦ r.new_metadata ]

  -- After a commit that is applied, a commit that asserts the metadata which that one replaced fails
  -- and leaves the catalog as it is: of two writers from one state one wins. It may have any texts
  -- that fit, and a key that is empty or has no outcome; the new metadata is other than the old.
  pub second_writer_refused :
      (table expected update principal policy nonce key : String)
      (update' principal' policy' nonce' key' : String) (c : ReferenceCatalog) (r : Receipt)
      → (commit h table expected update principal policy nonce key c).0 ≡ applied r
      → bad_text (update ∷ policy ∷ []) ≡ false
      → stored_outcome key c ≡ none
      → bad_text (update' ∷ policy' ∷ []) ≡ false
      → stored_outcome key' (commit h table expected update principal policy nonce key c).1 ≡ none
      → r.new_metadata ≢ expected
      → ((commit h table expected update' principal' policy' nonce' key'
            (commit h table expected update principal policy nonce key c).1).0.ok
          ≡ false)
        × ((commit h table expected update' principal' policy' nonce' key'
              (commit h table expected update principal policy nonce key c).1).1
            ≡ (commit h table expected update principal policy nonce key c).1)
  second_writer_refused table expected update principal policy nonce key update' principal' policy'
        nonce' key' c r won fits new_key fits' new_key' moved =
      let c' = (commit h table expected update principal policy nonce key c).1 in
      let (entry, alive, same) =
        commit_won table expected update principal policy nonce key c fits new_key
          (ap (λ (o : Outcome). o.ok) won) in
      let r2 = commit_receipt h table entry expected update principal policy nonce key in
      let (made, done) =
        commit-Committed table expected update principal policy nonce key c entry fits new_key alive
          same in
      let same_receipt : r2.new_metadata ≡ r.new_metadata = ap new_metadata_of (sym made ∙ won) in
      (commit_exact table expected update' principal' policy' nonce' key' c' fits' new_key').1
        (λ entry' alive' same'.
          let found = (live-entry table c' entry' alive').0 in
          let pointed = done.tables table in
          let now : entry'.metadata ≡ r2.new_metadata = ground (arith, eq_refl table) in
          moved (sym same_receipt ∙ sym now ∙ sym same'))
