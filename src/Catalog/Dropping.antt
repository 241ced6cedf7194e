-- ===== src/Catalog/Dropping.antt =====
-- Dropped tables and governed scans of
-- docs/book/code/catalog-provenance/catalog_provenance/backend.py.
use adversarial_cognition.Prelude.{
  same_texts, same_texts→path, same_texts_refl, String, ◌≡◌, refl, sym, ◌∙◌, subst, ap, true, false,
  ◌&&◌, ◌↔◌, inl, inr, none, some, List, [], ◌∷◌, arith, ◌==◌, eq_iff, eq_refl, get, put, get-put,
  Option-cases, Bool-cases,
}
use adversarial_cognition.Hashes.{Hashes}
use adversarial_cognition.Catalog.State.{
  Outcome, Table, ReferenceCatalog, bad_text, live, stored_outcome, failed,
}
use adversarial_cognition.Catalog.State
use adversarial_cognition.Catalog.Receipts.{
  Receipt, ScanReceipt, scan_verifies, sealed_scan, policy_digest, nonempty,
}
use adversarial_cognition.Catalog.{commit_new, advance, bury, tombstone_receipt}
use adversarial_cognition.Catalog
use adversarial_cognition.Catalog.Committing.{live-entry}
use adversarial_cognition.Catalog.Durable.{tombstone_buried}
use adversarial_cognition.Catalog.Histories.{
  Call, create, commit, scan, tombstone, answer, run, scan-same,
}

-- The table is there, and dropped.
abbrev pub Dropped : String → ReferenceCatalog → Type 0
Dropped t c = (entry : Table) × (get c.tables t ≡ some entry) × (entry.tombstoned ≡ true)

-- The call does not create the table.
abbrev pub Spares : String → List Call → Type 0
Spares t [] = Unit
Spares t (create table principal ∷ calls) = ((table == t) ≡ false) × Spares t calls
Spares t (_ ∷ calls) = Spares t calls

Dropped-live : (t : String) (c : ReferenceCatalog) → Dropped t c → live t c ≡ none
unfolding live
Dropped-live t c (entry, found, gone) = ground arith

-- An entry that is put for another table, or for a live one, leaves it dropped.
DroppedIn-put :
    (t table : String) (c : ReferenceCatalog) (new : Table)
    → (table == t) ≡ false
    → Dropped t c
    → (entry : Table) × (get (put c.tables table new) t ≡ some entry) × (entry.tombstoned ≡ true)
DroppedIn-put t table c new other (entry, found, gone) =
    (entry, ground (arith, get-put c.tables table t new), gone)

Dropped-put :
    (t table : String) (c : ReferenceCatalog) (old new : Table)
    → live table c ≡ some old
    → Dropped t c
    → (entry : Table) × (get (put c.tables table new) t ≡ some entry) × (entry.tombstoned ≡ true)
Dropped-put t table c old new alive (entry, found, gone) =
    let (known, up) = live-entry table c old alive in
    elim (Bool-cases (table == t)) [
      | inl same ↦
          let here = (eq_iff table t).0 same in
          absurd (ground (arith, ap (λ k. get c.tables k) here))
      | inr differs ↦ DroppedIn-put t table c new differs (entry, found, gone)
    ]

module _ (h : Hashes) where
  sealed_scan_verifies :
      (r : ScanReceipt) (expected : List String)
      → scan_verifies h (sealed_scan h r) expected
        ≡ (nonempty r.policy_hashes && same_texts r.policy_hashes expected)
  unfolding scan_verifies sealed_scan
  sealed_scan_verifies r expected = ground (arith, eq_refl (sealed_scan h r).receipt_hash)

  commit-Dropped :
      (t table expected update principal policy nonce key : String) (c : ReferenceCatalog)
      → Dropped t c
      → Dropped t (Catalog.commit h table expected update principal policy nonce key c).1
  unfolding Catalog.commit commit_new advance
  commit-Dropped t table expected update principal policy nonce key c gone =
      elim (Bool-cases (bad_text (update ∷ policy ∷ []))) [
        | inl long ↦ rw (Catalog.commit, long) gone
        | inr fits ↦ elim (Option-cases (stored_outcome key c)) [
          | inr (o, stored) ↦ rw (Catalog.commit, fits, stored) gone
          | inl new_key ↦ elim (Option-cases (live table c)) [
            | inl missing ↦ rw (Catalog.commit, fits, new_key, commit_new, missing) gone
            | inr (old, alive) ↦ elim (Bool-cases (expected == old.metadata)) [
              | inr stale ↦ rw (Catalog.commit, fits, new_key, commit_new, alive, stale) gone
              | inl same ↦
                  rw (Catalog.commit, fits, new_key, commit_new, alive, same)
                    (Dropped-put t table c old _ alive gone)
            ]
          ]
        ]
      ]

  tombstone-Dropped :
      (t table principal policy nonce : String) (c : ReferenceCatalog)
      → Dropped t c
      → Dropped t (Catalog.tombstone h table principal policy nonce c).1
  unfolding Catalog.tombstone bury
  tombstone-Dropped t table principal policy nonce c gone = elim (Option-cases (live table c)) [
    | inl missing ↦ rw (Catalog.tombstone, missing) gone
    | inr (old, alive) ↦ rw (Catalog.tombstone, alive) (Dropped-put t table c old _ alive gone)
  ]

  run-Dropped :
      (t : String) (calls : List Call) (c : ReferenceCatalog)
      → Spares t calls
      → Dropped t c
      → Dropped t (run h calls c)
  unfolding run answer Catalog.create State.restart
  run-Dropped t [] c spared gone = gone
  run-Dropped t (create table principal ∷ calls) c (other, spared) gone =
      run-Dropped t calls (Catalog.create h table principal c).1 spared
        (DroppedIn-put t table c _ other gone)
  run-Dropped t (commit table expected update principal policy nonce key ∷ calls) c spared gone =
      run-Dropped t calls _ spared
        (commit-Dropped t table expected update principal policy nonce key c gone)
  run-Dropped t (scan table principal policy ∷ calls) c spared gone =
      run-Dropped t calls _ spared (rw (scan-same h table principal policy c) gone)
  run-Dropped t (tombstone table principal policy nonce ∷ calls) c spared gone =
      run-Dropped t calls _ spared (tombstone-Dropped t table principal policy nonce c gone)
  run-Dropped t (Call.restart ∷ calls) c spared gone =
      run-Dropped t calls (State.restart c) spared gone

  bury-Dropped :
      (t : String) (entry : Table) (c : ReferenceCatalog) (r : Receipt)
      → Dropped t (bury h t entry r c).1
  unfolding bury
  bury-Dropped t entry c r =
      let gone : Table = record entry { tombstoned = true; head_receipt = r.receipt_hash } in
      (gone, ground (arith, get-put c.tables t t gone, eq_refl t), refl)

  -- After an accepted tombstone of a table, and any calls and restarts that do not create it again,
  -- every scan and every tombstone of it, and every commit to it under an empty or new key, fails and
  -- leaves the catalog as it is.
  pub tombstone_final :
      (t principal policy nonce : String) (calls : List Call) (c : ReferenceCatalog)
      → (Catalog.tombstone h t principal policy nonce c).0.ok ≡ true
      → Spares t calls
      → ((principal' policy' : String)
          → Catalog.scan h t principal' policy'
              (run h calls (Catalog.tombstone h t principal policy nonce c).1)
            ≡ (
              failed "no-such-table",
              run h calls (Catalog.tombstone h t principal policy nonce c).1,
            ))
        × ((principal' policy' nonce' : String)
            → Catalog.tombstone h t principal' policy' nonce'
                (run h calls (Catalog.tombstone h t principal policy nonce c).1)
              ≡ (
                failed "no-such-table",
                run h calls (Catalog.tombstone h t principal policy nonce c).1,
              ))
        × ((expected update principal' policy' nonce' key : String)
            → stored_outcome key (run h calls (Catalog.tombstone h t principal policy nonce c).1)
              ≡ none
            → ((Catalog.commit h t expected update principal' policy' nonce' key
                  (run h calls (Catalog.tombstone h t principal policy nonce c).1)).0.ok
                ≡ false)
              × ((Catalog.commit h t expected update principal' policy' nonce' key
                    (run h calls (Catalog.tombstone h t principal policy nonce c).1)).1
                  ≡ run h calls (Catalog.tombstone h t principal policy nonce c).1))
  unfolding Catalog.scan Catalog.commit Catalog.tombstone commit_new
  tombstone_final t principal policy nonce calls c done spared =
      let after = run h calls (Catalog.tombstone h t principal policy nonce c).1 in
      let (entry, alive, buried) = tombstone_buried h t principal policy nonce c done in
      let gone : Dropped t (Catalog.tombstone h t principal policy nonce c).1 =
        subst (λ (x : Outcome × ReferenceCatalog). Dropped t x.1) (sym buried)
          (bury-Dropped t entry c (tombstone_receipt h t entry principal policy nonce)) in
      let missing : live t after ≡ none =
        Dropped-live t after (run-Dropped t calls _ spared gone) in
      (
        λ principal' policy'. rw (Catalog.scan, missing) refl,
        λ principal' policy' nonce'. rw (Catalog.tombstone, missing) refl,
        λ expected update principal' policy' nonce' key new_key. (ground arith, ground arith),
      )

  -- The receipt of a scan, not yet sealed
  abbrev planned : String → String → String → Table → ScanReceipt
  planned table principal policy entry = record {
    table = table;
    principal = principal;
    policy_hashes = policy_digest h policy ∷ [];
    snapshot_id = entry.snapshot_id;
    receipt_hash = "";
  }

  -- A scan of a live table is granted and changes nothing; its receipt is for the table's current
  -- snapshot and verifies against the digests of exactly the one policy that it was planned under.
  -- A scan of any other table fails.
  pub scan_exact :
      (table principal policy : String) (c : ReferenceCatalog)
      → ((Catalog.scan h table principal policy c).1 ≡ c)
        × ((entry : Table)
            → live table c ≡ some entry
            → (r : ScanReceipt) × ((Catalog.scan h table principal policy c).0
                ≡ record State.succeeded { scan_receipt = some r })
              × (r.snapshot_id ≡ entry.snapshot_id)
              × ((expected : List String)
                  → (scan_verifies h r expected ≡ true) ↔ (expected ≡ policy_digest h policy ∷ [])))
        × (live table c ≡ none
            → (Catalog.scan h table principal policy c).0 ≡ failed "no-such-table")
  unfolding Catalog.scan sealed_scan
  scan_exact table principal policy c = (
    scan-same h table principal policy c,
    λ entry alive. (
      sealed_scan h (planned table principal policy entry),
      rw (Catalog.scan, alive) refl,
      refl,
      λ expected. (
        λ e.
            same_texts→path (policy_digest h policy ∷ []) expected
              (sym (sealed_scan_verifies (planned table principal policy entry) expected) ∙ e),
        λ e. rw e (
            sealed_scan_verifies (planned table principal policy entry)
              (policy_digest h policy ∷ [])
            ∙ same_texts_refl (policy_digest h policy ∷ [])),
      ),
    ),
    λ missing. rw (Catalog.scan, missing) refl,
  )
