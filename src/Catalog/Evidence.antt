-- ===== src/Catalog/Evidence.antt =====
-- The evidence of docs/book/code/catalog-provenance/catalog_provenance/backend.py: receipts are intact
-- and chained, and the events keep step with them.
use adversarial_cognition.Prelude.{
  ◌≤◌, String, ◌≡◌, refl, sym, ◌∙◌, ap, subst, true, ◌||◌, inl, inr, some, List, [], ◌∷◌, arith,
  ◌==◌, eq_iff, eq_refl, if◌then◌else◌, get, put, get-put, Option-cases, Bool-cases, length,
  length-append,
}
use adversarial_cognition.Hashes.{Hashes}
use adversarial_cognition.Catalog.State.{
  Outcome, Table, ReferenceCatalog, bad_text, live, stored_outcome, recorded, empty,
}
use adversarial_cognition.Catalog.State
use adversarial_cognition.Catalog.Receipts.{Receipt, verifies, sealed}
use adversarial_cognition.Catalog.{
  commit_new, commit_receipt, advance, bury, tombstone_receipt, evidence,
}
use adversarial_cognition.Catalog
use adversarial_cognition.Catalog.Committing.{verifies-sealed, live-entry}
use adversarial_cognition.Catalog.Histories.{
  Call, create, commit, scan, tombstone, answer, run, scan-same, recorded-put,
}

-- No receipt, or a recorded one
abbrev pub Linked : String → ReferenceCatalog → Type 0
Linked k c = (k == "" || recorded k c) ≡ true

module _ (h : Hashes) where
  pub record IsSound (c : ReferenceCatalog) : Type 0 where
    pub intact :
        (k : String) (r : Receipt)
        → get c.receipts k ≡ some r
        → (r.receipt_hash ≡ k) × (verifies h r ≡ true)
    pub chained : (k : String) (r : Receipt) → get c.receipts k ≡ some r → Linked r.prev_receipt c
    pub headed : (t : String) (e : Table) → get c.tables t ≡ some e → Linked e.head_receipt c
    pub published : length c.audit ≡ length c.outbox
    pub derived : length c.lineage ≤ length c.audit

  Linked-put :
      (k : String) (c c' : ReferenceCatalog) (r : Receipt)
      → c'.receipts ≡ put c.receipts r.receipt_hash r
      → Linked k c
      → Linked k c'
  Linked-put k c c' r same e = let more = recorded-put c c' r same k in ground arith

  Linked-new :
      (c c' : ReferenceCatalog) (r : Receipt)
      → c'.receipts ≡ put c.receipts r.receipt_hash r
      → Linked r.receipt_hash c'
  unfolding recorded
  Linked-new c c' r same = ground (
    arith,
    ap (λ d. get d r.receipt_hash) same,
    get-put c.receipts r.receipt_hash r.receipt_hash r,
    eq_refl r.receipt_hash,
  )

  -- What both transitions share: a receipt that is intact and chained, and the entry that it heads.
  module _ (c c' : ReferenceCatalog) (table : String) (new : Table) (r : Receipt)
      (receipts : c'.receipts ≡ put c.receipts r.receipt_hash r)
      (tables : c'.tables ≡ put c.tables table new) (whole : verifies h r ≡ true)
      (linked : Linked r.prev_receipt c) (heads : new.head_receipt ≡ r.receipt_hash)
      (s : IsSound c) where
    found :
        (k : String)
        → get c'.receipts k ≡ (if r.receipt_hash == k then some r else get c.receipts k)
    found k = ap (λ d. get d k) receipts ∙ get-put c.receipts r.receipt_hash k r

    put-intact :
        (k : String) (x : Receipt)
        → get c'.receipts k ≡ some x
        → (x.receipt_hash ≡ k) × (verifies h x ≡ true)
    put-intact k x e = elim (Bool-cases (r.receipt_hash == k)) [
      | inl here ↦
          let same : r ≡ x = ground (arith, found k) in
          subst (λ (y : Receipt). (y.receipt_hash ≡ k) × (verifies h y ≡ true)) same
            ((eq_iff r.receipt_hash k).0 here, whole)
      | inr past ↦ s.intact k x (ground (arith, found k))
    ]

    put-chained : (k : String) (x : Receipt) → get c'.receipts k ≡ some x → Linked x.prev_receipt c'
    put-chained k x e = elim (Bool-cases (r.receipt_hash == k)) [
      | inl here ↦
          let same : r ≡ x = ground (arith, found k) in
          subst (λ (y : Receipt). Linked y.prev_receipt c') same
            (Linked-put r.prev_receipt c c' r receipts linked)
      | inr past ↦
          Linked-put x.prev_receipt c c' r receipts (s.chained k x (ground (arith, found k)))
    ]

    put-headed : (t : String) (e : Table) → get c'.tables t ≡ some e → Linked e.head_receipt c'
    put-headed t e known =
        let here = ap (λ d. get d t) tables ∙ get-put c.tables table t new in
        elim (Bool-cases (table == t)) [
          | inl same ↦
              let head : r.receipt_hash ≡ e.head_receipt = ground arith in
              subst (λ k. Linked k c') head (Linked-new c c' r receipts)
          | inr other ↦ Linked-put e.head_receipt c c' r receipts (s.headed t e (ground arith))
        ]

  advance-IsSound :
      (table : String) (entry : Table) (key : String) (r : Receipt) (c : ReferenceCatalog)
      → verifies h r ≡ true
      → Linked r.prev_receipt c
      → IsSound c
      → IsSound (advance h table entry key r c).1
  unfolding advance
  advance-IsSound table entry key r c whole linked s =
      let c' = (advance h table entry key r c).1 in
      let new : Table = record entry {
        metadata = r.new_metadata;
        snapshot_id = r.snapshot_id;
        head_receipt = r.receipt_hash;
      } in
      let published = s.published in
      let derived = s.derived in
      record {
        intact = put-intact c c' table new r refl refl whole linked refl s;
        chained = put-chained c c' table new r refl refl whole linked refl s;
        headed = put-headed c c' table new r refl refl whole linked refl s;
        published = omega (
          arith,
          length-append c.audit (evidence h "audit" r ∷ []),
          length-append c.outbox (evidence h "outbox" r ∷ []),
        );
        derived = omega (
          arith,
          length-append c.audit (evidence h "audit" r ∷ []),
          length-append c.lineage (evidence h "lineage" r ∷ []),
        );
      }

  bury-IsSound :
      (table : String) (entry : Table) (r : Receipt) (c : ReferenceCatalog)
      → verifies h r ≡ true
      → Linked r.prev_receipt c
      → IsSound c
      → IsSound (bury h table entry r c).1
  unfolding bury
  bury-IsSound table entry r c whole linked s =
      let c' = (bury h table entry r c).1 in
      let new : Table = record entry { tombstoned = true; head_receipt = r.receipt_hash } in
      let published = s.published in
      let derived = s.derived in
      record {
        intact = put-intact c c' table new r refl refl whole linked refl s;
        chained = put-chained c c' table new r refl refl whole linked refl s;
        headed = put-headed c c' table new r refl refl whole linked refl s;
        published = omega (
          arith,
          length-append c.audit (evidence h "audit" r ∷ []),
          length-append c.outbox (evidence h "outbox" r ∷ []),
        );
        derived = omega (arith, length-append c.audit (evidence h "audit" r ∷ []));
      }

  commit_new-IsSound :
      (table expected update principal policy nonce key : String) (c : ReferenceCatalog)
      → IsSound c
      → IsSound (commit_new h table expected update principal policy nonce key c).1
  unfolding commit_new commit_receipt sealed
  commit_new-IsSound table expected update principal policy nonce key c s =
      elim (Option-cases (live table c)) [
        | inl missing ↦ rw (commit_new, missing) s
        | inr (entry, alive) ↦ elim (Bool-cases (expected == entry.metadata)) [
          | inr stale ↦ rw (commit_new, alive, stale) s
          | inl same ↦
              rw (commit_new, alive, same)
                (advance-IsSound table entry key
                  (commit_receipt h table entry expected update principal policy nonce key) c
                  (verifies-sealed h _) (s.headed table entry (live-entry table c entry alive).0) s)
        ]
      ]

  commit-IsSound :
      (table expected update principal policy nonce key : String) (c : ReferenceCatalog)
      → IsSound c
      → IsSound (Catalog.commit h table expected update principal policy nonce key c).1
  unfolding Catalog.commit
  commit-IsSound table expected update principal policy nonce key c s =
      elim (Bool-cases (bad_text (update ∷ policy ∷ []))) [
        | inl long ↦ rw (Catalog.commit, long) s
        | inr fits ↦ elim (Option-cases (stored_outcome key c)) [
          | inl new_key ↦
              rw (Catalog.commit, fits, new_key)
                (commit_new-IsSound table expected update principal policy nonce key c s)
          | inr (o, stored) ↦ rw (Catalog.commit, fits, stored) s
        ]
      ]

  tombstone-IsSound :
      (table principal policy nonce : String) (c : ReferenceCatalog)
      → IsSound c
      → IsSound (Catalog.tombstone h table principal policy nonce c).1
  unfolding Catalog.tombstone tombstone_receipt sealed
  tombstone-IsSound table principal policy nonce c s = elim (Option-cases (live table c)) [
    | inl missing ↦ rw (Catalog.tombstone, missing) s
    | inr (entry, alive) ↦
        rw (Catalog.tombstone, alive)
          (bury-IsSound table entry (tombstone_receipt h table entry principal policy nonce) c
            (verifies-sealed h _) (s.headed table entry (live-entry table c entry alive).0) s)
  ]

  created_head :
      (c : ReferenceCatalog) (table t : String) (new e : Table)
      → new.head_receipt ≡ ""
      → get (put c.tables table new) t ≡ some e
      → (table == t) ≡ true
      → e.head_receipt ≡ ""
  created_head c table t new e headless known same = ground (arith, get-put c.tables table t new)

  create-IsSound :
      (table principal : String) (c : ReferenceCatalog)
      → IsSound c
      → IsSound (Catalog.create h table principal c).1
  unfolding Catalog.create recorded
  create-IsSound table principal c s = record {
    intact = s.intact;
    chained = s.chained;
    headed = λ t e known.
        let before = s.headed t e in
        let here = get-put c.tables table t in
        elim (Bool-cases (table == t)) [
          | inl same ↦
              subst (λ k. Linked k (Catalog.create h table principal c).1)
                (sym (created_head c table t _ e refl known same)) refl
          | inr other ↦ before (sym (here _ ∙ rw other refl) ∙ known)
        ];
    published = s.published;
    derived = s.derived;
  }

  answer-IsSound : (call : Call) (c : ReferenceCatalog) → IsSound c → IsSound (answer h call c).1
  unfolding answer State.restart
  answer-IsSound (create table principal) c s = create-IsSound table principal c s
  answer-IsSound (commit table expected update principal policy nonce key) c s =
      commit-IsSound table expected update principal policy nonce key c s
  answer-IsSound (scan table principal policy) c s = rw (scan-same h table principal policy c) s
  answer-IsSound (tombstone table principal policy nonce) c s =
      tombstone-IsSound table principal policy nonce c s
  answer-IsSound Call.restart c s = record {
    intact = s.intact;
    chained = s.chained;
    headed = s.headed;
    published = s.published;
    derived = s.derived;
  }

  -- From a catalog that is sound, any calls and restarts lead to one: every recorded receipt stands
  -- under its hash, verifies, and names no predecessor or a recorded one; every table's last receipt
  -- is none or recorded; there are as many outbox events as audit events, and no more lineage events.
  pub run-IsSound : (calls : List Call) (c : ReferenceCatalog) → IsSound c → IsSound (run h calls c)
  unfolding run
  run-IsSound [] c s = s
  run-IsSound (call ∷ calls) c s = run-IsSound calls (answer h call c).1 (answer-IsSound call c s)
