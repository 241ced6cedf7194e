-- ===== src/Catalog/Durable.antt =====
-- What stays of an accepted transition of
-- docs/book/code/catalog-provenance/catalog_provenance/backend.py, whatever follows: its receipt and
-- the outcome of its key.
use adversarial_cognition.Prelude.{
  String, ◌≡◌, ◌≢◌, refl, sym, ◌∙◌, ap, true, false, inl, inr, none, some, List, [], ◌∷◌, arith,
  eq_iff, eq_refl, get, get-put, Option-cases,
}
use adversarial_cognition.Hashes.{Hashes}
use adversarial_cognition.Catalog.State.{
  Outcome, Table, ReferenceCatalog, bad_text, live, stored_outcome, store_outcome, recorded,
}
use adversarial_cognition.Catalog.Receipts.{Receipt, verifies}
use adversarial_cognition.Catalog.{
  commit, commit_receipt, advance, bury, tombstone, tombstone_receipt, replay,
}
use adversarial_cognition.Catalog.Committing.{verifies-sealed, commit_won, commit_applies}
use adversarial_cognition.Catalog.Histories.{Call, run, Keeps, run-Keeps}

module _ (h : Hashes) where
  advance_replays :
      (table : String) (entry : Table) (key : String) (r : Receipt) (c : ReferenceCatalog)
      → verifies h r ≡ true
      → replay h r (advance h table entry key r c).1 ≡ true
  unfolding advance replay recorded
  advance_replays table entry key r c intact =
      ground (arith, get-put c.receipts r.receipt_hash r.receipt_hash r, eq_refl r.receipt_hash)

  replay-Keeps :
      (r : Receipt) (c c' : ReferenceCatalog)
      → Keeps c c'
      → replay h r c ≡ true
      → replay h r c' ≡ true
  unfolding replay
  replay-Keeps r c c' kept e = let known = kept.receipts r.receipt_hash in ground arith

  bury_replays :
      (table : String) (entry : Table) (r : Receipt) (c : ReferenceCatalog)
      → verifies h r ≡ true
      → replay h r (bury h table entry r c).1 ≡ true
  unfolding bury replay recorded
  bury_replays table entry r c intact =
      ground (arith, get-put c.receipts r.receipt_hash r.receipt_hash r, eq_refl r.receipt_hash)

  pub tombstone_buried :
      (table principal policy nonce : String) (c : ReferenceCatalog)
      → (tombstone h table principal policy nonce c).0.ok ≡ true
      → (entry : Table) × (live table c ≡ some entry)
        × (tombstone h table principal policy nonce c
            ≡ bury h table entry (tombstone_receipt h table entry principal policy nonce) c)
  unfolding tombstone
  tombstone_buried table principal policy nonce c done = elim (Option-cases (live table c)) [
    | inl missing ↦ absurd (ground arith)
    | inr (entry, alive) ↦ (entry, alive, rw (tombstone, alive) refl)
  ]

  -- The receipt of an accepted commit, of texts that fit and under an empty or new key, replays then
  -- and after any calls and restarts.
  pub commit_durable :
      (table expected update principal policy nonce key : String) (calls : List Call)
      (c : ReferenceCatalog)
      → bad_text (update ∷ policy ∷ []) ≡ false
      → stored_outcome key c ≡ none
      → (commit h table expected update principal policy nonce key c).0.ok ≡ true
      → (r : Receipt) × ((commit h table expected update principal policy nonce key c).0.receipt
          ≡ some r)
        × (replay h r (run h calls (commit h table expected update principal policy nonce key c).1)
            ≡ true)
  unfolding advance commit_receipt
  commit_durable table expected update principal policy nonce key calls c fits new_key done =
      let (entry, alive, same) =
        commit_won h table expected update principal policy nonce key c fits new_key done in
      let r = commit_receipt h table entry expected update principal policy nonce key in
      let applied =
        commit_applies h table expected update principal policy nonce key c entry fits new_key alive
          same in
      (
        r,
        ap (λ (x : Outcome × ReferenceCatalog). x.0.receipt) applied,
        replay-Keeps r _ _ (run-Keeps h calls _) (
            ap (λ (x : Outcome × ReferenceCatalog). replay h r x.1) applied
            ∙ advance_replays table entry key r c (verifies-sealed h _)),
      )

  -- The receipt of an accepted tombstone replays then and after any calls and restarts.
  pub tombstone_durable :
      (table principal policy nonce : String) (calls : List Call) (c : ReferenceCatalog)
      → (tombstone h table principal policy nonce c).0.ok ≡ true
      → (r : Receipt) × ((tombstone h table principal policy nonce c).0.receipt ≡ some r)
        × (replay h r (run h calls (tombstone h table principal policy nonce c).1) ≡ true)
  unfolding bury tombstone_receipt
  tombstone_durable table principal policy nonce calls c done =
      let (entry, alive, buried) = tombstone_buried table principal policy nonce c done in
      let r = tombstone_receipt h table entry principal policy nonce in
      (
        r,
        ap (λ (x : Outcome × ReferenceCatalog). x.0.receipt) buried,
        replay-Keeps r _ _ (run-Keeps h calls _) (
            ap (λ (x : Outcome × ReferenceCatalog). replay h r x.1) buried
            ∙ bury_replays table entry r c (verifies-sealed h _)),
      )

  advance_stores :
      (table : String) (entry : Table) (key : String) (r : Receipt) (c : ReferenceCatalog)
      → key ≢ ""
      → get (advance h table entry key r c).1.idempotency key
        ≡ some (advance h table entry key r c).0
  unfolding advance store_outcome
  advance_stores table entry key r c named = ground (
    arith,
    get-put c.idempotency key key (advance h table entry key r c).0,
    eq_refl key,
    eq_iff key "",
  )

  commit_stored :
      (table expected update principal policy nonce key : String) (c : ReferenceCatalog)
      (o : Outcome)
      → bad_text (update ∷ policy ∷ []) ≡ false
      → key ≢ ""
      → get c.idempotency key ≡ some o
      → commit h table expected update principal policy nonce key c ≡ (o, c)
  unfolding commit stored_outcome
  commit_stored table expected update principal policy nonce key c o fits named kept =
      let stored : stored_outcome key c ≡ some o = ground (arith, eq_iff key "") in
      rw (commit, fits, stored) refl

  -- After an accepted commit under a key that is not empty, and any calls and restarts, every commit
  -- of texts that fit under the same key returns the outcome of the first and leaves the catalog as
  -- it is.
  pub commit_retried :
      (table expected update principal policy nonce key : String)
      (table' expected' update' principal' policy' nonce' : String) (calls : List Call)
      (c : ReferenceCatalog)
      → bad_text (update ∷ policy ∷ []) ≡ false
      → key ≢ ""
      → stored_outcome key c ≡ none
      → (commit h table expected update principal policy nonce key c).0.ok ≡ true
      → bad_text (update' ∷ policy' ∷ []) ≡ false
      → commit h table' expected' update' principal' policy' nonce' key
          (run h calls (commit h table expected update principal policy nonce key c).1)
        ≡ (
          (commit h table expected update principal policy nonce key c).0,
          run h calls (commit h table expected update principal policy nonce key c).1,
        )
  commit_retried table expected update principal policy nonce key table' expected' update'
        principal' policy' nonce' calls c fits named new_key done fits' =
      let first = commit h table expected update principal policy nonce key c in
      let (entry, alive, same) =
        commit_won h table expected update principal policy nonce key c fits new_key done in
      let applied =
        commit_applies h table expected update principal policy nonce key c entry fits new_key alive
          same in
      let stored : get first.1.idempotency key ≡ some first.0 =
        ap (λ (x : Outcome × ReferenceCatalog). get x.1.idempotency key) applied
        ∙ advance_stores table entry key _ c named
        ∙ ap (λ (x : Outcome × ReferenceCatalog). some x.0) (sym applied) in
      let kept = (run-Keeps h calls first.1).outcomes key first.0 stored in
      commit_stored table' expected' update' principal' policy' nonce' key (run h calls first.1)
        first.0 fits' named kept
