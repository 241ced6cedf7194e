-- ===== src/Catalog/Histories.antt =====
-- Histories of the reference catalog of
-- docs/book/code/catalog-provenance/catalog_provenance/backend.py: calls and restarts, and what each
-- of them keeps.
use adversarial_cognition.Prelude.{
  String, ◌≡◌, refl, ap, true, inl, inr, none, some, List, [], ◌∷◌, arith, ◌==◌, eq_iff, get, put,
  get-put, Option-cases, Bool-cases,
}
use adversarial_cognition.Hashes.{Hashes}
use adversarial_cognition.Catalog.State.{
  Outcome, Table, ReferenceCatalog, bad_text, live, stored_outcome, store_outcome, recorded,
}
use adversarial_cognition.Catalog.State
use adversarial_cognition.Catalog.Receipts.{Receipt}
use adversarial_cognition.Catalog.{commit_new, commit_receipt, advance, bury, tombstone_receipt}
use adversarial_cognition.Catalog

pub data Call : Type 0 where
  create : String → String → Call
  commit : String → String → String → String → String → String → String → Call
  scan : String → String → String → Call
  tombstone : String → String → String → String → Call
  restart : Call

module _ (h : Hashes) where
  unfoldable pub answer : Call → ReferenceCatalog → Outcome × ReferenceCatalog
  answer (create table principal) c = Catalog.create h table principal c
  answer (commit table expected update principal policy nonce key) c =
      Catalog.commit h table expected update principal policy nonce key c
  answer (scan table principal policy) c = Catalog.scan h table principal policy c
  answer (tombstone table principal policy nonce) c =
      Catalog.tombstone h table principal policy nonce c
  answer restart c = (State.succeeded, State.restart c)

  unfoldable pub run : List Call → ReferenceCatalog → ReferenceCatalog
  run [] c = c
  run (call ∷ calls) c = run calls (answer call c).1

-- The receipts of `c` are recorded in `c'`, and its outcomes are stored there.
pub record Keeps (c c' : ReferenceCatalog) : Type 0 where
  pub receipts : (k : String) → recorded k c ≡ true → recorded k c' ≡ true
  pub outcomes :
      (k : String) (o : Outcome) → get c.idempotency k ≡ some o → get c'.idempotency k ≡ some o

Keeps-refl : (c : ReferenceCatalog) → Keeps c c
Keeps-refl c = record { receipts = λ k e. e; outcomes = λ k o e. e }

pub recorded-put :
    (c c' : ReferenceCatalog) (r : Receipt)
    → c'.receipts ≡ put c.receipts r.receipt_hash r
    → (k : String) → recorded k c ≡ true
    → recorded k c' ≡ true
unfolding recorded
recorded-put c c' r same k e =
    ground (arith, ap (λ d. get d k) same, get-put c.receipts r.receipt_hash k r)

store-keeps :
    (key : String) (made : Outcome) (c : ReferenceCatalog)
    → stored_outcome key c ≡ none
    → (k : String) (o : Outcome) → get c.idempotency k ≡ some o
    → get (store_outcome key made c.idempotency) k ≡ some o
unfolding stored_outcome store_outcome
store-keeps key made c new_key k o e =
    ground (arith, get-put c.idempotency key k made, eq_iff key k)

module _ (h : Hashes) where
  advance-Keeps :
      (table : String) (entry : Table) (key : String) (r : Receipt) (c : ReferenceCatalog)
      → stored_outcome key c ≡ none
      → Keeps c (advance h table entry key r c).1
  unfolding advance
  advance-Keeps table entry key r c new_key = record {
    receipts = recorded-put c (advance h table entry key r c).1 r refl;
    outcomes = store-keeps key (advance h table entry key r c).0 c new_key;
  }

  bury-Keeps :
      (table : String) (entry : Table) (r : Receipt) (c : ReferenceCatalog)
      → Keeps c (bury h table entry r c).1
  unfolding bury
  bury-Keeps table entry r c = record {
    receipts = recorded-put c (bury h table entry r c).1 r refl;
    outcomes = λ k o e. e;
  }

  commit_new-Keeps :
      (table expected update principal policy nonce key : String) (c : ReferenceCatalog)
      → stored_outcome key c ≡ none
      → Keeps c (commit_new h table expected update principal policy nonce key c).1
  unfolding commit_new
  commit_new-Keeps table expected update principal policy nonce key c new_key =
      elim (Option-cases (live table c)) [
        | inl missing ↦ rw (commit_new, missing) (Keeps-refl c)
        | inr (entry, alive) ↦ elim (Bool-cases (expected == entry.metadata)) [
          | inl same ↦ rw (commit_new, alive, same) (advance-Keeps table entry key _ c new_key)
          | inr stale ↦ rw (commit_new, alive, stale) (Keeps-refl c)
        ]
      ]

  commit-Keeps :
      (table expected update principal policy nonce key : String) (c : ReferenceCatalog)
      → Keeps c (Catalog.commit h table expected update principal policy nonce key c).1
  unfolding Catalog.commit
  commit-Keeps table expected update principal policy nonce key c =
      elim (Bool-cases (bad_text (update ∷ policy ∷ []))) [
        | inl long ↦ rw (Catalog.commit, long) (Keeps-refl c)
        | inr fits ↦ elim (Option-cases (stored_outcome key c)) [
          | inl new_key ↦
              rw (Catalog.commit, fits, new_key)
                (commit_new-Keeps table expected update principal policy nonce key c new_key)
          | inr (o, stored) ↦ rw (Catalog.commit, fits, stored) (Keeps-refl c)
        ]
      ]

  pub scan-same :
      (table principal policy : String) (c : ReferenceCatalog)
      → (Catalog.scan h table principal policy c).1 ≡ c
  unfolding Catalog.scan
  scan-same table principal policy c = elim (Option-cases (live table c)) [
    | inl missing ↦ rw (Catalog.scan, missing) refl
    | inr (entry, alive) ↦ rw (Catalog.scan, alive) refl
  ]

  tombstone-Keeps :
      (table principal policy nonce : String) (c : ReferenceCatalog)
      → Keeps c (Catalog.tombstone h table principal policy nonce c).1
  unfolding Catalog.tombstone
  tombstone-Keeps table principal policy nonce c = elim (Option-cases (live table c)) [
    | inl missing ↦ rw (Catalog.tombstone, missing) (Keeps-refl c)
    | inr (entry, alive) ↦ rw (Catalog.tombstone, alive) (bury-Keeps table entry _ c)
  ]

  answer-Keeps : (call : Call) (c : ReferenceCatalog) → Keeps c (answer h call c).1
  unfolding answer Catalog.create State.restart recorded
  answer-Keeps (create table principal) c = record { receipts = λ k e. e; outcomes = λ k o e. e }
  answer-Keeps (commit table expected update principal policy nonce key) c =
      commit-Keeps table expected update principal policy nonce key c
  answer-Keeps (scan table principal policy) c =
      rw (scan-same table principal policy c) (Keeps-refl c)
  answer-Keeps (tombstone table principal policy nonce) c =
      tombstone-Keeps table principal policy nonce c
  answer-Keeps Call.restart c = record { receipts = λ k e. e; outcomes = λ k o e. e }

  pub run-Keeps : (calls : List Call) (c : ReferenceCatalog) → Keeps c (run h calls c)
  unfolding run
  run-Keeps [] c = Keeps-refl c
  run-Keeps (call ∷ calls) c =
      let first = answer-Keeps call c in
      let rest = run-Keeps calls (answer h call c).1 in
      record {
        receipts = λ k e. rest.receipts k (first.receipts k e);
        outcomes = λ k o e. rest.outcomes k o (first.outcomes k o e);
      }
