-- ===== src/Catalog/Examples.antt =====
-- The theorems on the reference catalog at the seeded catalog of
-- docs/book/code/catalog-provenance/catalog_provenance/cases.py.
use adversarial_cognition.Prelude.{
  String, ◌≡◌, ◌≢◌, refl, false, none, some, List, [], ◌∷◌, arith, eq_iff, get, put, show,
}
use adversarial_cognition.Hashes.{plain}
use adversarial_cognition.Json.{dumps, dumps_items, dumps_fields}
use adversarial_cognition.Catalog.State.{
  Outcome, Table, ReferenceCatalog, bad_text, live, stored_outcome, store_outcome, empty, failed,
  recorded, pointer,
}
use adversarial_cognition.Catalog.Receipts.{Receipt, digest, policy_digest, sealed, receipt_hash_of}
use adversarial_cognition.Catalog.{
  create, commit, commit_new, commit_receipt, advance, bury, tombstone, tombstone_receipt, scan,
}
use adversarial_cognition.Catalog.Committing.{
  Committed, applied, commit_exact, second_writer_refused,
}
use adversarial_cognition.Catalog.Histories.{Call, run}
use adversarial_cognition.Catalog.Durable.{commit_retried}
use adversarial_cognition.Catalog.Dropping.{tombstone_final}
use adversarial_cognition.Catalog.Evidence.{IsSound, run-IsSound}

engine : Unit {0}
unfolding get put bad_text live stored_outcome store_outcome recorded digest policy_digest sealed
    receipt_hash_of create commit commit_new commit_receipt advance bury tombstone tombstone_receipt
    scan dumps dumps_items dumps_fields show pointer
engine = tt

abbrev events : String
events = "sales.events"

abbrev policy : String
policy = "read allowed for purpose analytics"

-- `_seeded`
abbrev seeded : ReferenceCatalog
seeded = (create plain events "did:key:operator" empty).1

abbrev head : String
head = pointer events seeded

abbrev entry : Table
entry = record { metadata = head; snapshot_id = 0; head_receipt = ""; tombstoned = false }

seeded-entry : live events seeded ≡ some entry
unfolding engine
seeded-entry = refl

abbrev first : Outcome × ReferenceCatalog
first = commit plain events head "u1" "did:key:w1" policy "n1" "job-1" seeded

abbrev receipt : Receipt
receipt = commit_receipt plain events entry head "u1" "did:key:w1" policy "n1" "job-1"

first_applied : first.0 ≡ applied plain receipt
unfolding engine
first_applied = refl

commit_exact_example :
    ((e : Table)
      → live events seeded ≡ some e
      → head ≡ e.metadata
      → (r : Receipt) × (first.0 ≡ applied plain r) × Committed plain events e r seeded first.1)
    × (((e : Table) → live events seeded ≡ some e → head ≢ e.metadata)
        → (first.0.ok ≡ false) × (first.1 ≡ seeded))
commit_exact_example =
    commit_exact plain events head "u1" "did:key:w1" policy "n1" "job-1" seeded
      (unfold engine in refl) (unfold engine in refl)

moved : receipt.new_metadata ≢ head
unfolding engine
moved = λ e. ground (arith, (eq_iff receipt.new_metadata head).1 e)

second_writer_refused_example :
    ((commit plain events head "u2" "did:key:w2" policy "n2" "job-2" first.1).0.ok ≡ false)
    × ((commit plain events head "u2" "did:key:w2" policy "n2" "job-2" first.1).1 ≡ first.1)
second_writer_refused_example =
    second_writer_refused plain events head "u1" "did:key:w1" policy "n1" "job-1" "u2" "did:key:w2"
      policy "n2" "job-2" seeded receipt first_applied (unfold engine in refl)
      (unfold engine in refl) (unfold engine in refl) (unfold engine in refl) moved

commit_retried_example :
    commit plain "other" "" "u2" "did:key:w2" policy "n2" "job-1"
      (run plain (Call.restart ∷ []) first.1)
    ≡ (first.0, run plain (Call.restart ∷ []) first.1)
commit_retried_example =
    commit_retried plain events head "u1" "did:key:w1" policy "n1" "job-1" "other" "" "u2"
      "did:key:w2" policy "n2" (Call.restart ∷ []) seeded (unfold engine in refl)
      (λ e. ground (arith, (eq_iff "job-1" "").1 e)) (unfold engine in refl) (unfold engine in refl)
      (unfold engine in refl)

abbrev dropped : Outcome × ReferenceCatalog
dropped = tombstone plain events "did:key:operator" policy "nd" seeded

abbrev afterwards : ReferenceCatalog
afterwards = run plain (Call.create "other" "did:key:operator" ∷ Call.restart ∷ []) dropped.1

tombstone_final_example :
    ((principal' policy' : String)
      → scan plain events principal' policy' afterwards ≡ (failed "no-such-table", afterwards))
    × ((principal' policy' nonce' : String)
        → tombstone plain events principal' policy' nonce' afterwards
          ≡ (failed "no-such-table", afterwards))
    × ((expected update principal' policy' nonce' key : String)
        → stored_outcome key afterwards ≡ none
        → ((commit plain events expected update principal' policy' nonce' key afterwards).0.ok
            ≡ false)
          × ((commit plain events expected update principal' policy' nonce' key afterwards).1
              ≡ afterwards))
tombstone_final_example =
    tombstone_final plain events "did:key:operator" policy "nd"
      (Call.create "other" "did:key:operator" ∷ Call.restart ∷ []) seeded (unfold engine in refl)
      (refl, tt)

empty-IsSound : IsSound plain empty
unfolding get
empty-IsSound = record {
  intact = λ k r e. absurd (ground arith);
  chained = λ k r e. absurd (ground arith);
  headed = λ t e known. absurd (ground arith);
  published = refl;
  derived = omega arith;
}

abbrev working : List Call
working =
    Call.create events "did:key:operator"
    ∷ Call.commit events head "u1" "did:key:w1" policy "n1" "job-1"
    ∷ Call.tombstone events "did:key:operator" policy "nd"
    ∷ Call.restart
    ∷ []

run-IsSound_example : IsSound plain (run plain working empty)
run-IsSound_example = run-IsSound plain working empty empty-IsSound
