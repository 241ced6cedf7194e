-- ===== src/Catalog/Cases.antt =====
-- docs/book/code/catalog-provenance/catalog_provenance/cases.py: the cases of the provenance
-- benchmark as functions of the catalog. `none` is an exception: an attribute of None.
pub mod Suite
pub mod Commits
pub mod Passing
mod Examples
use adversarial_cognition.Prelude.{
  ℕ, ◌+◌, String, Bool, true, false, not, ◌&&◌, ◌||◌, Option, none, some, List, [], ◌∷◌, ◌++◌, ◌<>◌,
  all, ◌==◌, eqb, if◌then◌else◌, length, Dict,
}
use adversarial_cognition.Hashes.{Hashes}
use adversarial_cognition.Catalog.{create, commit, scan, tombstone, replay}
use adversarial_cognition.Catalog.State.{Outcome, ReferenceCatalog, empty, pointer, restart}
use adversarial_cognition.Catalog.Receipts.{
  Receipt, ScanReceipt, policy_digest, verifies, scan_verifies,
}

abbrev pub events : String
events = "sales.events"

abbrev pub operator : String
operator = "did:key:operator"

abbrev pub policy : String
policy = "read allowed for purpose analytics"

abbrev pub secret : String
secret = "s3://warehouse/secret-location/AKIAEXAMPLE"

-- part in text
abbrev starts : String → String → Bool
starts String.[] s = true
starts (String.◌∷◌ c p) String.[] = false
starts (String.◌∷◌ c p) (String.◌∷◌ d s) =
    let rest = starts p s in String.◌∷◌ c String.[] == String.◌∷◌ d String.[] && rest

unfoldable pub within : String → String → Bool
within part String.[] = starts part String.[]
within part (String.◌∷◌ c s) = let rest = within part s in starts part (String.◌∷◌ c s) || rest

-- "AKIA" not in b and "secret-location" not in b
unfoldable pub hidden : String → Bool
unfolding within
hidden b = not (within "AKIA" b) && not (within "secret-location" b)

-- The equality of the receipts
abbrev pub same_receipt : Receipt → Receipt → Bool
same_receipt r s =
    r.table == s.table
    && r.op == s.op
    && r.previous_metadata == s.previous_metadata
    && r.new_metadata == s.new_metadata
    && eqb r.snapshot_id s.snapshot_id
    && r.principal == s.principal
    && r.policy_hash == s.policy_hash
    && r.idempotency_key == s.idempotency_key
    && r.request_hash == s.request_hash
    && r.response_hash == s.response_hash
    && r.prev_receipt == s.prev_receipt
    && r.receipt_hash == s.receipt_hash

abbrev pub same_receipts : Option Receipt → Option Receipt → Bool
same_receipts none none = true
same_receipts (some r) (some s) = same_receipt r s
same_receipts _ _ = false

abbrev present : {A : Type 0} → Option A → Bool
present none = false
present (some _) = true

-- An attribute of what may be None
abbrev of : {A : Type 0} → Option A → (A → Bool) → Option Bool
of none f = none
of (some a) f = some (f a)

-- The first test, and the second where the first holds
abbrev and_then : Bool → Option Bool → Option Bool
and_then false next = some false
and_then true next = next

abbrev zeros : String
zeros = "0000000000000000000000000000000000000000000000000000000000000000"

abbrev pub forge : Receipt → Receipt
forge r = record r { response_hash = "sha256:" <> zeros }

abbrev new_metadata : Dict Receipt → List String
new_metadata [] = []
new_metadata ((_, r) ∷ d) = r.new_metadata ∷ new_metadata d

-- Whether a list has grown by one
abbrev one_more : List String → List String → Bool
one_more before after = eqb (length after) (length before + 1)

module _ (h : Hashes) where
  -- `_seeded`
  unfoldable pub seeded : ReferenceCatalog
  seeded = (create h events operator empty).1

  -- A commit of the operator under the policy
  abbrev pub add : String → String → String → String → ReferenceCatalog → Outcome × ReferenceCatalog
  add expected update nonce key = commit h events expected update operator policy nonce key

  -- The commit that most of the cases begin with
  abbrev pub first_commit : String → ReferenceCatalog → Outcome × ReferenceCatalog
  first_commit update c = add (pointer events c) update "n1" "job-1" c

  unfoldable pub commit_fresh : ReferenceCatalog → Option Bool
  unfolding pointer
  commit_fresh c =
      let (out, c') = first_commit "add-snapshot" c in
      some (out.ok && present out.receipt && not (pointer events c' == pointer events c))

  unfoldable pub cas_stale_rejected : ReferenceCatalog → Option Bool
  unfolding pointer
  cas_stale_rejected c =
      let c' = (first_commit "u1" c).1 in
      let out = (add (pointer events c) "u2" "n2" "job-2" c').0 in
      some (not out.ok && out.error == "stale-metadata")

  unfoldable pub cas_concurrent : ReferenceCatalog → Option Bool
  unfolding pointer
  cas_concurrent c =
      let head = pointer events c in
      let (a, c') = commit h events head "a" "did:key:w1" policy "na" "job-a" c in
      let b = (commit h events head "b" "did:key:w2" policy "nb" "job-b" c').0 in
      some (a.ok && not b.ok)

  unfoldable pub idempotent_retry : ReferenceCatalog → Option Bool
  unfolding pointer
  idempotent_retry c =
      let head = pointer events c in
      let (first, c') = add head "u" "n1" "job-k" c in
      let (second, c'') = add head "u" "n2" "job-k" c' in
      some (
        first.ok
        && second.ok
        && same_receipts first.receipt second.receipt
        && pointer events c'' == pointer events c')

  unfoldable pub durable_audit : ReferenceCatalog → Option Bool
  unfolding pointer
  durable_audit c =
      let (out, c') = first_commit "u" c in
      some (out.ok && out.audit_present && one_more c.audit c'.audit)

  unfoldable pub outbox_atomic_present : ReferenceCatalog → Option Bool
  unfolding pointer
  outbox_atomic_present c =
      let (out, c') = first_commit "u" c in
      some (out.ok && out.outbox_present && one_more c.outbox c'.outbox)

  unfoldable pub outbox_absent_on_reject : ReferenceCatalog → Option Bool
  unfolding pointer
  outbox_absent_on_reject c =
      let c' = (first_commit "u1" c).1 in
      let (rejected, c'') = add (pointer events c) "u2" "n2" "job-2" c' in
      some (not rejected.ok && eqb (length c''.outbox) (length c'.outbox))

  unfoldable pub replay_verifies : ReferenceCatalog → Option Bool
  unfolding pointer
  replay_verifies c =
      let (out, c') = first_commit "u" c in and_then out.ok (of out.receipt (λ r. replay h r c'))

  unfoldable pub replay_forged_rejected : ReferenceCatalog → Option Bool
  unfolding pointer
  replay_forged_rejected c =
      let (out, c') = first_commit "u" c in
      of out.receipt (λ r. out.ok && not (verifies h (forge r)) && not (replay h (forge r) c'))

  unfoldable pub governed_scan_receipt : ReferenceCatalog → Option Bool
  unfolding pointer
  governed_scan_receipt c =
      let out = (scan h events operator policy (first_commit "u" c).1).0 in
      and_then (out.ok && present out.scan_receipt)
        (of out.scan_receipt (λ r. scan_verifies h r (policy_digest h policy ∷ [])))

  unfoldable pub governed_scan_mismatch_rejected : ReferenceCatalog → Option Bool
  governed_scan_mismatch_rejected c =
      let out = (scan h events operator policy c).0 in
      and_then out.ok (
        of out.scan_receipt
          (λ r. not (scan_verifies h r (policy_digest h "some other policy" ∷ []))))

  unfoldable pub receipt_chain_linked : ReferenceCatalog → Option Bool
  unfolding pointer
  receipt_chain_linked c =
      let (first, c') = first_commit "u1" c in
      let second = (add (pointer events c') "u2" "n2" "job-2" c').0 in
      and_then (first.ok && second.ok) (elim second.receipt [
        | none ↦ none
        | some s ↦ of first.receipt (λ r. s.prev_receipt == r.receipt_hash)
      ])

  unfoldable pub tombstone_covered : ReferenceCatalog → Option Bool
  unfolding pointer
  tombstone_covered c =
      let out = (tombstone h events operator policy "nd" (first_commit "u" c).1).0 in
      and_then (out.ok && present out.receipt) (of out.receipt (λ r. r.op == "tombstone"))

  unfoldable pub hash_only_audit : ReferenceCatalog → Option Bool
  unfolding pointer hidden
  hash_only_audit c =
      let (out, c') = first_commit secret c in
      some
        (out.ok && all hidden (c'.audit ++ (c'.outbox ++ (c'.lineage ++ new_metadata c'.receipts))))

  unfoldable pub lineage_emitted : ReferenceCatalog → Option Bool
  unfolding pointer
  lineage_emitted c =
      let (out, c') = first_commit "u" c in
      some (out.ok && out.lineage_present && one_more c.lineage c'.lineage)

  unfoldable pub restart_reproducible : ReferenceCatalog → Option Bool
  unfolding pointer restart
  restart_reproducible c =
      let (out, c') = first_commit "u" c in
      and_then out.ok (of out.receipt (λ r. replay h r (restart c')))

  unfoldable pub idempotent_across_restart : ReferenceCatalog → Option Bool
  unfolding pointer restart
  idempotent_across_restart c =
      let head = pointer events c in
      let (first, c') = add head "u" "n1" "job-k" c in
      let second = (add head "u" "n2" "job-k" (restart c')).0 in
      some (first.ok && second.ok && same_receipts first.receipt second.receipt)
