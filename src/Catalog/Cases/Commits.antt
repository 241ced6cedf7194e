-- ===== src/Catalog/Cases/Commits.antt =====
-- The commits that the cases of the provenance benchmark make, and what they need of the digests.
use adversarial_cognition.Prelude.{
  String, ◌≡◌, ◌≢◌, refl, true, false, none, some, List, [], ◌∷◌, eq_refl, eqb_refl, get, put,
}
use adversarial_cognition.Prelude.Int.{pos}
use adversarial_cognition.Hashes.{Hashes}
use adversarial_cognition.Json.{Items, item, done, text, number}
use adversarial_cognition.Catalog.{create, commit, commit_new, commit_receipt, advance}
use adversarial_cognition.Catalog.State.{
  bad_text, live, pointer, recorded, stored_outcome, Table, Outcome, ReferenceCatalog, failed,
}
use adversarial_cognition.Catalog.Receipts.{
  Receipt, digest, policy_digest, receipt_hash_of, sealed, verifies,
}
use adversarial_cognition.Catalog.Committing.{commit_applies}
use adversarial_cognition.Catalog.Cases
use adversarial_cognition.Catalog.Cases.{seeded, forge, events, operator, policy, secret, hidden}
use adversarial_cognition.Cases.Passing.{ne→false}

-- The metadata of the table at its creation, and after a first commit
abbrev pub created : Items
created = item (text "meta") (item (text events) (item (number (pos 0)) done))

abbrev pub updated : String → Items
updated update =
    item (text "meta") (item (text events) (item (number (pos 1)) (item (text update) done)))

-- The table at its creation
abbrev pub start : Hashes → Table
start h = record {
  metadata = digest h created;
  snapshot_id = 0;
  head_receipt = "";
  tombstoned = false;
}

-- The receipt of a first commit
abbrev pub first_of : Hashes → String → String → String → String → Receipt
first_of h update principal nonce key =
    commit_receipt h events (start h) (digest h created) update principal policy nonce key

-- The catalog after it
abbrev pub after : Hashes → String → String → String → String → ReferenceCatalog
after h update principal nonce key =
    (advance h events (start h) key (first_of h update principal nonce key) (seeded h)).1

-- The receipt of the first commit of "u"
abbrev pub first_receipt : Hashes → Receipt
first_receipt h = first_of h "u" operator "n1" "job-1"

-- The digest of the new metadata is not that of the old one.
abbrev pub Moves : Hashes → List String → Type 0
Moves h [] = Unit
Moves h (update ∷ updates) = (digest h created ≢ digest h (updated update)) × Moves h updates

-- What the cases need of the digests: no collision between the texts that they compare, and nothing
-- of the secret in a digest.
pub record Separates (h : Hashes) : Type 0 where
  pub moved : Moves h ("add-snapshot" ∷ "u1" ∷ "a" ∷ [])
  pub unforged : receipt_hash_of h (forge (first_receipt h)) ≢ receipt_hash_of h (first_receipt h)
  pub policies : policy_digest h policy ≢ policy_digest h "some other policy"
  pub opaque : (parts : Items) → hidden (digest h parts) ≡ true

pub same_receipt_refl : (r : Receipt) → Cases.same_receipt r r ≡ true
same_receipt_refl r =
    rw
      (
        eq_refl, eq_refl, eq_refl, eq_refl, eqb_refl, eq_refl, eq_refl, eq_refl, eq_refl, eq_refl,
        eq_refl, eq_refl,
      )
      refl

module _ (h : Hashes) where
  pub first_applies :
      (update principal nonce key : String)
      → bad_text (update ∷ policy ∷ []) ≡ false
      → stored_outcome key (seeded h) ≡ none
      → commit h events (pointer events (seeded h)) update principal policy nonce key (seeded h)
        ≡ advance h events (start h) key (first_of h update principal nonce key) (seeded h)
  unfolding seeded create live pointer get put
  first_applies update principal nonce key fits new_key =
      commit_applies h events _ update principal policy nonce key _ (start h) fits new_key refl refl

  pub commit_refused :
      (expected update principal nonce key : String) (c : ReferenceCatalog) (entry : Table)
      → bad_text (update ∷ policy ∷ []) ≡ false
      → stored_outcome key c ≡ none
      → live events c ≡ some entry
      → expected ≢ entry.metadata
      → commit h events expected update principal policy nonce key c ≡ (failed "stale-metadata", c)
  unfolding commit commit_new
  commit_refused expected update principal nonce key c entry fits new_key alive stale =
      rw (fits, new_key, commit_new, alive, ne→false _ _ stale) refl

  pub commit_again :
      (expected update principal nonce key : String) (c : ReferenceCatalog) (o : Outcome)
      → bad_text (update ∷ policy ∷ []) ≡ false
      → stored_outcome key c ≡ some o
      → commit h events expected update principal policy nonce key c ≡ (o, c)
  unfolding commit
  commit_again expected update principal nonce key c o fits stored = rw (fits, stored) refl

  pub first_verified : verifies h (first_receipt h) ≡ true
  unfolding verifies sealed commit_receipt receipt_hash_of
  first_verified = eq_refl _

  pub first_recorded :
      recorded (first_receipt h).receipt_hash (after h "u" operator "n1" "job-1") ≡ true
  unfolding recorded advance get put seeded create
  first_recorded = rw (recorded, eq_refl) refl

  -- The commit that most of the cases make
  pub u_applies :
      commit h events (pointer events (seeded h)) "u" operator policy "n1" "job-1" (seeded h)
      ≡ advance h events (start h) "job-1" (first_receipt h) (seeded h)
  unfolding bad_text stored_outcome seeded create get
  u_applies = first_applies "u" operator "n1" "job-1" refl refl
