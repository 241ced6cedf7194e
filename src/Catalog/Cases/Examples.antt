-- ===== src/Catalog/Cases/Examples.antt =====
-- The suite of docs/book/code/catalog-provenance/catalog_provenance/cases.py with digests that
-- separate its texts.
use adversarial_cognition.Prelude.{
  show, ℕ, String, ◌≡◌, ◌≢◌, ◌==◌, eq_iff, refl, true, false, eqb, ◌<>◌, len_text, Bool-cases, inl,
  inr, if◌then◌else◌,
}
use adversarial_cognition.Hashes.{Hashes, zero_byte}
use adversarial_cognition.Json.{dumps, array}
use adversarial_cognition.Catalog.{commit_receipt}
use adversarial_cognition.Catalog.Receipts.{domain, digest, policy_digest, receipt_hash_of, sealed}
use adversarial_cognition.Catalog.Cases.{hidden, within}
use adversarial_cognition.Catalog.Cases.Suite.{cases}
use adversarial_cognition.Catalog.Cases.Commits.{Separates}
use adversarial_cognition.Catalog.Cases.Passing.{PassesAll, reference-PassesAll}

-- A digest that tells three texts from all others by their lengths: the metadata of a new table, the
-- receipt of the first commit, and the policy.
abbrev mark : ℕ → String
mark n = if eqb n 58 then "1" else if eqb n 155 then "2" else if eqb n 41 then "3" else "0"

abbrev marks : Hashes
marks = record { sha256 = λ s. mark (len_text s); hmac_sha256 = λ _ _. ""; repr = λ s. s }

mark-hidden : (n : ℕ) → hidden ("sha256:" <> mark n) ≡ true
unfolding hidden within
mark-hidden n = elim (Bool-cases (eqb n 58)) [
  | inl one ↦ rw one refl
  | inr a ↦ elim (Bool-cases (eqb n 155)) [
    | inl two ↦ rw (a, two) refl
    | inr b ↦ elim (Bool-cases (eqb n 41)) [
      | inl three ↦ rw (a, b, three) refl
      | inr c ↦ rw (a, b, c) refl
    ]
  ]
]

differ : (s t : String) → (s == t) ≡ false → s ≢ t
differ s t f e = absurd (cc ((eq_iff s t).1 e, f))

marks-Separates : Separates marks
unfolding digest policy_digest receipt_hash_of commit_receipt sealed dumps show
marks-Separates = record {
  moved = (differ _ _ refl, (differ _ _ refl, (differ _ _ refl, tt)));
  unforged = differ _ _ refl;
  policies = differ _ _ refl;
  opaque = λ parts. mark-hidden (len_text (domain <> (zero_byte <> dumps "," ":" (array parts))));
}

reference-PassesAll_example : PassesAll marks (cases marks)
reference-PassesAll_example = reference-PassesAll marks marks-Separates
