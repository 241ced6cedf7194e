-- ===== src/Identity.antt =====
-- adversarial_cognition/identity.py: identities that are registered with the backend, and their
-- credentials.
use adversarial_cognition.Prelude.{
  ℕ, String, ◌≡◌, refl, Bool, true, false, ◌&&◌, ◌↔◌, Option, none, some, List, [], ◌∷◌, arith, ltb,
  if◌then◌else◌, ◌==◌, eq_iff, eq_refl, Dict, get, put, get-put, codes, Option-cases, inl, inr,
}
use adversarial_cognition.Hashes.{Hashes}

abbrev pub benchmark_identity_key : String
benchmark_identity_key = "marciana-adversarial-v2-identity"

pub record IdentityRecord : Type 0 where
  pub did : String
  pub tenant : String
  pub space : String
  pub purpose : String
  pub clearance : ℕ
  pub can_mutate : Bool

-- IdentityRecord(did), with the defaults of the class
abbrev pub identity : String → IdentityRecord
identity did = record {
  did = did;
  tenant = "agstack";
  space = "coffee";
  purpose = "market-research";
  clearance = 1;
  can_mutate = true;
}

pub record Session : Type 0 where
  pub holder : IdentityRecord

pub record IdentityRegistry : Type 0 where
  pub key : String
  pub records : Dict IdentityRecord

abbrev pub empty : IdentityRegistry
empty = record { key = benchmark_identity_key; records = [] }

abbrev ascii : List ℕ → Bool
ascii [] = true
ascii (c ∷ cs) = ltb c 128 && ascii cs

unfoldable pub is_ascii : String → Bool
is_ascii s = ascii (codes s)

-- hmac.compare_digest of two texts: a TypeError, `none`, unless both are ASCII
unfoldable pub compare_digest : String → String → Option Bool
compare_digest a b = if is_ascii a && is_ascii b then some (a == b) else none

module _ (h : Hashes) where
  -- `_credential`
  unfoldable pub credential_of : String → IdentityRegistry → String
  credential_of did r = h.hmac_sha256 r.key did

  unfoldable pub register : IdentityRecord → IdentityRegistry → String × IdentityRegistry
  register holder r =
      let r' : IdentityRegistry = record r { records = put r.records holder.did holder } in
      (credential_of holder.did r', r')

  -- The session of a comparison of credentials
  abbrev session_if : IdentityRecord → Option Bool → Option (Option Session)
  session_if holder none = none
  session_if holder (some true) = some (some (record { holder = holder }))
  session_if holder (some false) = some none

  -- `authenticate`: the outer `none` is the TypeError, the inner one None.
  unfoldable pub authenticate : String → String → IdentityRegistry → Option (Option Session)
  unfolding compare_digest
  authenticate did credential r = elim (get r.records did) [
    | none ↦ some none
    | some holder ↦ session_if holder (compare_digest (credential_of did r) credential)
  ]

  -- The caller has shown the credential of the identity that is registered under its DID.
  pub record Authentic (did credential : String) (r : IdentityRegistry) (holder : IdentityRecord)
      : Type 0 where
    pub registered : get r.records did ≡ some holder
    pub own : credential ≡ credential_of did r
    pub ascii : is_ascii credential ≡ true

  Authentic→session :
      (did credential : String) (r : IdentityRegistry) (holder : IdentityRecord)
      → Authentic did credential r holder
      → authenticate did credential r ≡ some (some (record { holder = holder }))
  unfolding authenticate
  Authentic→session did credential r holder a =
      let registered = a.registered in
      let own = a.own in let plain = a.ascii in ground (arith, eq_refl credential)

  session→Authentic :
      (did credential : String) (r : IdentityRegistry) (holder : IdentityRecord)
      → authenticate did credential r ≡ some (some (record { holder = holder }))
      → Authentic did credential r holder
  unfolding authenticate
  session→Authentic did credential r holder e = record {
    registered = ground arith;
    own = ground (arith, eq_iff (credential_of did r) credential);
    ascii = ground arith;
  }

  -- A session is given exactly to the credential of the identity that is registered under the DID,
  -- and it is that identity's. Authentication raises only for a registered DID, and only if one of
  -- the two texts it compares is not ASCII.
  pub authenticate_exact :
      (did credential : String) (r : IdentityRegistry)
      → ((holder : IdentityRecord)
          → (authenticate did credential r ≡ some (some (record { holder = holder })))
            ↔ Authentic did credential r holder)
        × (authenticate did credential r ≡ none
            → ((holder : IdentityRecord) × (get r.records did ≡ some holder))
              × ((is_ascii (credential_of did r) && is_ascii credential) ≡ false))
  unfolding authenticate
  authenticate_exact did credential r = (
    λ holder.
        (session→Authentic did credential r holder, Authentic→session did credential r holder),
    λ e. elim (Option-cases (get r.records did)) [
      | inl missing ↦ ground arith
      | inr found ↦ (found, ground arith)
    ],
  )

  -- The credential that `register` returns authenticates the identity that was registered, if it is
  -- ASCII; and the registration changes the authentication of no other DID.
  pub register_authenticates :
      (holder : IdentityRecord) (r : IdentityRegistry)
      → (is_ascii (register holder r).0 ≡ true
          → authenticate holder.did (register holder r).0 (register holder r).1
            ≡ some (some (record { holder = holder })))
        × ((did credential : String)
            → (holder.did == did) ≡ false
            → authenticate did credential (register holder r).1 ≡ authenticate did credential r)
  unfolding register authenticate credential_of
  register_authenticates holder r = (
    λ plain. ground (
      arith,
      eq_refl holder.did,
      eq_refl (h.hmac_sha256 r.key holder.did),
      get-put r.records holder.did holder.did holder,
    ),
    λ did credential other. rw (authenticate, get-put r.records holder.did did holder, other) refl,
  )
