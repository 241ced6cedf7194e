-- ===== src/Capability/Minting.antt =====
-- Minting of docs/book/code/capability/capability_adversarial/backend.py: within the policy, and off
-- the wire only without other fields.
use adversarial_cognition.Prelude.{
  String, ◌≡◌, refl, sym, true, false, ◌≢◌, some, List, [], ◌∷◌, arith, get, contains,
  contains-subset, subset, Bool-cases, inl, inr, eq_iff,
}
use adversarial_cognition.Prelude.Int.{ℤ, pos, ◌<ℤ◌, ◌+ℤ◌, +ℤ_parts}
use adversarial_cognition.Hashes.{Hashes}
use adversarial_cognition.Capability.{Guard, next_id, mint, minted, or_empty}
use adversarial_cognition.Capability.Sealing.{Capability, refused, seal_of, sealed}
use adversarial_cognition.Capability.Wire.{Request, request, mint_request, or_default}
use adversarial_cognition.Capability.Narrowing.{contains-sorted_grants}
use adversarial_cognition.Capability.Authority.{IsValid}

-- What the policy lets the subject hold on the resource.
abbrev pub allowance : Guard → String → String → List String
allowance g subject resource = or_empty (get (or_empty (get g.policy subject)) resource)

subset_of :
    (xs ys : List String)
    → ((x : String) → contains x xs ≡ true → contains x ys ≡ true)
    → subset xs ys ≡ true
subset_of [] ys h = refl
subset_of (x ∷ xs) ys h =
    rw (h x (ground (arith, eq_iff x x))) (subset_of xs ys (λ y e. h y (ground arith)))

not-subset :
    (xs ys : List String) (x : String)
    → contains x xs ≡ true
    → contains x ys ≡ false
    → subset xs ys ≡ false
not-subset xs ys x e m = elim (Bool-cases (subset xs ys)) [
  | inl all_in ↦ absurd (let held = contains-subset x xs ys all_in e in cc)
  | inr some_out ↦ some_out
]

module _ (h : Hashes) where
  -- `c` is what the call of `mint` asks for.
  pub record Minted (c : Capability) (subject : String) (grants : List String)
      (resource operation : String) (lease : ℤ) (g g' : Guard) : Type 0 where
    pub holder : c.subject ≡ subject
    pub bound : c.resource ≡ resource
    pub purpose : c.operation ≡ operation
    pub held : (x : String) → contains x c.grants ≡ contains x grants
    pub expiry : c.expiry ≡ g.now +ℤ lease
    pub valid : contains c.cap_id g'.revoked ≡ false → pos 0 <ℤ lease → IsValid h g' c

  mint_denied :
      (subject : String) (grants : List String) (resource operation : String) (lease : ℤ)
      (g : Guard)
      → subset grants (allowance g subject resource) ≡ false
      → (mint h subject grants resource operation lease g).0 ≡ refused "policy-denied" true
  unfolding mint
  mint_denied subject grants resource operation lease g e = rw e

  seal-sealed : (c : Capability) → seal_of h (sealed h c) ≡ seal_of h c
  unfolding sealed seal_of
  seal-sealed c = refl

  minted-Minted :
      (cap_id subject : String) (grants : List String) (resource operation : String) (lease : ℤ)
      (g g' : Guard)
      → g'.now ≡ g.now
      → g'.min_epoch ≡ g.min_epoch
      → Minted
          (minted h cap_id subject grants resource operation lease g)
          subject
          grants
          resource
          operation
          lease
          g
          g'
  unfolding minted
  minted-Minted cap_id subject grants resource operation lease g g' same_now same_epoch = record {
    holder = refl;
    bound = refl;
    purpose = refl;
    held = λ x. contains-sorted_grants x grants;
    expiry = refl;
    valid = λ kept runs. record {
      sealed = sym (seal-sealed _);
      kept = kept;
      epoch = omega arith;
      leased = rw same_now (omega (arith, +ℤ_parts g.now lease));
    };
  }

  mint_granted :
      (subject : String) (grants : List String) (resource operation : String) (lease : ℤ)
      (g : Guard)
      → subset grants (allowance g subject resource) ≡ true
      → ((mint h subject grants resource operation lease g).0.ok ≡ true)
        × ((mint h subject grants resource operation lease g).0.capability
            ≡ some (minted h (next_id g).0 subject grants resource operation lease g))
        × ((mint h subject grants resource operation lease g).1.now ≡ g.now)
        × ((mint h subject grants resource operation lease g).1.min_epoch ≡ g.min_epoch)
  unfolding mint
  mint_granted subject grants resource operation lease g e = rw e (refl, refl, refl, refl)

  -- A mint whose grants are all in the policy of the subject on the resource yields a capability
  -- with exactly these grants, for the subject, the resource and the operation, which is valid
  -- at once if its identifier is not revoked and its lease is positive. Any other mint is denied and
  -- yields none.
  pub mint_exact :
      (subject : String) (grants : List String) (resource operation : String) (lease : ℤ)
      (g : Guard)
      → (((x : String)
            → contains x grants ≡ true
            → contains x (allowance g subject resource) ≡ true)
          → ((mint h subject grants resource operation lease g).0.ok ≡ true)
            × ((c : Capability) × ((mint h subject grants resource operation lease g).0.capability
                  ≡ some c)
                × Minted c subject grants resource operation lease g
                    (mint h subject grants resource operation lease g).1))
        × ((x : String)
            → contains x grants ≡ true
            → contains x (allowance g subject resource) ≡ false
            → (mint h subject grants resource operation lease g).0 ≡ refused "policy-denied" true)
  mint_exact subject grants resource operation lease g = (
    λ within.
        let (ok, made, now, epoch) =
          mint_granted subject grants resource operation lease g
            (subset_of grants (allowance g subject resource) within) in
        (
          ok,
          (
            minted h (next_id g).0 subject grants resource operation lease g,
            made,
            minted-Minted (next_id g).0 subject grants resource operation lease g
                (mint h subject grants resource operation lease g).1 now epoch,
          ),
        ),
    λ x asked missing.
        mint_denied subject grants resource operation lease g
          (not-subset grants (allowance g subject resource) x asked missing),
  )

  -- A request with a field that is not known is refused as such, and no identifier is used up for
  -- it. One without, that has a subject, grants and a resource, is answered as `mint` answers, with
  -- the default operation and lease where it has none.
  pub request_gate :
      (payload : Request) (g : Guard)
      → (payload.extra ≢ []
          → ((request h payload g).0 ≡ some (refused "unknown-fields" true))
            × ((request h payload g).1.n ≡ g.n))
        × ((subject : String) (grants : List String) (resource : String)
            → payload.extra ≡ []
            → payload.subject ≡ some subject
            → payload.grants ≡ some grants
            → payload.resource ≡ some resource
            → ((request h payload g).0
                ≡ some
                    (mint h subject grants resource
                      (or_default "" payload.operation)
                      (or_default (pos 100) payload.lease)
                      g).0)
              × ((request h payload g).1
                  ≡ (mint h subject grants resource
                      (or_default "" payload.operation)
                      (or_default (pos 100) payload.lease)
                      g).1))
  unfolding request mint_request
  request_gate payload g = (
    λ e. (ground arith, ground arith),
    λ subject grants resource none_else s gs r.
        (rw (none_else, s, gs, r), rw (none_else, s, gs, r)),
  )
