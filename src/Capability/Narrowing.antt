-- ===== src/Capability/Narrowing.antt =====
-- Attenuation of docs/book/code/capability/capability_adversarial/backend.py: a derived capability
-- is narrower than its parent.
use adversarial_cognition.Prelude.{
  ℕ, String, ◌≡◌, refl, Bool, true, ◌||◌, Option, none, some, List, [], ◌∷◌, arith, ◌==◌, eq_iff,
  all, contains, text_le, Bool-cases, inl, inr,
}
use adversarial_cognition.Prelude.Sorting
use adversarial_cognition.Prelude.Int.{ℤ, pos, negsuc, ◌≤ℤ◌}
use adversarial_cognition.Hashes.{Hashes}
use adversarial_cognition.Capability.{
  Guard, verify, attenuate, attenuate_valid, derive, or_all, new_expiry, next_id,
}
use adversarial_cognition.Capability.Grants.{
  read_level, read_ceiling, ceiling_from, grant_implied, max_level, implied_by, unique,
  sorted_grants,
}
use adversarial_cognition.Capability.Sealing.{Capability}

contains-insert :
    (x y : String) (ys : List String)
    → contains x (Sorting.insert text_le y ys) ≡ (y == x || contains x ys)
unfolding Sorting.insert
contains-insert x y [] = refl
contains-insert x y (z ∷ zs) = ground (arith, contains-insert x y zs)

contains-sort :
    (x : String) (ys : List String) → contains x (Sorting.sort text_le ys) ≡ contains x ys
unfolding Sorting.sort
contains-sort x [] = refl
contains-sort x (y ∷ ys) =
    ground (arith, contains-insert x y (Sorting.sort text_le ys), contains-sort x ys)

contains-unique : (x : String) (ys : List String) → contains x (unique ys) ≡ contains x ys
unfolding unique
contains-unique x [] = refl
contains-unique x (y ∷ ys) = ground (arith, eq_iff y x, contains-unique x ys, contains-unique y ys)

pub contains-sorted_grants :
    (x : String) (ys : List String) → contains x (sorted_grants ys) ≡ contains x ys
unfolding sorted_grants
contains-sorted_grants x ys = rw (contains-sort x (unique ys), contains-unique x ys)

all-contains :
    (p : String → Bool) (xs : List String) (x : String)
    → all p xs ≡ true
    → contains x xs ≡ true
    → p x ≡ true
all-contains p [] x h e = cc
all-contains p (y ∷ ys) x h e = elim (Bool-cases (y == x)) [
  | inl here ↦ rw (← ((eq_iff y x).0 here)) (ground arith)
  | inr later ↦ all-contains p ys x (ground arith) (ground arith)
]

-- A level is at most `B`.
abbrev AtMost : ℤ → Option ℕ → Type 0
AtMost B none = Unit
AtMost B (some l) = pos l ≤ℤ B

max_level-le : (B best : ℤ) (o : Option ℕ) → best ≤ℤ B → AtMost B o → max_level best o ≤ℤ B
max_level-le B best none b h = b
max_level-le B best (some l) b h = ground arith

le-max_level : (best : ℤ) (o : Option ℕ) → best ≤ℤ max_level best o
le-max_level best none = omega arith
le-max_level best (some l) = ground arith

≤ℤ_trans : (a b c : ℤ) → a ≤ℤ b → b ≤ℤ c → a ≤ℤ c
≤ℤ_trans a b c h k = omega arith

ceiling_from-le :
    (B best : ℤ) (gs : List String)
    → best ≤ℤ B
    → ((g : String) → contains g gs ≡ true → AtMost B (read_level g))
    → ceiling_from best gs ≤ℤ B
unfolding ceiling_from
ceiling_from-le B best [] b h = b
ceiling_from-le B best (g ∷ gs) b h =
    ceiling_from-le B (max_level best (read_level g)) gs
      (max_level-le B best (read_level g) b (h g (ground (arith, eq_iff g g))))
      (λ x e. h x (ground arith))

le-ceiling_from : (best : ℤ) (gs : List String) → best ≤ℤ ceiling_from best gs
unfolding ceiling_from
le-ceiling_from best [] = omega arith
le-ceiling_from best (g ∷ gs) =
    ≤ℤ_trans best (max_level best (read_level g)) (ceiling_from (max_level best (read_level g)) gs)
      (le-max_level best (read_level g)) (le-ceiling_from (max_level best (read_level g)) gs)

implied-AtMost :
    (held : List String) (g : String) (o : Option ℕ)
    → implied_by held g o ≡ true
    → AtMost (read_ceiling held) o
implied-AtMost held g none h = tt
implied-AtMost held g (some l) h = ground arith

-- Grants that are all implied by others have no higher ceiling.
pub read_ceiling_mono :
    (held grants : List String)
    → ((g : String) → contains g grants ≡ true → grant_implied held g ≡ true)
    → read_ceiling grants ≤ℤ read_ceiling held
read_ceiling_mono held grants h =
    unfold read_ceiling in
    ceiling_from-le (read_ceiling held) (negsuc 0) grants (le-ceiling_from (negsuc 0) held)
      (λ g e. unfold grant_implied in implied-AtMost held g (read_level g) (h g e))

-- `d` carries no more authority than `c`.
pub record Narrower (d c : Capability) : Type 0 where
  pub subject : d.subject ≡ c.subject
  pub resource : d.resource ≡ c.resource
  pub operation : d.operation ≡ c.operation
  pub epoch : d.epoch ≡ c.epoch
  pub expiry : d.expiry ≤ℤ c.expiry
  pub implied : (g : String) → contains g d.grants ≡ true → grant_implied c.grants g ≡ true
  pub ceiling : read_ceiling d.grants ≤ℤ read_ceiling c.grants

module _ (h : Hashes) where
  derive-Narrower :
      (cap : Capability) (cap_id : String) (grants : List String) (expiry : ℤ)
      → all (grant_implied cap.grants) grants ≡ true
      → expiry ≤ℤ cap.expiry
      → Narrower (derive h cap cap_id grants expiry) cap
  unfolding derive
  derive-Narrower cap cap_id grants expiry implied within =
      let each = λ (g : String) (e : contains g (sorted_grants grants) ≡ true).
        all-contains (grant_implied cap.grants) grants g implied
          (rw (contains-sorted_grants g grants) at e) in
      record {
        subject = refl;
        resource = refl;
        operation = refl;
        epoch = refl;
        expiry = within;
        implied = each;
        ceiling = read_ceiling_mono cap.grants (sorted_grants grants) each;
      }

  attenuates :
      (cap : Capability) (grants : Option (List String)) (lease : Option ℤ) (g : Guard)
      (d : Capability)
      → (attenuate h (some cap) grants lease g).0.capability ≡ some d
      → (verify h g cap ≡ true)
        × (all (grant_implied cap.grants) (or_all cap.grants grants) ≡ true)
        × (new_expiry g.now cap.expiry lease ≤ℤ cap.expiry)
        × (d
            ≡ derive h cap
                (next_id g).0
                (or_all cap.grants grants)
                (new_expiry g.now cap.expiry lease))
  unfolding attenuate attenuate_valid
  attenuates cap grants lease g d e = (ground arith, ground arith, ground arith, ground arith)

  -- A capability that `attenuate` derives from another, whatever the guard, has the subject, the
  -- resource, the operation and the epoch of the other, expires no later, carries only grants that
  -- the other's imply, and reads no level above it; the other verified.
  pub attenuate-Narrower :
      (cap : Capability) (grants : Option (List String)) (lease : Option ℤ) (g : Guard)
      (d : Capability)
      → (attenuate h (some cap) grants lease g).0.capability ≡ some d
      → (verify h g cap ≡ true) × Narrower d cap
  attenuate-Narrower cap grants lease g d e =
      let (valid, implied, within, same) = attenuates cap grants lease g d e in
      (
        valid,
        rw same (
            derive-Narrower cap (next_id g).0 (or_all cap.grants grants)
              (new_expiry g.now cap.expiry lease) implied within),
      )
