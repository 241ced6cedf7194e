-- ===== src/Protocol.antt =====
-- adapters/protocol.py: the interface through which an adapter drives a memory system. The system
-- is not part of the repository: it is a state, and operations that answer, raise `Unsupported`
-- or raise another exception, and change the state in any case.
pub mod Seeding
pub mod Scenarios
pub mod Driver
pub mod Attempts
pub mod Credits
pub mod Bounds
pub mod Independence
pub mod Simulation
pub mod Second
mod Examples
use adversarial_cognition.Prelude.{
  String, Bool, Option, none, List, [], if◌then◌else◌, false, ◌≡◌, refl, ◌⊎◌, inl, inr,
}
use adversarial_cognition.Vault.{Date, date}

-- What a call comes to. `failed` holds the first 200 characters of the exception's name and text.
pub data Answer (A : Type 0) : Type 0 where
  value : A → Answer A
  unsupported : Answer A
  failed : String → Answer A

abbrev pub Call : Type 0 → Type 0 → Type 0
Call S A = S → Answer A × S

abbrev pub pure : {S A : Type 0} → A → Call S A
pure a s = (value a, s)

-- An exception ends the block.
abbrev pub continue : {S A B : Type 0} → (A → Call S B) → Answer A × S → Answer B × S
continue k (value a, s) = k a s
continue k (unsupported, s) = (unsupported, s)
continue k (failed e, s) = (failed e, s)

infixl 5 ◌>>=◌ ◌>>◌
abbrev pub ◌>>=◌ : {S A B : Type 0} → Call S A → (A → Call S B) → Call S B
◌>>=◌ m k s = continue k (m s)

abbrev pub ◌>>◌ : {S A B : Type 0} → Call S A → Call S B → Call S B
◌>>◌ m k s = continue (λ _. k) (m s)

-- The arguments of `remember` that have a default.
pub record Extra : Type 0 where
  pub valid_from : Option Date
  pub valid_until : Option Date
  pub private : Bool
  pub nonce : Option String
  pub supersedes : Option String
  pub derived_from : List String

abbrev pub plainly : Extra
plainly = record {
  valid_from = none;
  valid_until = none;
  private = false;
  nonce = none;
  supersedes = none;
  derived_from = [];
}

pub record MemorySystem (S : Type 0) : Type 0 where
  pub name : String
  pub version : String
  pub capabilities : List String
  pub interface : String
  pub reset : Call S (Unit {0})
  -- memory_id, text, principal
  pub remember : String → String → String → Extra → Call S Bool
  -- query, principal, as_of
  pub recall : String → String → Option Date → Call S (List String)
  -- memory_id, principal
  pub forget : String → String → Call S Bool
  -- memory_id, replacement_id, text, principal, expected_source_digest, idempotency_key
  pub improve : String → String → String → String → String → String → Call S Bool
  pub restart : Call S (Unit {0})

pub record Outcome : Type 0 where
  pub allowed : Bool
  pub ids : List String

abbrev pub outcome : Bool → List String → Outcome
outcome allowed ids = record { allowed = allowed; ids = ids }

abbrev pub as_of_now : Date
as_of_now = date 2026 2 1

abbrev pub as_of_past : Date
as_of_past = date 2025 12 1

-- To split on what a call comes to.
pub Answer-cases :
    {A S : Type 0} (r : Answer A × S)
    → ((a : A) × (s : S) × (r ≡ (value a, s)))
      ⊎ (((s : S) × (r ≡ (unsupported, s))) ⊎ ((e : String) × (s : S) × (r ≡ (failed e, s))))
Answer-cases (value a, s) = inl (a, s, refl)
Answer-cases (unsupported, s) = inr (inl (s, refl))
Answer-cases (failed e, s) = inr (inr (e, s, refl))

-- Inversion of a block that returns.
pub >>=-eq-value :
    {S A B : Type 0} (m : Call S A) (k : A → Call S B) {s u : S} {b : B}
    → (m >>= k) s ≡ (value b, u)
    → (a : A) × (t : S) × (m s ≡ (value a, t)) × (k a t ≡ (value b, u))
>>=-eq-value m k {s} e = elim (Answer-cases (m s)) [
  | inl (a, t, p) ↦ (a, t, p, rw p at e)
  | inr (inl (t, p)) ↦ absurd (cc (rw p at e))
  | inr (inr (d, t, p)) ↦ absurd (cc (rw p at e))
]
