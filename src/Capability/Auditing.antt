-- ===== src/Capability/Auditing.antt =====
-- The audit log of docs/book/code/capability/capability_adversarial/backend.py.
use adversarial_cognition.Prelude.{
  ℕ, ◌+◌, String, ◌≡◌, refl, Bool, true, false, Option, none, some, List, [], ◌∷◌, arith, length,
  length-append, ◌++◌, ◌&&◌, ◌==◌,
}
use adversarial_cognition.Prelude.Int.{ℤ}
use adversarial_cognition.Hashes.{Hashes}
use adversarial_cognition.Capability.{
  Guard, verify, verify?, mint, attenuate, attenuate_valid, reveal, declassify, invoke,
}
use adversarial_cognition.Capability.Sealing.{Capability, SecureValue, Outcome}

-- One event where the outcome says that there is one, and else none.
abbrev events : Bool → ℕ
events true = 1
events false = 0

-- The log has grown by what the outcome says.
abbrev pub Logged : Outcome → Guard → Guard → Type 0
Logged o g g' = length g'.audit ≡ length g.audit + events o.audit_present

one_more : (log : List String) (entry : String) → length (log ++ entry ∷ []) ≡ length log + 1
one_more log entry = omega (arith, length-append log (entry ∷ []))

module _ (h : Hashes) where
  mint-Logged :
      (subject : String) (grants : List String) (resource operation : String) (lease : ℤ)
      (g : Guard)
      → Logged
          (mint h subject grants resource operation lease g).0
          g
          (mint h subject grants resource operation lease g).1
        × ((mint h subject grants resource operation lease g).0.audit_present ≡ true)
  unfolding mint
  mint-Logged subject grants resource operation lease g = (grind (arith, one_more), ground arith)

  attenuate-Logged :
      (held : Option Capability) (grants : Option (List String)) (lease : Option ℤ) (g : Guard)
      → Logged (attenuate h held grants lease g).0 g (attenuate h held grants lease g).1
  unfolding attenuate attenuate_valid
  attenuate-Logged none grants lease g = omega arith
  attenuate-Logged (some cap) grants lease g = grind (arith, one_more)

  reveal-Logged :
      (held : Option Capability) (value : SecureValue) (g : Guard) (o : Outcome)
      → (reveal h held value g).0 ≡ some o
      → Logged o g (reveal h held value g).1 × (o.audit_present ≡ true)
  unfolding reveal
  reveal-Logged none value g o e = (grind (arith, one_more), ground arith)
  reveal-Logged (some cap) value g o e = (grind (arith, one_more), ground arith)

  declassify-Logged :
      (held : Option Capability) (value : SecureValue) (g : Guard)
      → Logged (declassify h held value g).0 g (declassify h held value g).1
  unfolding declassify
  declassify-Logged none value g = omega arith
  declassify-Logged (some cap) value g = grind (arith, one_more)

  invoke-Logged :
      (held : Option Capability) (tool resource operation : String) (g : Guard)
      → Logged
          (invoke h held tool resource operation g).0
          g
          (invoke h held tool resource operation g).1
        × ((invoke h held tool resource operation g).0.audit_present ≡ true)
  unfolding invoke
  invoke-Logged none tool resource operation g = (grind (arith, one_more), ground arith)
  invoke-Logged (some cap) tool resource operation g = (grind (arith, one_more), ground arith)

  attenuate_silent :
      (held : Option Capability) (grants : Option (List String)) (lease : Option ℤ) (g : Guard)
      → (attenuate h held grants lease g).0.audit_present ≡ verify? h g held
  unfolding attenuate attenuate_valid
  attenuate_silent none grants lease g = refl
  attenuate_silent (some cap) grants lease g = ground arith

  declassify_silent :
      (cap : Capability) (value : SecureValue) (g : Guard)
      → (declassify h (some cap) value g).0.audit_present
        ≡ (verify h g cap && cap.resource == value.resource)
  unfolding declassify
  declassify_silent cap value g = ground arith

  -- An outcome tells whether the log grew: by one event where `audit_present` is set, and else by
  -- none. Every mint, every reveal that does not raise and every tool call is logged, allowed or
  -- not. An attenuation is logged exactly if the parent verifies, and a declassification exactly if
  -- the capability verifies and is for the value's resource.
  pub decisions-Logged :
      (g : Guard)
      → ((subject : String) (grants : List String) (resource operation : String) (lease : ℤ)
          → Logged
              (mint h subject grants resource operation lease g).0
              g
              (mint h subject grants resource operation lease g).1
            × ((mint h subject grants resource operation lease g).0.audit_present ≡ true))
        × ((held : Option Capability) (value : SecureValue) (o : Outcome)
            → (reveal h held value g).0 ≡ some o
            → Logged o g (reveal h held value g).1 × (o.audit_present ≡ true))
        × ((held : Option Capability) (tool resource operation : String)
            → Logged
                (invoke h held tool resource operation g).0
                g
                (invoke h held tool resource operation g).1
              × ((invoke h held tool resource operation g).0.audit_present ≡ true))
        × ((held : Option Capability) (grants : Option (List String)) (lease : Option ℤ)
            → Logged (attenuate h held grants lease g).0 g (attenuate h held grants lease g).1
              × ((attenuate h held grants lease g).0.audit_present ≡ verify? h g held))
        × ((cap : Capability) (value : SecureValue)
            → Logged (declassify h (some cap) value g).0 g (declassify h (some cap) value g).1
              × ((declassify h (some cap) value g).0.audit_present
                  ≡ (verify h g cap && cap.resource == value.resource)))
  decisions-Logged g = (
    λ subject grants resource operation lease.
        mint-Logged subject grants resource operation lease g,
    λ held value o e. reveal-Logged held value g o e,
    λ held tool resource operation. invoke-Logged held tool resource operation g,
    λ held grants lease.
        (attenuate-Logged held grants lease g, attenuate_silent held grants lease g),
    λ cap value. (declassify-Logged (some cap) value g, declassify_silent cap value g),
  )
