-- ===== src/Capability/Wire.antt =====
-- `request` of docs/book/code/capability/capability_adversarial/backend.py.
use adversarial_cognition.Prelude.{String, true, Option, none, some, List, [], ◌∷◌, text_le}
use adversarial_cognition.Prelude.Sorting
use adversarial_cognition.Prelude.Int.{ℤ, pos}
use adversarial_cognition.Hashes.{Hashes}
use adversarial_cognition.Json.{array, texts, end, field}
use adversarial_cognition.Capability.{Guard, audit, mint}
use adversarial_cognition.Capability.Sealing.{Outcome, refused}

-- What an authorization request off the wire carries: the fields of REQUEST_FIELDS, and the names
-- of the others, each once.
pub record Request : Type 0 where
  pub subject : Option String
  pub grants : Option (List String)
  pub resource : Option String
  pub operation : Option String
  pub lease : Option ℤ
  pub extra : List String

abbrev pub or_default {ℓ} : {A : Type ℓ} → A → Option A → A
or_default d none = d
or_default d (some a) = a

module _ (h : Hashes) where
  -- The call of `mint`: a field that is missing is a KeyError, `none`.
  unfoldable pub mint_request :
      Option String
      → Option (List String)
      → Option String
      → String
      → ℤ
      → Guard
      → Option Outcome × Guard
  mint_request (some subject) (some grants) (some resource) operation lease g =
      let (o, g') = mint h subject grants resource operation lease g in (some o, g')
  mint_request _ _ _ operation lease g = (none, g)

  abbrev refuse_extra : List String → Guard → Option Outcome × Guard
  refuse_extra extra g = (
    some (refused "unknown-fields" true),
    audit h "wire-rejected" (field "fields" (array (texts (Sorting.sort text_le extra))) end) g,
  )

  unfoldable pub request : Request → Guard → Option Outcome × Guard
  unfolding audit
  request payload g = elim payload.extra [
    | [] ↦
        mint_request payload.subject payload.grants payload.resource
          (or_default "" payload.operation) (or_default (pos 100) payload.lease) g
    | x ∷ xs ↦ refuse_extra (x ∷ xs) g
  ]
