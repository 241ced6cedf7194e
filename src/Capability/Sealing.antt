-- ===== src/Capability/Sealing.antt =====
-- Capabilities and their seals, labeled values and outcomes, of
-- docs/book/code/capability/capability_adversarial/backend.py.
use adversarial_cognition.Prelude.{ℕ, String, ◌<>◌, Bool, true, false, Option, none, List}
use adversarial_cognition.Prelude.Int.{ℤ, pos}
use adversarial_cognition.Hashes.{Hashes, zero_byte}
use adversarial_cognition.Json.{Json, text, number, array, Items, done, item, texts, dumps}

abbrev pub domain : String
domain = "querygraph.capability-adversarial.v1"

abbrev pub engine_key : String
engine_key = "capability-adversarial/reference-engine-key/v1"

-- `expiry` is an integer of Python, since a lease may be negative. An epoch is never negative.
pub record Capability : Type 0 where
  pub cap_id : String
  pub subject : String
  pub grants : List String
  pub resource : String
  pub operation : String
  pub expiry : ℤ
  pub epoch : ℕ
  pub seal : String

pub record SecureValue : Type 0 where
  pub label : String
  pub cleartext : String
  pub resource : String

abbrev pub redacted : String
redacted = "<redacted>"

pub record Outcome : Type 0 where
  pub ok : Bool
  pub error : String
  pub capability : Option Capability
  pub revealed : Option String
  pub audit_present : Bool

-- Outcome(False, error, audit_present=…)
abbrev pub refused : String → Bool → Outcome
refused error audited = record {
  ok = false;
  error = error;
  capability = none;
  revealed = none;
  audit_present = audited;
}

-- Outcome(True, audit_present=True)
abbrev pub granted : Outcome
granted = record { ok = true; error = ""; capability = none; revealed = none; audit_present = true }

-- `("cap",) + self._body()`
unfoldable pub body : Capability → Json
body c = array (
    item (text "cap") (
      item (text c.cap_id) (
        item (text c.subject) (
          item (array (texts c.grants)) (
            item (text c.resource) (
              item (text c.operation)
                (item (number c.expiry) (item (number (pos c.epoch)) done))))))))

module _ (h : Hashes) where
  -- `digest` of a list of parts
  unfoldable pub digest : Items → String
  unfolding dumps
  digest parts = "sha256:" <> h.sha256 (domain <> (zero_byte <> dumps "," ":" (array parts)))

  -- The seal that `sealed` computes from the other fields with the engine's key.
  unfoldable pub seal_of : Capability → String
  unfolding dumps body
  seal_of c =
      "hmac:" <> h.hmac_sha256 engine_key (domain <> (zero_byte <> dumps ", " ": " (body c)))

  -- `sealed`
  unfoldable pub sealed : Capability → Capability
  sealed c = record c { seal = seal_of c }
