-- ===== src/Hashes.antt =====
-- What the program calls and does not implement: the digests of `hashlib` and `hmac`, in
-- hexadecimal, and the `repr` of a text, which depends on the tables of Unicode.
use Prim.Native.Char.{nul}
use adversarial_cognition.Prelude.{String, ◌<>◌}

pub record Hashes : Type 0 where
  -- hashlib.sha256(text.encode("utf-8")).hexdigest()
  pub sha256 : String → String
  -- hmac.new(key, text.encode("utf-8"), sha256).hexdigest()
  pub hmac_sha256 : String → String → String
  -- repr(text)
  pub repr : String → String

-- The digest is the text itself, marked.
abbrev pub plain : Hashes
plain = record { sha256 = λ s. s; hmac_sha256 = λ k s. k <> ":" <> s; repr = λ s. "'" <> s <> "'" }

-- "\0"
abbrev pub zero_byte : String
zero_byte = String.◌∷◌ nul String.[]
