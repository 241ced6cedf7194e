-- ===== src/Protocol/Second.antt =====
-- adapters/protocol_v2.py: a system that authenticates gets a token for each principal and its
-- calls carry tokens; one that does not loses its claims of authorization.
pub mod Probe
pub mod Stripping
pub mod Tokens
use adversarial_cognition.Prelude.{
  String, ◌<>◌, Option, none, some, List, [], ◌∷◌, ◌==◌, if◌then◌else◌, Dict, get, put, contains,
  take_text, drop_last,
}
use adversarial_cognition.Hashes.{Hashes}
use adversarial_cognition.Cases.{meets}
use adversarial_cognition.Protocol.{value, Call, ◌>>=◌, pure, MemorySystem}
use adversarial_cognition.Protocol.Driver.{Request, Row, run_cases}

abbrev pub authorization_capabilities : List String
authorization_capabilities = "isolation" ∷ "clearance" ∷ "purpose" ∷ []

abbrev pub principals : List String
principals = "operator" ∷ "analyst" ∷ "outsider" ∷ "advertiser" ∷ []

-- The two methods of a system with an authentication surface
pub record Surface (S : Type 0) : Type 0 where
  pub issued_credentials : Call S (Dict String)
  -- name, secret
  pub authenticate : String → String → Call S (Option String)

-- A system as the second protocol sees it. `authorization_mechanism` is "none" where the
-- attribute is missing.
pub record SecondSystem (S : Type 0) : Type 0 where
  pub memory : MemorySystem S
  pub surface : Option (Surface S)
  pub authorization_mechanism : String

-- d.get(k, fallback)
abbrev pub or_else : Option String → String → String
or_else none fallback = fallback
or_else (some v) fallback = v

unfoldable pub token : Dict String → String → String
unfolding get
token tokens principal = or_else (get tokens principal) ("unauthenticated:" <> principal)

-- `_TokenView`
unfoldable pub token_view : {S : Type 0} → MemorySystem S → Dict String → MemorySystem S
unfolding token
token_view system tokens = record system {
  remember = λ memory_id text principal extra.
      system.remember memory_id text (token tokens principal) extra;
  recall = λ query principal as_of. system.recall query (token tokens principal) as_of;
  forget = λ memory_id principal. system.forget memory_id (token tokens principal);
  improve = λ memory_id replacement_id text principal digest key.
      system.improve memory_id replacement_id text (token tokens principal) digest key;
}

-- xs - ys
unfoldable pub without : List String → List String → List String
without [] ys = []
without (x ∷ xs) ys = let rest = without xs ys in if contains x ys then rest else x ∷ rest

-- `operator_secret[:-1] + "x" if operator_secret else "forged"`
unfoldable pub corrupted : String → String
corrupted secret = if secret == "" then "forged" else drop_last secret <> "x"

-- What `prepare` returns
pub record Posture (S : Type 0) : Type 0 where
  pub view : MemorySystem S
  pub capabilities : List String
  pub mechanism : String
  pub check : String

abbrev pub with_token : String → Option String → Dict String → Dict String
with_token principal none tokens = tokens
with_token principal (some t) tokens = put tokens principal t

module _ {S : Type 0} (system : SecondSystem S) where
  abbrev pub stripped : List String
  stripped = without system.memory.capabilities authorization_capabilities

  unfoldable pub unauthenticated : Posture S
  unfolding without meets
  unauthenticated = record {
    view = system.memory;
    capabilities = stripped;
    mechanism = "none";
    check =
        if meets system.memory.capabilities authorization_capabilities
        then "stripped-unauthenticated"
        else "not-applicable";
  }

  unfoldable pub voided : Posture S
  unfolding without
  voided = record {
    view = system.memory;
    capabilities = stripped;
    mechanism = system.authorization_mechanism;
    check = "failed-negative-probe";
  }

  unfoldable pub passed : Dict String → Posture S
  unfolding token_view
  passed tokens = record {
    view = token_view system.memory tokens;
    capabilities = system.memory.capabilities;
    mechanism = system.authorization_mechanism;
    check = "passed";
  }

  module _ (surface : Surface S) where
    -- The loop over the principals
    unfoldable pub obtain : Dict String → List String → Dict String → Call S (Dict String)
    unfolding get put
    obtain secrets [] tokens = pure tokens
    obtain secrets (p ∷ ps) tokens = do
      t ← surface.authenticate p (or_else (get secrets p) "")
      obtain secrets ps (with_token p t tokens)

    abbrev pub judged : Dict String → Option String → Call S (Posture S)
    judged secrets (some forged) = pure voided
    judged secrets none = do tokens ← obtain secrets principals []; pure (passed tokens)

    unfoldable pub prepare_authenticated : Call S (Posture S)
    unfolding corrupted get
    prepare_authenticated = do
      secrets ← surface.issued_credentials
      forged ← surface.authenticate "operator" (corrupted (or_else (get secrets "operator") ""))
      judged secrets forged

  unfoldable pub prepare : Option (Surface S) → Call S (Posture S)
  prepare none = pure unauthenticated
  prepare (some surface) = prepare_authenticated surface

-- The object that `run_v2` prints
pub record SecondPayload : Type 0 where
  pub adapter_version : String
  pub interface : String
  pub authorization_mechanism : String
  pub authorization_check : String
  pub cases : List Row

module _ {S : Type 0} (h : Hashes) (system : SecondSystem S) (cases : List Request) where
  unfoldable pub payload_of : Posture S → S → SecondPayload
  payload_of p s = record {
    adapter_version = system.memory.name <> "-" <> system.memory.version;
    interface = "direct-api";
    authorization_mechanism = take_text 128 p.mechanism;
    authorization_check = p.check;
    cases = (run_cases h p.view (contains "temporal" p.capabilities) p.capabilities cases s).0;
  }

  -- An exception out of `prepare` ends the run.
  unfoldable pub run_v2 : Call S SecondPayload
  run_v2 = do p ← prepare system system.surface; λ s. (value (payload_of p s), s)
