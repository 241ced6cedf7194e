-- ===== src/Harness.antt =====
-- agent_harness/: the loop between a model and the memory tools of a backend. The model (the
-- transport) and the backend are not part of the repository: one state stands for both, and each
-- call answers or raises, and changes the state in any case.
pub mod Prompts
pub mod Final
pub mod Tools
pub mod Loop
pub mod Answers
pub mod Bounds
pub mod Containment
pub mod Asking
pub mod Driver
pub mod Track
pub mod Verdicts
mod Examples
use adversarial_cognition.Prelude.{
  ℕ, String, ◌≡◌, refl, ◌⊎◌, inl, inr, Bool, true, false, Option, none, List, [], Dict,
}
use adversarial_cognition.Json.Value.{Value, Members}

-- `raised` holds `str(error)`.
pub data Answer (A : Type 0) : Type 0 where
  value : A → Answer A
  raised : String → Answer A

abbrev pub Run : Type 0 → Type 0 → Type 0
Run S A = S → Answer A × S

abbrev pub pure : {S A : Type 0} → A → Run S A
pure a s = (value a, s)

abbrev pub continue : {S A B : Type 0} → (A → Run S B) → Answer A × S → Answer B × S
continue k (value a, s) = k a s
continue k (raised e, s) = (raised e, s)

infixl 5 ◌>>=◌ ◌>>◌
abbrev pub ◌>>=◌ : {S A B : Type 0} → Run S A → (A → Run S B) → Run S B
◌>>=◌ m k s = continue k (m s)

abbrev pub ◌>>◌ : {S A B : Type 0} → Run S A → Run S B → Run S B
◌>>◌ m k s = continue (λ _. k) (m s)

-- To split on what a call comes to.
pub Answer-cases :
    {A S : Type 0} (r : Answer A × S)
    → ((a : A) × (s : S) × (r ≡ (value a, s))) ⊎ ((e : String) × (s : S) × (r ≡ (raised e, s)))
Answer-cases (value a, s) = inl (a, s, refl)
Answer-cases (raised e, s) = inr (e, s, refl)

pub split_answer :
    {A : Type 0} (a : Answer A) → ((v : A) × (a ≡ value v)) ⊎ ((e : String) × (a ≡ raised e))
split_answer (value v) = inl (v, refl)
split_answer (raised e) = inr (e, refl)

-- What is Python's own: `str` of a float, a list or a dictionary, whether the float that a text
-- stands for is zero, and how many lists and dictionaries json.loads may have open, in the answer of
-- a model and in the arguments of a tool call, before the stack is full. `str` is taken to find room
-- on the stack.
pub record Printer : Type 0 where
  pub shown : Value → String
  pub zero_real : String → Bool
  pub answer_depth : ℕ
  pub arguments_depth : ℕ

pub record Credential : Type 0 where
  pub name : String
  pub secret : String

pub record ToolResult : Type 0 where
  pub ok : Bool
  pub results : List Members
  pub ids : List String
  pub error : String

-- ToolResult(ok=False, error=error)
abbrev pub failure : String → ToolResult
failure error = record { ok = false; results = []; ids = []; error = error }

-- The arguments of `write` that have a default.
pub record Extra : Type 0 where
  pub valid_from : Option String
  pub valid_until : Option String
  pub private : Bool
  pub derived_from : List String

abbrev pub plainly : Extra
plainly = record { valid_from = none; valid_until = none; private = false; derived_from = [] }

-- A session is an `N`, or None.
pub record AgentMemoryBackend (S N : Type 0) : Type 0 where
  pub name : String
  pub version : String
  pub capabilities : List String
  pub authorization_mechanism : String
  pub reset : Run S (Unit {0})
  pub restart : Run S (Unit {0})
  pub provision : Run S (Dict String)
  pub open_session : Credential → Run S (Option N)
  -- session, memory_id, text
  pub write : Option N → String → String → Extra → Run S ToolResult
  -- session, query, as_of
  pub read : Option N → String → Option String → Run S ToolResult
  -- session, memory_id
  pub delete : Option N → String → Run S ToolResult
  pub list_ids : Option N → Run S ToolResult

-- A tool call of the model: `missing` where there are no arguments.
pub data Arguments : Type 0 where
  missing : Arguments
  given : Value → Arguments

pub record ToolCall : Type 0 where
  pub name : String
  pub arguments : Arguments

pub record Message : Type 0 where
  pub role : String
  pub content : String
  pub tool_calls : List ToolCall

-- The `message` of a response of the model
pub record Response : Type 0 where
  pub content : String
  pub tool_calls : List ToolCall

abbrev pub Transport : Type 0 → Type 0
Transport S = List Message → Run S Response
