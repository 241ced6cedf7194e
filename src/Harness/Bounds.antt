-- ===== src/Harness/Bounds.antt =====
-- What every operation of agent_harness/loop.py comes to, whatever the model and the backend do.
use adversarial_cognition.Prelude.{
  ◌≤◌, String, ◌≡◌, ◌≢◌, refl, true, Bool-cases, inl, inr, Option, List, [], ◌==◌,
}
use adversarial_cognition.Json.Value.{Value}
use adversarial_cognition.Harness.{
  Answer, value, raised, Run, Printer, ToolResult, AgentMemoryBackend, Message, Transport,
}
use adversarial_cognition.Harness.Tools.{dispatch_tool, surfaced}
use adversarial_cognition.Harness.Loop.{LoopResult}
use adversarial_cognition.Harness.Answers.{FewIds, OrTooMuch}

-- An operation takes one to six turns and gives few identifiers, and none if a bound was exceeded
-- or the model could not be reached.
pub record IsBounded (r : LoopResult) : Type 0 where
  pub ids_few : FewIds r.ids
  pub started : 1 ≤ r.turns
  pub ended : r.turns ≤ 6
  pub over_budget : r.budget_exceeded ≡ true → r.ids ≡ []
  pub in_error : r.error ≢ "" → r.ids ≡ []

surfaced-value :
    {S : Type 0} (x : Answer ToolResult × S)
    → (r : ToolResult) × (s : S) × (surfaced x ≡ (value r, s))
surfaced-value (value r, s) = (r, s, refl)
surfaced-value (raised e, s) = (_, s, refl)

module _ {S N : Type 0} (python : Printer) (backend : AgentMemoryBackend S N)
    (session : Option N) where
  -- A tool call gives a result, whatever the backend raises.
  pub dispatch_tool-value :
      (name : String) (arguments : Value) (s : S)
      → (r : ToolResult) × (t : S) × (dispatch_tool python backend session name arguments s
          ≡ (value r, t))
  unfolding dispatch_tool
  dispatch_tool-value name arguments s = elim (Bool-cases (name == "memory_write")) [
    | inl e ↦ rw e (surfaced-value _)
    | inr e ↦ rw e (elim (Bool-cases (name == "memory_read")) [
      | inl f ↦ rw f (surfaced-value _)
      | inr f ↦ rw f (elim (Bool-cases (name == "memory_delete")) [
        | inl g ↦ rw g (surfaced-value _)
        | inr g ↦ rw g (elim (Bool-cases (name == "memory_list")) [
          | inl k ↦ rw k (surfaced-value _)
          | inr k ↦ rw k (_, s, refl)
        ])
      ])
    ])
  ]

module _ {S N : Type 0} (python : Printer) (transport : Transport S)
    (backend : AgentMemoryBackend S N) (session : Option N) where
  -- Every turn after this one ends within the bounds.
  abbrev Continues : (List Message → Run S LoopResult) → Type 0
  Continues next = (messages : List Message) (s : S) → OrTooMuch IsBounded (next messages s).0
