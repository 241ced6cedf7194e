-- ===== src/Harness/Asking.antt =====
-- How often an operation of agent_harness/loop.py asks the model.
use adversarial_cognition.Prelude.{
  ℕ, zero, suc, ◌+◌, ◌≤◌, String, ◌≡◌, refl, arith, Bool-cases, inl, inr, Option, List, [], ◌∷◌,
  ltb, ap, ◌++◌,
}
use adversarial_cognition.Json.Value.{
  Value, Members, null, truth, integer, real, text, array, object,
}
use adversarial_cognition.Harness.{
  Answer, value, raised, Run, ◌>>=◌, Printer, ToolResult, AgentMemoryBackend, ToolCall, Message,
  Transport, Answer-cases, plainly,
}
use adversarial_cognition.Harness.Tools.{
  dispatch_tool, routed, surfaced, with_members, call_write, call_read, call_delete,
}
use adversarial_cognition.Harness.Loop.{
  message, LoopResult, lift, run_operation, take_turns, run_calls, respond, turned,
  max_transcript_chars, transcript_chars, arguments_of,
}

-- A count of the state that no call of `m` raises by more than k.
abbrev pub RaisesBy : {S A : Type 0} → (S → ℕ) → ℕ → Run S A → Type 0
RaisesBy {S} count k m = (s : S) → count (m s).1 ≤ count s + k

-- The count rises by at most one when the model is asked, and not in a tool.
pub record CountsAsking {S N : Type 0} (count : S → ℕ) (transport : Transport S)
    (backend : AgentMemoryBackend S N) (session : Option N) : Type 0 where
  pub asking : (messages : List Message) → RaisesBy count 1 (transport messages)
  pub writing :
      (memory_id text : String) → RaisesBy count 0 (backend.write session memory_id text plainly)
  pub reading :
      (query : String) (as_of : Option String) → RaisesBy count 0 (backend.read session query as_of)
  pub deleting : (memory_id : String) → RaisesBy count 0 (backend.delete session memory_id)
  pub listing : RaisesBy count 0 (backend.list_ids session)

>>=-RaisesBy :
    {S A B : Type 0} (count : S → ℕ) (j k : ℕ) (m : Run S A) (f : A → Run S B)
    → RaisesBy count j m
    → ((a : A) → RaisesBy count k (f a))
    → RaisesBy count (j + k) (m >>= f)
>>=-RaisesBy count j k m f h g s = elim (Answer-cases (m s)) [
  | inl (a, t, p) ↦
      let first = h s in let second = g a t in rw p (omega (arith, ap (λ x. count x.1) p))
  | inr (e, t, p) ↦ let first = h s in rw p (omega (arith, ap (λ x. count x.1) p))
]

surfaced-state : {S : Type 0} (x : Answer ToolResult × S) → (surfaced x).1 ≡ x.1
surfaced-state (value r, s) = refl
surfaced-state (raised e, s) = refl

with_members-RaisesBy :
    {S : Type 0} (count : S → ℕ) (v : Value) (k : Members → Run S ToolResult)
    → ((ms : Members) → RaisesBy count 0 (k ms))
    → RaisesBy count 0 (with_members v k)
with_members-RaisesBy count (object ms) k h s = h ms s
with_members-RaisesBy count null k h s = omega arith
with_members-RaisesBy count (truth _) k h s = omega arith
with_members-RaisesBy count (integer _) k h s = omega arith
with_members-RaisesBy count (real _) k h s = omega arith
with_members-RaisesBy count (text _) k h s = omega arith
with_members-RaisesBy count (array _) k h s = omega arith

module _ {S N : Type 0} (python : Printer) (count : S → ℕ) (transport : Transport S)
    (backend : AgentMemoryBackend S N) (session : Option N)
    (counts : CountsAsking count transport backend session) where
  dispatch-RaisesBy :
      (name : String) (v : Value) → RaisesBy count 0 (dispatch_tool python backend session name v)
  unfolding dispatch_tool routed call_write call_read call_delete
  dispatch-RaisesBy name v s =
      let w =
        with_members-RaisesBy count v (call_write python backend session) (λ ms. counts.writing _ _)
          s in
      let r =
        with_members-RaisesBy count v (call_read python backend session) (λ ms. counts.reading _ _)
          s in
      let d =
        with_members-RaisesBy count v (call_delete python backend session) (λ ms. counts.deleting _)
          s in
      let l = counts.listing s in
      ground (
        arith,
        ap count (surfaced-state (with_members v (call_write python backend session) s)),
        ap count (surfaced-state (with_members v (call_read python backend session) s)),
        ap count (surfaced-state (with_members v (call_delete python backend session) s)),
        ap count (surfaced-state (backend.list_ids session s)),
        l,
      )

  calls-RaisesBy :
      (cs : List ToolCall) (messages : List Message)
      → RaisesBy count 0 (run_calls python backend session cs messages)
  unfolding run_calls
  calls-RaisesBy [] messages = λ s. omega arith
  calls-RaisesBy (c ∷ cs) messages =
      >>=-RaisesBy count 0 0 (lift (arguments_of python c.arguments)) _ (λ s. omega arith)
        (λ v.
          >>=-RaisesBy count 0 0 (dispatch_tool python backend session c.name v) _
            (dispatch-RaisesBy c.name v) (λ r. calls-RaisesBy cs _))

  respond-RaisesBy :
      (left : ℕ) (next : List Message → Run S LoopResult) (turn : ℕ) (messages : List Message)
      (content : String) (calls : List ToolCall)
      → ((ms : List Message) → RaisesBy count left (next ms))
      → RaisesBy count left (respond python backend session next turn messages content calls)
  unfolding respond
  respond-RaisesBy left next turn messages content [] h = λ s. omega arith
  respond-RaisesBy left next turn messages content (c ∷ cs) h = λ s. omega (
    arith,
    >>=-RaisesBy count 0 left
        (run_calls python backend session (c ∷ cs)
          (messages ++ message "assistant" content (c ∷ cs) ∷ []))
        next (calls-RaisesBy (c ∷ cs) _) h s,
  )

  turns-RaisesBy :
      (left turn : ℕ) (messages : List Message)
      → RaisesBy count left (take_turns python transport backend session left turn messages)
  unfolding take_turns turned
  turns-RaisesBy zero turn messages s = omega arith
  turns-RaisesBy (suc left) turn messages s =
      let asked = counts.asking messages s in
      elim (Bool-cases (ltb max_transcript_chars (transcript_chars messages))) [
        | inl e ↦ rw e (omega arith)
        | inr e ↦ rw e (elim (Answer-cases (transport messages s)) [
          | inl (r, t, p) ↦
              let later =
                respond-RaisesBy left (take_turns python transport backend session left (suc turn))
                  turn messages r.content r.tool_calls (turns-RaisesBy left (suc turn)) t in
              rw p (omega (arith, ap (λ x. count x.1) p))
          | inr (d, t, p) ↦ rw p (omega (arith, ap (λ x. count x.1) p))
        ])
      ]

  -- An operation asks the model at most six times: a count that each question raises by at most
  -- one, and no tool, rises by at most six.
  pub run_operation-RaisesBy :
      (prompt : String) → RaisesBy count 6 (run_operation python transport backend session prompt)
  unfolding run_operation
  run_operation-RaisesBy prompt = turns-RaisesBy 6 1 _
