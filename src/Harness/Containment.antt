-- ===== src/Harness/Containment.antt =====
-- What the model of agent_harness/ can reach, and when it is asked.
use adversarial_cognition.Prelude.{
  ℕ, zero, suc, ◌≤◌, String, ◌≡◌, refl, ap, ◌∙◌, fun_ext, arith, Bool-cases, inl, inr, Option, List,
  [], ◌∷◌, ◌++◌, ltb, if◌then◌else◌,
}
use adversarial_cognition.Json.Value.{lookup}
use adversarial_cognition.Harness.{
  Answer, value, raised, Run, ◌>>=◌, Printer, AgentMemoryBackend, ToolCall, Message, Response,
  Transport, plainly,
}
use adversarial_cognition.Harness.Tools.{
  dispatch_tool, call_write, call_read, call_delete, routed, str_or_empty, as_of_of,
}
use adversarial_cognition.Harness.Loop.{
  lift, arguments_of, tool_message, exceeded, message, max_turns, LoopResult, run_operation,
  take_turns, run_calls, respond, turned, max_transcript_chars, transcript_chars,
}

-- The two backends answer alike to the four tools under the session.
pub record AgreesUnder {S N : Type 0} (session : Option N) (a b : AgentMemoryBackend S N)
    : Type 0 where
  pub writes :
      (memory_id text : String)
      → a.write session memory_id text plainly ≡ b.write session memory_id text plainly
  pub reads :
      (query : String) (as_of : Option String)
      → a.read session query as_of ≡ b.read session query as_of
  pub deletes : (memory_id : String) → a.delete session memory_id ≡ b.delete session memory_id
  pub lists : a.list_ids session ≡ b.list_ids session

module _ {S N : Type 0} (python : Printer) (session : Option N) {a b : AgentMemoryBackend S N}
    (agrees : AgreesUnder session a b) where
  dispatch-agrees : dispatch_tool python a session ≡ dispatch_tool python b session
  unfolding dispatch_tool call_write call_read call_delete
  dispatch-agrees = λ i.
      routed
        (λ ms.
          agrees.writes (str_or_empty python (lookup ms "id"))
            (str_or_empty python (lookup ms "text")) i)
        (λ ms.
          agrees.reads (str_or_empty python (lookup ms "query"))
            (as_of_of python (lookup ms "as_of")) i)
        (λ ms. agrees.deletes (str_or_empty python (lookup ms "id")) i) (agrees.lists i)

  calls-agree :
      (cs : List ToolCall) (messages : List Message)
      → run_calls python a session cs messages ≡ run_calls python b session cs messages
  unfolding run_calls
  calls-agree [] messages = refl
  calls-agree (c ∷ cs) messages = λ i s.
      (lift (arguments_of python c.arguments) >>= λ arguments.
      dispatch-agrees i c.name arguments >>= λ result.
      calls-agree cs (messages ++ tool_message result ∷ []) i)
        s

  module _ {next next' : List Message → Run S LoopResult} (same : next ≡ next') where
    respond-agrees :
        (turn : ℕ) (messages : List Message) (content : String) (calls : List ToolCall) (s : S)
        → respond python a session next turn messages content calls s
          ≡ respond python b session next' turn messages content calls s
    unfolding respond
    respond-agrees turn messages content [] s = refl
    respond-agrees turn messages content (c ∷ cs) s = λ i.
        (calls-agree (c ∷ cs) (messages ++ message "assistant" content (c ∷ cs) ∷ []) i >>= same i)
          s

    turned-agrees :
        (turn : ℕ) (messages : List Message) (r : Answer Response × S)
        → turned python a session next turn messages r
          ≡ turned python b session next' turn messages r
    unfolding turned
    turned-agrees turn messages (raised e, s) = refl
    turned-agrees turn messages (value r, s) = respond-agrees turn messages r.content r.tool_calls s

  turns-agree :
      (transport : Transport S) (left turn : ℕ) (messages : List Message)
      → take_turns python transport a session left turn messages
        ≡ take_turns python transport b session left turn messages
  unfolding take_turns
  turns-agree transport zero turn messages = refl
  turns-agree transport (suc left) turn messages = λ i s.
      if ltb max_transcript_chars (transcript_chars messages)
      then (value (exceeded turn), s)
      else turned-agrees (λ j ms. turns-agree transport left (suc turn) ms j) turn messages
          (transport messages s) i

  -- Two backends that answer alike to the four tools under the session that the driver chose give
  -- the same operation, for every model and every prompt, whatever else they do: the model reaches
  -- no other call of the backend, and no other session.
  pub run_operation-agrees :
      (transport : Transport S) (prompt : String)
      → run_operation python transport a session prompt
        ≡ run_operation python transport b session prompt
  unfolding run_operation
  run_operation-agrees transport prompt = turns-agree transport max_turns 1 _

-- The two models answer alike to every conversation within the budget.
abbrev pub AgreeWithinBudget : {S : Type 0} → Transport S → Transport S → Type 0
AgreeWithinBudget {S} t u =
    (messages : List Message) (s : S)
    → transcript_chars messages ≤ max_transcript_chars
    → t messages s ≡ u messages s

module _ {S N : Type 0} (python : Printer) (backend : AgentMemoryBackend S N) (session : Option N)
    (t u : Transport S) (agree : AgreeWithinBudget t u) where
  turns-alike :
      (left turn : ℕ) (messages : List Message)
      → take_turns python t backend session left turn messages
        ≡ take_turns python u backend session left turn messages
  unfolding take_turns
  turns-alike zero turn messages = refl
  turns-alike (suc left) turn messages = fun_ext λ s.
      elim (Bool-cases (ltb max_transcript_chars (transcript_chars messages))) [
        | inl e ↦ rw e refl
        | inr e ↦ rw e (
            ap (λ next. turned python backend session next turn messages (t messages s))
              (fun_ext (turns-alike left (suc turn)))
            ∙ ap
                (turned python backend session (take_turns python u backend session left (suc turn))
                  turn messages)
                (agree messages s (ground arith)))
      ]

  -- The model is never asked with a conversation of more than 24000 characters: how it would
  -- answer to one makes no difference to an operation.
  pub run_operation_budget :
      (prompt : String)
      → run_operation python t backend session prompt
        ≡ run_operation python u backend session prompt
  unfolding run_operation
  run_operation_budget prompt = turns-alike max_turns 1 _
