-- ===== src/Harness/Loop.antt =====
-- `run_operation` of agent_harness/loop.py. The schemas of the tools and the options are the same
-- in every call of the model and are left out of it.
use adversarial_cognition.Prelude.{
  ℕ, zero, suc, ◌+◌, String, Bool, true, false, Option, List, [], ◌∷◌, ◌++◌, ltb, len_text,
  take_text, if◌then◌else◌,
}
use adversarial_cognition.Json.Value.{Value, text, object, end}
use adversarial_cognition.Json.Printing.{print}
use adversarial_cognition.Json.Loading.{
  Loaded, loaded, decode_error, value_error, recursion_error, loads,
}
use adversarial_cognition.Harness.{
  Answer, value, raised, Run, pure, ◌>>=◌, Printer, ToolResult, AgentMemoryBackend, Arguments,
  missing, given, ToolCall, Message, Response, Transport,
}
use adversarial_cognition.Harness.Prompts.{system_prompt}
use adversarial_cognition.Harness.Final.{parse_final}
use adversarial_cognition.Harness.Tools.{dispatch_tool, as_payload, is_true}

abbrev pub max_turns : ℕ
max_turns = 6

abbrev pub max_tool_result_chars : ℕ
max_tool_result_chars = 2000

abbrev pub max_transcript_chars : ℕ
max_transcript_chars = 24000

pub record LoopResult : Type 0 where
  pub ids : List String
  pub turns : ℕ
  pub budget_exceeded : Bool
  pub error : String

abbrev pub answered : List String → ℕ → LoopResult
answered ids turn = record { ids = ids; turns = turn; budget_exceeded = false; error = "" }

abbrev pub exceeded : ℕ → LoopResult
exceeded turn = record { ids = []; turns = turn; budget_exceeded = true; error = "" }

abbrev pub transport_failed : ℕ → String → LoopResult
transport_failed turn e = record {
  ids = [];
  turns = turn;
  budget_exceeded = false;
  error = take_text 256 e;
}

abbrev pub message : String → String → List ToolCall → Message
message role content calls = record { role = role; content = content; tool_calls = calls }

unfoldable pub transcript_chars : List Message → ℕ
transcript_chars [] = 0
transcript_chars (m ∷ ms) = len_text m.content + transcript_chars ms

-- The arguments in a text: `{}` if it is not JSON
abbrev pub read_arguments : Loaded → Answer Value
read_arguments (loaded v) = value v
read_arguments decode_error = value (object end)
read_arguments value_error = raised "ValueError"
read_arguments recursion_error = raised "RecursionError"

abbrev pub read_text : Printer → Value → Answer Value
read_text python (text s) = read_arguments (loads python.arguments_depth s)
read_text python v = value v

-- `function.get("arguments") or {}`, read if it is a text
unfoldable pub arguments_of : Printer → Arguments → Answer Value
arguments_of python missing = value (object end)
arguments_of python (given v) = if is_true python v then read_text python v else value (object end)

abbrev pub lift : {S A : Type 0} → Answer A → Run S A
lift a s = (a, s)

abbrev pub tool_message : ToolResult → Message
tool_message r = message "tool" (take_text max_tool_result_chars (print (as_payload r))) []

abbrev pub final_result : ℕ → Answer (List String) → Answer LoopResult
final_result turn (value ids) = value (answered ids turn)
final_result turn (raised e) = raised e

module _ {S N : Type 0} (python : Printer) (backend : AgentMemoryBackend S N)
    (session : Option N) where
  -- The calls of one response, and the messages with their results
  unfoldable pub run_calls : List ToolCall → List Message → Run S (List Message)
  run_calls [] messages = pure messages
  run_calls (c ∷ cs) messages = do
    arguments ← lift (arguments_of python c.arguments)
    result ← dispatch_tool python backend session c.name arguments
    run_calls cs (messages ++ tool_message result ∷ [])

  -- The rest of a turn, where `next` is the turns after it
  unfoldable pub respond :
      (List Message → Run S LoopResult)
      → ℕ
      → List Message
      → String
      → List ToolCall
      → Run S LoopResult
  respond next turn messages content [] s = (final_result turn (parse_final python content), s)
  respond next turn messages content (c ∷ cs) s =
      (run_calls (c ∷ cs) (messages ++ message "assistant" content (c ∷ cs) ∷ []) >>= next) s

  unfoldable pub turned :
      (List Message → Run S LoopResult)
      → ℕ
      → List Message
      → Answer Response × S
      → Answer LoopResult × S
  unfolding respond
  turned next turn messages (raised e, s) = (value (transport_failed turn e), s)
  turned next turn messages (value r, s) = respond next turn messages r.content r.tool_calls s

module _ {S N : Type 0} (python : Printer) (transport : Transport S)
    (backend : AgentMemoryBackend S N) (session : Option N) where
  -- The loop with the turns that are left
  unfoldable pub take_turns : ℕ → ℕ → List Message → Run S LoopResult
  unfolding turned
  take_turns zero turn messages s = (value (exceeded max_turns), s)
  take_turns (suc left) turn messages s =
      if ltb max_transcript_chars (transcript_chars messages)
      then (value (exceeded turn), s)
      else turned python backend session (take_turns left (suc turn)) turn messages
          (transport messages s)

  unfoldable pub run_operation : String → Run S LoopResult
  run_operation prompt =
      take_turns max_turns 1 (message "system" system_prompt [] ∷ message "user" prompt [] ∷ [])
