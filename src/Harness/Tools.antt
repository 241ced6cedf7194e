-- ===== src/Harness/Tools.antt =====
-- `dispatch_tool` and `ToolResult.as_payload` of agent_harness/tools.py.
use adversarial_cognition.Prelude.{
  String, ◌<>◌, ◌==◌, Bool, true, false, not, Option, none, some, List, [], ◌∷◌, take_text, eqb,
  if◌then◌else◌,
}
use adversarial_cognition.Prelude.Int.{pos, negsuc}
use adversarial_cognition.Json.{show_int}
use adversarial_cognition.Json.Value.{
  Value, null, truth, integer, real, text, array, object, Values, done, item, Members, end, member,
  lookup,
}
use adversarial_cognition.Harness.{
  Answer, value, raised, Run, Printer, ToolResult, failure, AgentMemoryBackend, plainly,
}

abbrev texts : List String → Values
texts [] = done
texts (s ∷ ss) = item (text s) (texts ss)

abbrev objects : List Members → Values
objects [] = done
objects (ms ∷ mss) = item (object ms) (objects mss)

abbrev if_results : List Members → Members → Members
if_results [] rest = rest
if_results rows rest = member "results" (array (objects rows)) rest

abbrev if_ids : List String → Members → Members
if_ids [] rest = rest
if_ids ids rest = member "ids" (array (texts ids)) rest

unfoldable pub as_payload : ToolResult → Value
as_payload r = object (
    member "ok" (truth r.ok) (
      if_results r.results
        (if_ids r.ids (if r.error == "" then end else member "error" (text r.error) end))))

-- type(v).__name__
abbrev pub type_name : Value → String
type_name null = "NoneType"
type_name (truth _) = "bool"
type_name (integer _) = "int"
type_name (real _) = "float"
type_name (text _) = "str"
type_name (array _) = "list"
type_name (object _) = "dict"

module _ (python : Printer) where
  -- str(v)
  abbrev pub str : Value → String
  str null = "None"
  str (truth true) = "True"
  str (truth false) = "False"
  str (integer n) = show_int n
  str (text s) = s
  str v = python.shown v

  -- bool(v)
  abbrev pub is_true : Value → Bool
  is_true null = false
  is_true (truth b) = b
  is_true (integer (pos n)) = not (eqb n 0)
  is_true (integer (negsuc _)) = true
  is_true (real s) = not (python.zero_real s)
  is_true (text s) = not (s == "")
  is_true (array done) = false
  is_true (array (item _ _)) = true
  is_true (object end) = false
  is_true (object (member _ _ _)) = true

  -- str(arguments.get(key, ""))
  abbrev pub str_or_empty : Option Value → String
  str_or_empty none = ""
  str_or_empty (some v) = str v

  -- str(as_of) if as_of else None
  abbrev pub as_of_of : Option Value → Option String
  as_of_of none = none
  as_of_of (some v) = if is_true v then some (str v) else none

-- `except Exception as error: return ToolResult(ok=False, error=str(error)[:256])`
abbrev pub surfaced : {S : Type 0} → Answer ToolResult × S → Answer ToolResult × S
surfaced (value r, s) = (value r, s)
surfaced (raised e, s) = (value (failure (take_text 256 e)), s)

module _ {S : Type 0} where
  -- Arguments that are no dictionary have no `get`.
  abbrev pub with_members : Value → (Members → Run S ToolResult) → Run S ToolResult
  with_members (object ms) k s = k ms s
  with_members v k s = (raised ("'" <> (type_name v <> "' object has no attribute 'get'")), s)

  -- `dispatch_tool`, of the backend's four tools
  unfoldable pub routed :
      (Members → Run S ToolResult)
      → (Members → Run S ToolResult)
      → (Members → Run S ToolResult)
      → Run S ToolResult
      → String
      → Value
      → Run S ToolResult
  routed write read delete list_ids name arguments s =
      if name == "memory_write"
      then surfaced (with_members arguments write s)
      else if name == "memory_read"
      then surfaced (with_members arguments read s)
      else if name == "memory_delete"
      then surfaced (with_members arguments delete s)
      else if name == "memory_list"
      then surfaced (list_ids s)
      else (value (failure ("unknown tool: " <> take_text 64 name)), s)

module _ {S N : Type 0} (python : Printer) (backend : AgentMemoryBackend S N)
    (session : Option N) where
  unfoldable pub call_write : Members → Run S ToolResult
  unfolding lookup
  call_write ms =
      backend.write session (str_or_empty python (lookup ms "id"))
        (str_or_empty python (lookup ms "text")) plainly

  unfoldable pub call_read : Members → Run S ToolResult
  unfolding lookup
  call_read ms =
      backend.read session (str_or_empty python (lookup ms "query"))
        (as_of_of python (lookup ms "as_of"))

  unfoldable pub call_delete : Members → Run S ToolResult
  unfolding lookup
  call_delete ms = backend.delete session (str_or_empty python (lookup ms "id"))

  unfoldable pub dispatch_tool : String → Value → Run S ToolResult
  unfolding routed
  dispatch_tool = routed call_write call_read call_delete (backend.list_ids session)
