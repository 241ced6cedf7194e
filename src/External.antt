-- ===== src/External.antt =====
-- adversarial_cognition/adapters.py: how a run asks the external adapters for the outcomes of the
-- cases, and reads what they print. `raised` is an exception with its text. Starting the command of
-- an adapter is a parameter; latencies, which are floats, are read and left out.
pub mod Attestation
pub mod Parsing
pub mod Systems
pub mod Reporting
pub mod Duplicates
pub mod Selecting
pub mod Scoring
mod Examples
use adversarial_cognition.Prelude.{
  ◌≡◌, refl, String, ◌<>◌, Bool, true, false, Option, none, some, List, [], ◌∷◌, map, ltb, ℕ,
  if◌then◌else◌,
}
use adversarial_cognition.Json.Value.{
  Value, text, truth, integer, array, object, Values, done, item, Members, end, member,
}
use adversarial_cognition.Json.Printing.{print}
use adversarial_cognition.Prelude.Int.{pos}
use adversarial_cognition.Cases.{Case}
use adversarial_cognition.Harness.{Answer, value, raised}

abbrev pub adapter_protocol : String
adapter_protocol = "marciana-adversarial-adapter-v1"

abbrev pub max_error_chars : ℕ
max_error_chars = 256

infixl 5 ◌>>=◌
abbrev pub ◌>>=◌ : {A B : Type 0} → Answer A → (A → Answer B) → Answer B
value a >>= f = f a
raised e >>= f = raised e

abbrev pub texts : List String → Values
texts [] = done
texts (s ∷ ss) = item (text s) (texts ss)

-- What the request says of a case. The keys are in order.
unfoldable pub case_fields : {R : Type 0} → Case R → Value
case_fields c = object (
    member "case_id" (text c.case_id) (
      member "category" (text c.category) (
        member "description" (text c.description) (
          member "expected_allowed" (truth c.expected_allowed) (
            member "expected_ids" (array (texts c.expected_ids)) (
              member "forbidden_ids" (array (texts c.forbidden_ids))
                (member "must_abstain" (truth c.must_abstain) end)))))))

abbrev pub all_fields : {R : Type 0} → List (Case R) → Values
all_fields [] = done
all_fields (c ∷ cs) = item (case_fields c) (all_fields cs)

unfoldable pub external_request : {R : Type 0} → List (Case R) → ℕ → String
unfolding case_fields
external_request suite repeats = print (
    object (
      member "cases" (array (all_fields suite))
        (member "protocol" (text adapter_protocol) (member "repeats" (integer (pos repeats)) end))))

-- EXTERNAL_SYSTEMS and EXTERNAL_SYSTEMS_V2: a system and the variable of its command
abbrev pub systems_v1 : List (String × String)
systems_v1 =
    ("mem0", "MARCIANA_ADVERSARIAL_MEM0_CMD")
    ∷ ("letta", "MARCIANA_ADVERSARIAL_LETTA_CMD")
    ∷ ("letta-direct", "MARCIANA_ADVERSARIAL_LETTA_DIRECT_CMD")
    ∷ ("cognee", "MARCIANA_ADVERSARIAL_COGNEE_CMD")
    ∷ ("cognee-rs", "MARCIANA_ADVERSARIAL_COGNEE_RS_CMD")
    ∷ ("graphiti", "MARCIANA_ADVERSARIAL_GRAPHITI_CMD")
    ∷ ("akka-fluree", "MARCIANA_ADVERSARIAL_AKKA_FLUREE_CMD")
    ∷ []

abbrev pub systems_v2 : List (String × String)
systems_v2 =
    ("mem0", "MARCIANA_ADVERSARIAL_MEM0_CMD")
    ∷ ("letta-direct", "MARCIANA_ADVERSARIAL_LETTA_DIRECT_CMD")
    ∷ ("cognee", "MARCIANA_ADVERSARIAL_COGNEE_CMD")
    ∷ ("cognee-rs", "MARCIANA_ADVERSARIAL_COGNEE_RS_CMD")
    ∷ ("graphiti", "MARCIANA_ADVERSARIAL_GRAPHITI_CMD")
    ∷ ("akka-fluree", "MARCIANA_ADVERSARIAL_AKKA_FLUREE_CMD")
    ∷ ("marciana-agent", "MARCIANA_ADVERSARIAL_MARCIANA_AGENT_CMD")
    ∷ ("memfs-agent", "MARCIANA_ADVERSARIAL_MEMFS_AGENT_CMD")
    ∷ ("letta-agent", "MARCIANA_ADVERSARIAL_LETTA_AGENT_CMD")
    ∷ []

unfoldable pub external_systems : ℕ → List (String × String)
external_systems benchmark_version = if ltb benchmark_version 2 then systems_v1 else systems_v2

-- Inversion of a block that returns.
pub >>=-eq-value :
    {A B : Type 0} (m : Answer A) (f : A → Answer B) {b : B}
    → (m >>= f) ≡ value b
    → (a : A) × (m ≡ value a) × (f a ≡ value b)
>>=-eq-value (value a) f e = (a, refl, e)
>>=-eq-value (raised d) f e = absurd (cc)
