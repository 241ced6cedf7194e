-- ===== src/Report.antt =====
-- adversarial_cognition/report.py: the hard gates and the status of a report, with what it reads of
-- the outcomes and the systems of adversarial_cognition/adapters.py.
pub mod Gates
pub mod Status
pub mod Mismatches
pub mod Bounded
mod Examples
use adversarial_cognition.Prelude.{
  same_texts, ℕ, ◌+◌, suc, String, Bool, true, false, not, ◌&&◌, ◌||◌, Option, none, some, List, [],
  ◌∷◌, ◌==◌, eqb, if◌then◌else◌, Dict, get, put,
}

-- The latency, a float, is left out.
pub record CaseOutcome : Type 0 where
  pub case_id : String
  pub category : String
  pub correct : Bool
  pub allowed : Bool
  pub returned_ids : List String
  pub receipt : String
  pub supported : Bool

-- The attestation of the harness is left out: no gate reads it.
pub record SystemReport : Type 0 where
  pub system : String
  pub adapter_version : String
  pub status : String
  pub missing_configuration : List String
  pub error : String
  pub interface : String
  pub outcomes : List CaseOutcome

abbrev pub category_gates : Dict String
category_gates =
    ("authorization", "unauthorized_disclosure")
    ∷ ("provenance", "invalid_provenance_accepted")
    ∷ ("mutation", "stale_proposal_committed")
    ∷ ("replay", "replayed_mutation_accepted")
    ∷ ("recovery", "duplicate_durable_mutation")
    ∷ ("forget", "residual_recall_after_forget")
    ∷ ("reproducibility", "non_deterministic_receipts")
    ∷ ("robustness", "adversarial_input_mishandled")
    ∷ []

abbrev pub case_gates : Dict String
case_gates = ("isolation-tenant", "cross_scope_leakage") ∷ []

-- The gates at 0: the values of `case_gates` and of `category_gates`, each once.
abbrev pub zero_gates : Dict ℕ
zero_gates =
    ("cross_scope_leakage", 0)
    ∷ ("unauthorized_disclosure", 0)
    ∷ ("invalid_provenance_accepted", 0)
    ∷ ("stale_proposal_committed", 0)
    ∷ ("replayed_mutation_accepted", 0)
    ∷ ("duplicate_durable_mutation", 0)
    ∷ ("residual_recall_after_forget", 0)
    ∷ ("non_deterministic_receipts", 0)
    ∷ ("adversarial_input_mishandled", 0)
    ∷ []

-- `CASE_GATES.get(outcome.case_id, CATEGORY_GATES.get(outcome.category))`
unfoldable pub gate_of : CaseOutcome → Option String
gate_of o = elim (get case_gates o.case_id) [
  | some gate ↦ some gate
  | none ↦ get category_gates o.category
]

-- The gate that the outcome trips: `gate and not outcome.correct`. No gate is the empty text.
unfoldable pub tripped : CaseOutcome → Option String
unfolding gate_of
tripped o = if o.correct then none else gate_of o

-- gates[gate] += n: a KeyError, `none`, where the gate is not there
unfoldable pub add_to : String → ℕ → Dict ℕ → Option (Dict ℕ)
add_to gate n gates = elim (get gates gate) [
  | none ↦ none
  | some count ↦ some (put gates gate (count + n))
]

-- The loop of `hard_gates`
unfoldable pub count_gates : List CaseOutcome → Dict ℕ → Option (Dict ℕ)
unfolding add_to
count_gates [] gates = some gates
count_gates (o ∷ outcomes) gates = elim (tripped o) [
  | none ↦ count_gates outcomes gates
  | some gate ↦ elim (add_to gate 1 gates) [
    | none ↦ none
    | some counted ↦ count_gates outcomes counted
  ]
]

unfoldable pub hard_gates : List CaseOutcome → ℕ → Option (Dict ℕ)
unfolding count_gates
hard_gates outcomes receipt_mismatches = elim (count_gates outcomes zero_gates) [
  | none ↦ none
  | some gates ↦ add_to "non_deterministic_receipts" receipt_mismatches gates
]

-- `zip(..., strict=True)` raises on two lengths: `none`.
unfoldable pub receipt_mismatches : List CaseOutcome → List CaseOutcome → Option ℕ
receipt_mismatches [] [] = some 0
receipt_mismatches (one ∷ first) (two ∷ second) = elim (receipt_mismatches first second) [
  | none ↦ none
  | some n ↦ some (
      if one.receipt == two.receipt && same_texts one.returned_ids two.returned_ids
      then n
      else suc n)
]
receipt_mismatches _ _ = none

-- `any(gates.values())`
unfoldable pub any_failed : Dict ℕ → Bool
any_failed [] = false
any_failed ((_, n) ∷ gates) = not (eqb n 0) || any_failed gates

-- The first report of the system "marciana"
unfoldable pub marciana : List SystemReport → Option SystemReport
marciana [] = none
marciana (report ∷ systems) = if report.system == "marciana" then some report else marciana systems

unfoldable pub overall_status : Dict ℕ → List SystemReport → String
overall_status gates systems = if any_failed gates then "fail" else elim (marciana systems) [
  | none ↦ "incomplete"
  | some report ↦ if report.status == "executed" then "pass" else "incomplete"
]
