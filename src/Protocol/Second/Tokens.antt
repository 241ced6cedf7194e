-- ===== src/Protocol/Second/Tokens.antt =====
-- `_TokenView` of adapters/protocol_v2.py: what a run can learn from the system behind it.
use adversarial_cognition.Prelude.{String, Bool, List, Option, Dict}
use adversarial_cognition.Hashes.{Hashes}
use adversarial_cognition.Vault.{Date}
use adversarial_cognition.Protocol.{MemorySystem, Extra}
use adversarial_cognition.Protocol.Driver.{Request, run_cases}
use adversarial_cognition.Protocol.Second.{token, token_view}
use adversarial_cognition.Protocol.Simulation.{Same, Simulates}
use adversarial_cognition.Protocol.Simulation.Runs.{SameRows, run_cases_same}

-- From related states, the two systems reset and restart alike, and answer alike to every principal
-- that is a token, or the name that stands for a principal without one. Of any other principal
-- nothing is said.
pub record AgreesOnTokens {S T : Type 0} (Related : S → T → Type 0) (tokens : Dict String)
    (a : MemorySystem S) (b : MemorySystem T) : Type 0 where
  pub resets : Same Related a.reset b.reset
  pub restarts : Same Related a.restart b.restart
  pub remembers :
      (memory_id text principal : String) (extra : Extra)
      → Same Related
          (a.remember memory_id text (token tokens principal) extra)
          (b.remember memory_id text (token tokens principal) extra)
  pub recalls :
      (query principal : String) (as_of : Option Date)
      → Same Related
          (a.recall query (token tokens principal) as_of)
          (b.recall query (token tokens principal) as_of)
  pub forgets :
      (memory_id principal : String)
      → Same Related
          (a.forget memory_id (token tokens principal))
          (b.forget memory_id (token tokens principal))
  pub improves :
      (memory_id replacement_id text principal digest key : String)
      → Same Related
          (a.improve memory_id replacement_id text (token tokens principal) digest key)
          (b.improve memory_id replacement_id text (token tokens principal) digest key)

module _ {S T : Type 0} (Related : S → T → Type 0) (tokens : Dict String) (a : MemorySystem S)
    (b : MemorySystem T) (agrees : AgreesOnTokens Related tokens a b) where
  view-Simulates : Simulates Related (token_view a tokens) (token_view b tokens)
  unfolding token_view
  view-Simulates = record {
    resets = agrees.resets;
    restarts = agrees.restarts;
    remembers = agrees.remembers;
    recalls = agrees.recalls;
    forgets = agrees.forgets;
    improves = agrees.improves;
  }

  -- Take two systems, each with states of its own, and a relation of their states such that from
  -- related states they reset and restart alike, and answer alike to the tokens and to the names
  -- that stand for a principal without one, and leave related states. Then runs through the view
  -- give the same rows from related states and end in related states, however the systems answer to
  -- the bare names of the principals.
  pub run_cases-tokens :
      (h : Hashes) (temporal : Bool) (capabilities : List String) (cases : List Request) (s : S)
      (t : T)
      → Related s t
      → SameRows Related
          (run_cases h (token_view a tokens) temporal capabilities cases s)
          (run_cases h (token_view b tokens) temporal capabilities cases t)
  run_cases-tokens h temporal capabilities cases s t r =
      run_cases_same Related h (token_view a tokens) (token_view b tokens) view-Simulates temporal
        capabilities cases s t r
