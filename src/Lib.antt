-- ===== src/Lib.antt =====
-- The benchmark of adversarial cognition: what it takes as the right behaviour of a memory behind an
-- authority boundary, its cases, and the companion models of the book's code.
--
-- The parts and how they meet:
-- * adversarial_cognition/backend.py is the reference vault. Vault.antt has its actors, memories,
--   decisions and every method: `_claim` is `claim`, `_authorized` is `authorized`, `remember`,
--   `recall`, `improve`, `forget` and `restart` keep their names. A method takes the vault and returns
--   its decision and the vault afterwards. `recall`'s loop is `rank`, with the loop's two tests in
--   `visible`; the words of a text are in Vault/Words.antt, the sort and the text of the ranked list in
--   Vault/Ranking.antt, `seed` in Vault/Seed.antt. Vault/Requests.antt has histories: lists of requests
--   and restarts.
-- * adversarial_cognition/cases.py has the first benchmark: Cases.antt has `Case` and `run_case`,
--   Cases/Scenarios.antt the functions that the cases run, and Cases/Suite.antt the tuple of the cases.
--   adversarial_cognition/cases_v2.py has them again on the authenticated backend: Cases/Second.antt
--   and its children. A case runs on a vault that `_fresh` has seeded (`fresh` of Vault/Seed.antt).
-- * docs/book/code/capability/capability_adversarial/backend.py is the guard of a capability-gated
--   authority. Capability.antt has the guard and its methods; Capability/Grants.antt the lattice of read
--   grants, Capability/Sealing.antt the capability and its seal, Capability/Wire.antt `request`.
--   Capability/Histories.antt has histories of calls, ticks of the clock and restarts.
--   docs/book/code/capability/capability_adversarial/cases.py, the cases, is Capability/Cases.antt.
-- * adversarial_cognition/identity.py has identities and credentials: Identity.antt.
--   adversarial_cognition/backend_v2.py puts the vault behind them: Authenticated.antt, where
--   `with_session` is the common part of the methods. Authenticated/Calls.antt has histories of calls.
-- * docs/book/code/catalog-provenance/catalog_provenance/backend.py is the reference catalog:
--   Catalog.antt has its methods, Catalog/State.antt its state and what they read, Catalog/Receipts.antt
--   the receipts. `commit` is `commit`, `commit_new` after its first guards, and `advance` for the
--   transition; `tombstone` has `bury`. Catalog/Histories.antt has histories of calls and restarts.
--   docs/book/code/catalog-provenance/catalog_provenance/cases.py, the cases, is Catalog/Cases.antt.
-- * adversarial_cognition/report.py decides on a report: Report.antt has `hard_gates`,
--   `receipt_mismatches` and `overall_status`, on the outcomes of adversarial_cognition/adapters.py, and
--   Report/Bounded.antt `assert_bounded`, on the printed report.
-- * adapters/protocol.py drives a memory system through the cases: Protocol.antt has the interface of a
--   system, Protocol/Seeding.antt `seed`, Protocol/Scenarios.antt `_scenarios`, Protocol/Driver.antt
--   `supported`, `evaluate`, `_run_case` (`attempt`, `attempt_again`, `run_case`) and `run`.
--   adapters/protocol_v2.py is Protocol/Second.antt: `prepare` judges how a system authenticates,
--   `run_v2` runs the cases on the view that `prepare` leaves.
-- * agent_harness/ drives an agent: Harness.antt has the backend and the transport, Harness/Prompts.antt
--   prompts.py, Harness/Tools.antt `dispatch_tool`, Harness/Final.antt `parse_final`, Harness/Loop.antt
--   `run_operation`, Harness/Driver.antt and Harness/Track.antt driver.py with `TrackRun`.
-- * adversarial_cognition/adapters.py runs the commands of the adapters and reads what they print:
--   External.antt has the registries and the request, External/Attestation.antt `_parse_harness`,
--   External/Parsing.antt `_parse_external_outcomes`, External/Systems.antt `execute_marciana`,
--   `execute_external` and `execute_systems`. The reports of these are the input of Report.antt.
-- * adversarial_cognition/tracks.py groups the systems of a report: Tracks.antt.
-- * The companion benchmarks compare systems alike, in report.py and adapters.py of
--   docs/book/code/capability/capability_adversarial and of
--   docs/book/code/catalog-provenance/catalog_provenance, which differ in names alone: Comparing.antt has
--   `hard_gates`, `summarize`, the status of a system and `_parse`. It shares the reading of the rows
--   with External/Parsing.antt, whose code is the same.
-- * Json.antt is json.dumps on texts and lists of texts, Json/Value.antt the values of JSON,
--   Json/Printing.antt json.dumps on them, and Json/Loading.antt json.loads: an automaton on the
--   characters of a text, with the grammar in Json/Reading.antt. Hashes.antt is what the program takes
--   from hashlib, hmac and `repr` of a text: parameters of the model.
-- * Prelude.antt and its children have what the components share: tests, dictionaries as lists of
--   entries in the order of insertion, sets of texts, the order of texts, sorting, integers.
--
-- Conventions. Natural numbers are native. Python's integers are `ℤ` of Prelude/Int.antt where they
-- may be negative (the guard's clock and leases), and natural numbers where the code only counts up or
-- compares constants (clearances, sensitivities, epochs). An exception that a caller would see is
-- `none`, and `raised` with its text where the program reports it. A text is a sequence of code points; a
-- frozenset of texts is a list, read by membership. What an adapter, a backend or a model is made of is
-- unknown: its state is a type parameter, and a call of it takes the state and answers, declines or
-- raises, and leaves a state (`MemorySystem`, `AgentMemoryBackend`, `Transport`). Loops with a limit,
-- the three attempts of a case and the six turns of an operation, are recursion on the rounds that are
-- left, which the code counts too. The only recursion on fuel is the printing of a number, in which a
-- number has fewer digits than its successor has units; every other loop is recursion on the list or
-- the text it goes through. How Python prints a float, and what it says when json.loads, int or float
-- refuse a text, are parameters (`Printer`, `Builtins`, `Platform`), and so is how deep json.loads may
-- nest before its RecursionError: what the stack leaves, taken the same at every call from one place of
-- the code. json.loads here refuses a lone surrogate, which is no code point. Clocks, latencies and pauses are left out.
--
-- Not modelled: the adapters of particular systems below adapters/, agent_harness/ollama.py and
-- agent_harness/run_backend.py, the constants that the harness hands to a model; programs that read
-- files, talk to services or format Markdown (run_benchmark.py, render_results.py, assemble_comparative.py,
-- adversarial_cognition/public_loaders.py, corpus.py and corpora.py);
-- adversarial_cognition/metrics.py, the averages and the assembly of adversarial_cognition/report.py,
-- `as_dict` of its outcomes; the running of the commands and the assembly of
-- the reports of the companion benchmarks; the Rust drivers of
-- docs/book/code/catalog-bench; and docs/book/code/cognition, a copy of the root's code.
mod Prelude
pub mod Authenticated
pub mod Capability
pub mod Cases
pub mod Catalog
pub mod Comparing
pub mod External
pub mod Harness
pub mod Hashes
pub mod Identity
pub mod Json
pub mod Protocol
pub mod Report
pub mod Tracks
pub mod Vault
