-- ===== src/Vault.antt =====
-- adversarial_cognition/backend.py: the reference vault, its actors, memories and decisions.
-- A method is a function of the vault that returns its decision and the vault afterwards.
pub mod Words
pub mod Ranking
pub mod Seed
pub mod Requests
pub mod Replay
pub mod Invariant
pub mod Policy
pub mod Forgetting
pub mod Mutating
pub mod Retrying
pub mod Order
mod Examples
use adversarial_cognition.Prelude.{
  ℕ, suc, String, ◌<>◌, Bool, true, false, not, ◌&&◌, ◌||◌, Option, none, some, List, [], ◌∷◌, ltb,
  leb, eqb, if◌then◌else◌, ◌==◌, Dict, get, put, contains, len_text,
}
use adversarial_cognition.Hashes.{Hashes}
use Words.{words, overlap}
use Ranking.{sort, ids_of, repr_ranked}

abbrev pub max_query_chars : ℕ
max_query_chars = 4096

abbrev pub max_text_chars : ℕ
max_text_chars = 4096

-- datetime.date, in its own order
pub record Date : Type 0 where
  pub year : ℕ
  pub month : ℕ
  pub day : ℕ

-- a < b
abbrev pub earlier : Date → Date → Bool
earlier a b =
    ltb a.year b.year
    || eqb a.year b.year && (ltb a.month b.month || eqb a.month b.month && ltb a.day b.day)

-- date(year, month, day)
abbrev pub date : (year month day : ℕ) → Date
date year month day = record { year = year; month = month; day = day }

pub record Actor : Type 0 where
  pub did : String
  pub tenant : String
  pub space : String
  pub purpose : String
  pub clearance : ℕ
  pub can_mutate : Bool

-- Actor(did), with the defaults of the class
abbrev pub actor : String → Actor
actor did = record {
  did = did;
  tenant = "agstack";
  space = "coffee";
  purpose = "market-research";
  clearance = 1;
  can_mutate = true;
}

pub record Memory : Type 0 where
  pub memory_id : String
  pub text : String
  pub source : String
  pub source_digest : String
  pub tenant : String
  pub space : String
  pub sensitivity : ℕ
  pub valid_from : Date
  pub valid_until : Option Date
  pub state : String
  pub derived_from : List String
  pub purpose : String

-- Memory(memory_id, text, source, source_digest), with the defaults of the class
abbrev pub memory : String → String → String → String → Memory
memory memory_id text source source_digest = record {
  memory_id = memory_id;
  text = text;
  source = source;
  source_digest = source_digest;
  tenant = "agstack";
  space = "coffee";
  sensitivity = 1;
  valid_from = date 2026 1 1;
  valid_until = none;
  state = "current";
  derived_from = [];
  purpose = "market-research";
}

pub record Decision : Type 0 where
  pub allowed : Bool
  pub ids : List String
  pub error : String
  pub receipt : String

abbrev pub denied : String → Decision
denied error = record { allowed = false; ids = []; error = error; receipt = "" }

abbrev pub granted : List String → String → Decision
granted ids receipt = record { allowed = true; ids = ids; error = ""; receipt = receipt }

pub record Vault : Type 0 where
  pub memories : Dict Memory
  pub nonces : List (String × String)
  pub idempotency : Dict Decision

abbrev pub empty : Vault
empty = record { memories = []; nonces = []; idempotency = [] }

-- `(did, nonce) in nonces`
unfoldable pub claimed : String → String → List (String × String) → Bool
claimed did nonce [] = false
claimed did nonce ((d, n) ∷ rest) = d == did && n == nonce || claimed did nonce rest

-- `_claim`
unfoldable pub claim : Actor → String → Vault → Bool × Vault
unfolding claimed
claim a nonce v =
    if claimed a.did nonce v.nonces
    then (false, v)
    else (true, record v { nonces = (a.did, nonce) ∷ v.nonces })

-- `_authorized`
unfoldable pub authorized : Memory → Actor → Bool
authorized m a =
    m.tenant == a.tenant
    && m.space == a.space
    && leb m.sensitivity a.clearance
    && m.purpose == a.purpose

-- `as_of >= memory.valid_until`, if it has one
unfoldable pub expired : Memory → Date → Bool
expired m as_of = elim m.valid_until [ none ↦ false | some until ↦ not (earlier as_of until) ]

-- The two `continue` tests of the loop of `recall`.
unfoldable pub visible : Memory → Actor → Date → Bool
visible m a as_of =
    m.state == "current" && authorized m a && not (earlier as_of m.valid_from || expired m as_of)

-- The loop of `recall`.
unfoldable pub rank : List (List ℕ) → Actor → Date → Dict Memory → List (ℕ × String)
rank query_words a as_of [] = []
rank query_words a as_of ((_, m) ∷ rest) =
    let later = rank query_words a as_of rest in
    let score = overlap query_words (words m.text) in
    if visible m a as_of
    then (if eqb score 0 then later else (score, m.memory_id) ∷ later)
    else later

-- The loop of `forget` over a copy of the items.
unfoldable pub forget_derived : String → Dict Memory → Dict Memory → Dict Memory
forget_derived i [] memories = memories
forget_derived i ((key, m) ∷ items) memories = forget_derived i items (
    if contains i m.derived_from
    then put memories key (record m { state = "forgotten" })
    else memories)

-- `restart`: what it copies is all that there is.
unfoldable pub restart : Vault → Vault
restart v = record { memories = v.memories; nonces = v.nonces; idempotency = v.idempotency }

module _ (h : Hashes) where
  unfoldable pub digest : String → String
  digest value = "sha256:" <> h.sha256 value

  unfoldable pub remember : Memory → Actor → String → Vault → Decision × Vault
  unfolding claim
  remember m a nonce v =
      let (fresh, v') = claim a nonce v in
      if not fresh || not a.can_mutate
      then (denied "replay-or-mutation-denied", v')
      else if ltb max_text_chars (len_text m.text)
      then (denied "oversized-memory", v')
      else if not (m.tenant == a.tenant) || not (m.space == a.space)
      then (denied "scope-denied", v')
      else if ltb a.clearance m.sensitivity
      then (denied "clearance-denied", v')
      else (
        granted (m.memory_id ∷ [])
            (digest ("remember:" <> (m.memory_id <> (":" <> m.source_digest)))),
        record v' { memories = put v'.memories m.memory_id m },
      )

  unfoldable pub recall : String → Actor → Date → String → Vault → Decision × Vault
  unfolding claim
  recall query a as_of nonce v =
      let (fresh, v') = claim a nonce v in
      let ranked = sort (rank (words query) a as_of v'.memories) in
      if not fresh
      then (denied "replay", v')
      else if ltb max_query_chars (len_text query)
      then (denied "oversized-query", v')
      else (granted (ids_of ranked) (digest ("recall:" <> repr_ranked h ranked)), v')

  -- The last part of `improve`: the source is current and the actor is authorized.
  unfoldable pub supersede : String → Memory → Memory → String → Vault → Decision × Vault
  supersede i current replacement key v =
      let done =
        granted (i ∷ replacement.memory_id ∷ [])
          (digest ("improve:" <> (i <> (":" <> replacement.memory_id)))) in
      (
        done,
        record v {
          memories =
              put (put v.memories i (record current { state = "superseded" })) replacement.memory_id
                replacement;
          idempotency = put v.idempotency key done;
        },
      )

  -- `improve` for a key that has no decision yet.
  unfoldable pub improve_new : String → Memory → Actor → String → String → Vault → Decision × Vault
  unfolding supersede
  improve_new i replacement a expected key v = elim (get v.memories i) [
    | none ↦ (denied "stale-source", v)
    | some current ↦
        if not (current.source_digest == expected)
        then (denied "stale-source", v)
        else if not (authorized current a) || ltb a.clearance replacement.sensitivity
        then (denied "authorization-denied", v)
        else supersede i current replacement key v
  ]

  unfoldable pub improve :
      String → Memory → Actor → String → String → String → Vault → Decision × Vault
  unfolding claim improve_new
  improve i replacement a nonce expected key v =
      let (fresh, v') = claim a nonce v in
      if not fresh || not a.can_mutate
      then (denied "replay-or-mutation-denied", v')
      else elim (get v'.idempotency key) [
        | some stored ↦ (stored, v')
        | none ↦ improve_new i replacement a expected key v'
      ]

  unfoldable pub forget_known : String → Memory → Vault → Decision × Vault
  forget_known i m v =
      let memories = put v.memories i (record m { state = "forgotten" }) in
      (
        granted (i ∷ []) (digest ("forget:" <> i)),
        record v { memories = forget_derived i memories memories },
      )

  unfoldable pub forget : String → Actor → String → Vault → Decision × Vault
  unfolding claim forget_known
  forget i a nonce v =
      let (fresh, v') = claim a nonce v in
      if not fresh || not a.can_mutate
      then (denied "replay-or-mutation-denied", v')
      else elim (get v'.memories i) [
        | none ↦ (denied "authorization-denied", v')
        | some m ↦
            if authorized m a then forget_known i m v' else (denied "authorization-denied", v')
      ]
