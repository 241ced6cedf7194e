-- ===== src/Vault/Policy.antt =====
-- What `recall` of adversarial_cognition/backend.py returns: the policy of `_authorized`, the
-- validity window and the state of a memory, against an independent statement of who may read.
use adversarial_cognition.Prelude.{
  ℕ, ◌≤◌, ◌<◌, String, ◌≡◌, refl, sym, ◌∙◌, Bool, true, false, not, ◌&&◌, ◌||◌, Option, none, some,
  ◌↔◌, ◌⊎◌, inl, inr, List, [], ◌∷◌, arith, ◌==◌, eq_iff, eqb, Dict, get, contains, Option-cases,
  Bool-cases, len_text,
}
use adversarial_cognition.Prelude.Sorting
use adversarial_cognition.Hashes.{Hashes}
use adversarial_cognition.Vault.{
  Actor, Memory, Date, Vault, earlier, authorized, expired, visible, rank, recall, max_query_chars,
  claimed,
}
use adversarial_cognition.Vault.Words.{words, overlap}
use adversarial_cognition.Vault.Ranking.{before, sort, ids_of}
use adversarial_cognition.Vault.Invariant.{Sound, IsWellFormed}

abbrev pub Earlier : Date → Date → Type 0
Earlier a b =
    (a.year < b.year)
    ⊎ ((a.year ≡ b.year) × ((a.month < b.month) ⊎ ((a.month ≡ b.month) × (a.day < b.day))))

-- `m` is in the actor's tenant and space and for its purpose, and not above its clearance.
pub record Authorized (m : Memory) (a : Actor) : Type 0 where
  pub tenant : m.tenant ≡ a.tenant
  pub space : m.space ≡ a.space
  pub purpose : m.purpose ≡ a.purpose
  pub cleared : m.sensitivity ≤ a.clearance

-- `m` is current, the actor is authorized for it, and `as_of` lies in its window, whose end is not
-- in it.
pub record MayRead (m : Memory) (a : Actor) (as_of : Date) : Type 0 where
  pub current : m.state ≡ "current"
  pub policy : Authorized m a
  pub begun : ¬ Earlier as_of m.valid_from
  pub unexpired : (until : Date) → m.valid_until ≡ some until → Earlier as_of until

pub authorized→Authorized : (m : Memory) (a : Actor) → authorized m a ≡ true → Authorized m a
unfolding authorized
authorized→Authorized m a h = record {
  tenant = ground (arith, eq_iff m.tenant a.tenant);
  space = ground (arith, eq_iff m.space a.space);
  purpose = ground (arith, eq_iff m.purpose a.purpose);
  cleared = ground arith;
}

pub Authorized→authorized : (m : Memory) (a : Actor) → Authorized m a → authorized m a ≡ true
unfolding authorized
Authorized→authorized m a h =
    ground (arith, eq_iff m.tenant a.tenant, eq_iff m.space a.space, eq_iff m.purpose a.purpose)

earlier→Earlier : (a b : Date) → earlier a b ≡ true → Earlier a b
earlier→Earlier a b h = ground arith

Earlier→earlier : (a b : Date) → Earlier a b → earlier a b ≡ true
Earlier→earlier a b h = ground arith

visible→MayRead :
    (m : Memory) (a : Actor) (as_of : Date) → visible m a as_of ≡ true → MayRead m a as_of
unfolding visible expired
visible→MayRead m a as_of h = record {
  current = ground (arith, eq_iff m.state "current");
  policy = authorized→Authorized m a (ground arith);
  begun = λ e. ground (arith, Earlier→earlier as_of m.valid_from e);
  unexpired = λ until e. earlier→Earlier as_of until (ground arith);
}

visible_lem :
    (m : Memory) (a : Actor) (as_of : Date)
    → visible m a as_of ≡ (
        m.state == "current"
        && authorized m a
        && not (earlier as_of m.valid_from || expired m as_of))
unfolding visible
visible_lem m a as_of = refl

not-earlier : (a b : Date) → ¬ Earlier a b → earlier a b ≡ false
not-earlier a b h = elim (Bool-cases (earlier a b)) [
  | inl e ↦ absurd (h (earlier→Earlier a b e))
  | inr e ↦ e
]

not-expired : (m : Memory) (a : Actor) (as_of : Date) → MayRead m a as_of → expired m as_of ≡ false
unfolding expired
not-expired m a as_of h = elim (Option-cases m.valid_until) [
  | inl forever ↦ rw (forever, expired)
  | inr (until, e) ↦ rw (e, expired, Earlier→earlier as_of until (h.unexpired until e))
]

MayRead→visible :
    (m : Memory) (a : Actor) (as_of : Date) → MayRead m a as_of → visible m a as_of ≡ true
MayRead→visible m a as_of h = rw (
  visible_lem m a as_of,
  (eq_iff m.state "current").1 h.current,
  Authorized→authorized m a h.policy,
  not-earlier as_of m.valid_from h.begun,
  not-expired m a as_of h,
)

-- The ranked list of a memory's score, if it has one.
abbrev pub hit : List (List ℕ) → Actor → Date → Option Memory → Bool
hit query_words a as_of none = false
hit query_words a as_of (some m) =
    visible m a as_of && not (eqb (overlap query_words (words m.text)) 0)

contains-insert :
    (i : String) (x : ℕ × String) (xs : List (ℕ × String))
    → contains i (ids_of (Sorting.insert before x xs)) ≡ (x.1 == i || contains i (ids_of xs))
unfolding Sorting.insert ids_of
contains-insert i x [] = refl
contains-insert i x (y ∷ ys) = ground (arith, contains-insert i x ys)

contains-sort :
    (i : String) (xs : List (ℕ × String)) → contains i (ids_of (sort xs)) ≡ contains i (ids_of xs)
unfolding sort ids_of
contains-sort i [] = refl
contains-sort i (x ∷ xs) = rw (contains-insert i x (sort xs), contains-sort i xs)

contains-rank :
    (i : String) (query_words : List (List ℕ)) (a : Actor) (as_of : Date) (d : Dict Memory)
    → Sound d
    → contains i (ids_of (rank query_words a as_of d)) ≡ hit query_words a as_of (get d i)
unfolding rank ids_of get
contains-rank i query_words a as_of [] s = refl
contains-rank i query_words a as_of ((k, m) ∷ d) s =
    rw (s.1.0) (ground (arith, eq_iff k i, contains-rank i query_words a as_of d (s.0.1, s.1.1)))

-- What `hit` tests, as a statement.
abbrev Found : List (List ℕ) → Actor → Date → Option Memory → Type 0
Found query_words a as_of o =
    (m : Memory) × (o ≡ some m) × MayRead m a as_of × (0 < overlap query_words (words m.text))

hit→Found :
    (query_words : List (List ℕ)) (a : Actor) (as_of : Date) (o : Option Memory)
    → hit query_words a as_of o ≡ true
    → Found query_words a as_of o
hit→Found query_words a as_of none e = cc
hit→Found query_words a as_of (some m) e =
    (m, refl, visible→MayRead m a as_of (ground arith), ground arith)

Found→hit :
    (query_words : List (List ℕ)) (a : Actor) (as_of : Date) (o : Option Memory)
    → Found query_words a as_of o
    → hit query_words a as_of o ≡ true
Found→hit query_words a as_of o (m, e, may, shared) =
    rw (e, MayRead→visible m a as_of may) (ground arith)

module _ (h : Hashes) where
  recall_fresh :
      (query : String) (a : Actor) (as_of : Date) (nonce : String) (v : Vault)
      → claimed a.did nonce v.nonces ≡ false
      → len_text query ≤ max_query_chars
      → ((recall h query a as_of nonce v).0.allowed ≡ true)
        × ((recall h query a as_of nonce v).0.ids
            ≡ ids_of (sort (rank (words query) a as_of v.memories)))
        × ((recall h query a as_of nonce v).1.memories ≡ v.memories)
  unfolding recall
  recall_fresh query a as_of nonce v fresh short = ground arith

  pub contains-recall :
      (query : String) (a : Actor) (as_of : Date) (nonce : String) (v : Vault) (i : String)
      → IsWellFormed v
      → claimed a.did nonce v.nonces ≡ false
      → len_text query ≤ max_query_chars
      → contains i (recall h query a as_of nonce v).0.ids
        ≡ hit (words query) a as_of (get v.memories i)
  contains-recall query a as_of nonce v i s fresh short =
      rw ((recall_fresh query a as_of nonce v fresh short).1)
        (contains-sort i _ ∙ contains-rank i (words query) a as_of v.memories s)

  -- For a nonce that the actor has not used and a query that is not too long, `recall` on a
  -- well-formed vault is allowed, leaves the memories as they are, and returns exactly the
  -- identifiers of those memories that the actor may read on the date and whose text shares a word
  -- with the query.
  pub recall_exact :
      (query : String) (a : Actor) (as_of : Date) (nonce : String) (v : Vault) (i : String)
      → IsWellFormed v
      → claimed a.did nonce v.nonces ≡ false
      → len_text query ≤ max_query_chars
      → ((recall h query a as_of nonce v).0.allowed ≡ true)
        × ((recall h query a as_of nonce v).1.memories ≡ v.memories)
        × ((contains i (recall h query a as_of nonce v).0.ids ≡ true) ↔ (
            (m : Memory) × (get v.memories i ≡ some m)
            × MayRead m a as_of
            × (0 < overlap (words query) (words m.text))))
  recall_exact query a as_of nonce v i s fresh short =
      let query_words = words query in
      let (allowed, ids, memories) = recall_fresh query a as_of nonce v fresh short in
      let shown = contains-recall query a as_of nonce v i s fresh short in
      (
        allowed,
        memories,
        (
          λ e. hit→Found query_words a as_of (get v.memories i) (sym shown ∙ e),
          λ found. shown ∙ Found→hit query_words a as_of (get v.memories i) found,
        ),
      )
