-- ===== src/Vault/Order.antt =====
-- The order of what `recall` of adversarial_cognition/backend.py returns: by score, then by
-- identifier, whatever the order of insertion and of the words of the query.
use text.Mathlib.TextEquality.{IsScalar-prop}
use mathlib.Core.List.{Perm, filter_map}
use mathlib.Core.List.Perm
use adversarial_cognition.Prelude.{
  ℕ, ◌≤◌, String, ◌≡◌, refl, ◌∙◌, ap, true, false, List, [], ◌∷◌, arith, eqb, if◌then◌else◌,
  len_text, Dict, ◌<>◌, Option, none, some,
}
use adversarial_cognition.Prelude.Sorting
use adversarial_cognition.Prelude.TextOrder.{text_le_total, text_le_trans, text_le_antisymm}
use adversarial_cognition.Hashes.{Hashes}
use adversarial_cognition.Vault.{
  Actor, Memory, Date, Vault, visible, rank, recall, max_query_chars, digest,
}
use adversarial_cognition.Vault.Words.{words, overlap, has_word}
use adversarial_cognition.Vault.Ranking.{before, sort, ids_of, repr_ranked}

before_total : (x y : ℕ × String) → before x y ≡ false → before y x ≡ true
before_total (m, i) (n, j) h = ground (arith, text_le_total i j)

before_antisymm : (x y : ℕ × String) → before x y ≡ true → before y x ≡ true → x ≡ y
before_antisymm (m, i) (n, j) h k = ground (arith, text_le_antisymm i j)

before_trans : (x y z : ℕ × String) → before x y ≡ true → before y z ≡ true → before x z ≡ true
before_trans (l, i) (m, j) (n, k) h h' = ground (arith, text_le_trans i j k)

-- Two queries with the same set of words.
abbrev pub SameWords : String → String → Type 0
SameWords p q = (w : List ℕ) → has_word w (words p) ≡ has_word w (words q)

overlap_congr :
    (ps qs ws : List (List ℕ))
    → ((w : List ℕ) → has_word w ps ≡ has_word w qs)
    → overlap ps ws ≡ overlap qs ws
unfolding overlap
overlap_congr ps qs [] h = refl
overlap_congr ps qs (w ∷ ws) h = rw (h w, overlap_congr ps qs ws h)

rank_congr :
    (ps qs : List (List ℕ)) (a : Actor) (as_of : Date) (d : Dict Memory)
    → ((w : List ℕ) → has_word w ps ≡ has_word w qs)
    → rank ps a as_of d ≡ rank qs a as_of d
unfolding rank
rank_congr ps qs a as_of [] h = refl
rank_congr ps qs a as_of ((k, m) ∷ d) h =
    rw (overlap_congr ps qs (words m.text) h, rank_congr ps qs a as_of d h)

-- The loop of `recall` on one entry.
score_of : List (List ℕ) → Actor → Date → String × Memory → Option (ℕ × String)
score_of ps a as_of (_, m) =
    if visible m a as_of
    then (if eqb (overlap ps (words m.text)) 0
        then none
        else some (overlap ps (words m.text), m.memory_id))
    else none

rank-filter_map :
    (ps : List (List ℕ)) (a : Actor) (as_of : Date) (d : Dict Memory)
    → rank ps a as_of d ≡ filter_map (score_of ps a as_of) d
unfolding rank filter_map score_of
rank-filter_map ps a as_of [] = refl
rank-filter_map ps a as_of ((k, m) ∷ d) = ground (arith, rank-filter_map ps a as_of d)

rank-perm :
    (ps : List (List ℕ)) (a : Actor) (as_of : Date) (d e : Dict Memory)
    → Perm d e
    → Perm (rank ps a as_of d) (rank ps a as_of e)
rank-perm ps a as_of d e p =
    rw (rank-filter_map ps a as_of d, rank-filter_map ps a as_of e)
      (Perm.filter_map (score_of ps a as_of) p)

ranked_set : IsSet (List (ℕ × String))
ranked_set = hlevel IsScalar-prop

sort_perm_eq : {xs ys : List (ℕ × String)} → Perm xs ys → sort xs ≡ sort ys
unfolding sort
sort_perm_eq p = Sorting.sort_congr before before_total before_antisymm before_trans ranked_set p

module _ (h : Hashes) where
  -- Where a recall is granted, its identifiers are those of a ranked list, in descending order of
  -- score and then in the order of the identifiers; the list holds the scored memories, each as
  -- often as the loop found it, and its text makes the receipt.
  pub recall-Ordered :
      (query : String) (a : Actor) (as_of : Date) (nonce : String) (v : Vault)
      → (recall h query a as_of nonce v).0.allowed ≡ true
      → (ranked : List (ℕ × String)) × ((recall h query a as_of nonce v).0.ids ≡ ids_of ranked)
        × Sorting.Ordered before ranked
        × Perm ranked (rank (words query) a as_of v.memories)
        × ((recall h query a as_of nonce v).0.receipt
            ≡ digest h ("recall:" <> repr_ranked h ranked))
  unfolding recall sort
  recall-Ordered query a as_of nonce v e = (
    sort (rank (words query) a as_of v.memories),
    ground arith,
    Sorting.sort-Ordered before before_total (rank (words query) a as_of v.memories),
    Sorting.sort-perm before (rank (words query) a as_of v.memories),
    ground arith,
  )

  -- The decision of a recall does not depend on the order in which the memories were inserted, nor
  -- on the order and the repetitions of the query's words: for two vaults with the same entries and
  -- the same nonces, and two queries within the bound with the same set of words, it is the same,
  -- receipt and all.
  pub recall_deterministic :
      (p q : String) (a : Actor) (as_of : Date) (nonce : String) (v w : Vault)
      → Perm v.memories w.memories
      → v.nonces ≡ w.nonces
      → SameWords p q
      → len_text p ≤ max_query_chars
      → len_text q ≤ max_query_chars
      → (recall h p a as_of nonce v).0 ≡ (recall h q a as_of nonce w).0
  unfolding recall
  recall_deterministic p q a as_of nonce v w same_entries same_nonces same_words short short' =
      let ranks : sort (rank (words p) a as_of v.memories)
          ≡ sort (rank (words q) a as_of w.memories) =
        ap sort (rank_congr (words p) (words q) a as_of v.memories same_words)
        ∙ sort_perm_eq (rank-perm (words q) a as_of v.memories w.memories same_entries) in
      ground arith
