-- ===== src/Vault/Words.antt =====
-- `words` of adversarial_cognition/backend.py: the maximal runs of [a-z0-9] in the lower-case text.
-- A word is its list of code points.
use adversarial_cognition.Prelude.{
  ℕ, suc, ◌+◌, String, Bool, true, false, ◌&&◌, ◌||◌, List, [], ◌∷◌, ◌++◌, leb, eqb, if◌then◌else◌,
  codes,
}

-- `str.lower` as far as it matters to `words`. Beside A-Z there are two characters whose lower case
-- has an ASCII letter: U+212A (the Kelvin sign), a "k", and U+0130 (a dotted capital I), an "i"
-- and U+0307. Any other character has no ASCII letter or digit in its lower case, so that it ends a
-- word whether it is changed or not.
unfoldable pub lower : List ℕ → List ℕ
lower [] = []
lower (c ∷ cs) =
    if leb b'A' c && leb c b'Z'
    then (c + 32) ∷ lower cs
    else if eqb c 0x212a
    then b'k' ∷ lower cs
    else if eqb c 0x130
    then b'i' ∷ 0x307 ∷ lower cs
    else c ∷ lower cs

unfoldable pub is_word_char : ℕ → Bool
is_word_char c = leb b'a' c && leb c b'z' || leb b'0' c && leb c b'9'

-- `run` is what the word that is being read has so far.
abbrev close : List ℕ → List (List ℕ) → List (List ℕ)
close [] found = found
close (c ∷ cs) found = (c ∷ cs) ∷ found

unfoldable pub tokens_from : List ℕ → List ℕ → List (List ℕ)
unfolding is_word_char
tokens_from run [] = close run []
tokens_from run (c ∷ cs) = elim (is_word_char c) [
  | true ↦ tokens_from (run ++ c ∷ []) cs
  | false ↦ close run (tokens_from [] cs)
]

abbrev pub same_word : List ℕ → List ℕ → Bool
same_word [] [] = true
same_word (a ∷ as') (b ∷ bs) = eqb a b && same_word as' bs
same_word _ _ = false

abbrev pub has_word : List ℕ → List (List ℕ) → Bool
has_word w [] = false
has_word w (x ∷ xs) = same_word x w || has_word w xs

-- A frozenset: each word once.
unfoldable pub distinct_words : List (List ℕ) → List (List ℕ)
distinct_words [] = []
distinct_words (w ∷ ws) = let rest = distinct_words ws in if has_word w rest then rest else w ∷ rest

unfoldable pub words : String → List (List ℕ)
unfolding lower tokens_from distinct_words
words value = distinct_words (tokens_from [] (lower (codes value)))

-- `len(query_words & words(text))`
unfoldable pub overlap : List (List ℕ) → List (List ℕ) → ℕ
overlap query_words [] = 0
overlap query_words (w ∷ ws) =
    let rest = overlap query_words ws in if has_word w query_words then suc rest else rest
