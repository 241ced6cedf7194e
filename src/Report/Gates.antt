-- ===== src/Report/Gates.antt =====
-- The gates of adversarial_cognition/report.py, and what they count.
use adversarial_cognition.Prelude.{
  ℕ, ◌+◌, suc, String, ◌≡◌, refl, ◌∙◌, ap, Bool, true, false, not, ◌||◌, inl, inr, none, some, List,
  [], ◌∷◌, ◌==◌, eqb, eq_iff, arith, if◌then◌else◌, Dict, get, put, get-put, Entries-get,
  Option-cases, Bool-cases,
}
use adversarial_cognition.Report.{
  CaseOutcome, category_gates, case_gates, zero_gates, gate_of, tripped, add_to, count_gates,
  hard_gates, any_failed,
}

-- The outcomes that trip the gate
unfoldable pub trips : String → List CaseOutcome → ℕ
trips g [] = 0
trips g (o ∷ outcomes) =
    let rest = trips g outcomes in
    elim (tripped o) [ none ↦ rest | some gate ↦ if gate == g then suc rest else rest ]

-- The gate is one of the report's.
abbrev pub IsGate : String → Type 0
IsGate g = get zero_gates g ≡ some 0

case_gates-IsGate : (k g : String) → get case_gates k ≡ some g → IsGate g
unfolding get
case_gates-IsGate k g e = Entries-get (λ _ x. IsGate x) case_gates k g (refl, tt) e

category_gates-IsGate : (k g : String) → get category_gates k ≡ some g → IsGate g
unfolding get
category_gates-IsGate k g e =
    Entries-get (λ _ x. IsGate x) category_gates k g
      (refl, (refl, (refl, (refl, (refl, (refl, (refl, (refl, tt)))))))) e

gate_of-IsGate : (o : CaseOutcome) (g : String) → gate_of o ≡ some g → IsGate g
unfolding gate_of
gate_of-IsGate o g e = elim (Option-cases (get case_gates o.case_id)) [
  | inr (gate, found) ↦ case_gates-IsGate o.case_id g (found ∙ ground arith)
  | inl missing ↦ category_gates-IsGate o.category g (ground arith)
]

tripped-IsGate : (o : CaseOutcome) (g : String) → tripped o ≡ some g → IsGate g
unfolding tripped
tripped-IsGate o g e = gate_of-IsGate o g (ground arith)

-- Every gate has the count that `f` says.
abbrev Counts : Dict ℕ → (String → ℕ) → Type 0
Counts gates f = (g : String) → IsGate g → get gates g ≡ some (f g)

-- Does an outcome trip a gate?
unfoldable pub any_trips : List CaseOutcome → Bool
any_trips [] = false
any_trips (o ∷ outcomes) =
    let rest = any_trips outcomes in elim (tripped o) [ none ↦ rest | some gate ↦ true ]

any_failed-put :
    (gates : Dict ℕ) (gate : String) (v n : ℕ)
    → get gates gate ≡ some v
    → any_failed (put gates gate (v + n)) ≡ (any_failed gates || not (eqb n 0))
unfolding any_failed get put
any_failed-put [] gate v n e = absurd (ground arith)
any_failed-put ((k, m) ∷ gates) gate v n e = ground (arith, any_failed-put gates gate v n)

add_to-Counts :
    (gates : Dict ℕ) (f : String → ℕ) (gate : String) (n : ℕ)
    → IsGate gate
    → Counts gates f
    → (gates' : Dict ℕ) × (add_to gate n gates ≡ some gates')
      × ((g : String) → IsGate g → get gates' g ≡ some (if gate == g then f g + n else f g))
      × (any_failed gates' ≡ (any_failed gates || not (eqb n 0)))
unfolding add_to
add_to-Counts gates f gate n known counts = (
  put gates gate (f gate + n),
  rw (add_to, counts gate known) refl,
  λ g other.
      let was = counts g other in
      let made = get-put gates gate g (f gate + n) in
      elim (Bool-cases (gate == g)) [
        | inl same ↦ let count = ap f ((eq_iff gate g).0 same) in ground arith
        | inr differs ↦ ground arith
      ],
  any_failed-put gates gate (f gate) n (counts gate known),
)

count_gates-Counts :
    (outcomes : List CaseOutcome) (gates : Dict ℕ) (f : String → ℕ)
    → Counts gates f
    → (gates' : Dict ℕ) × (count_gates outcomes gates ≡ some gates')
      × Counts gates' (λ g. f g + trips g outcomes)
      × (any_failed gates' ≡ (any_failed gates || any_trips outcomes))
unfolding count_gates trips any_trips
count_gates-Counts [] gates f counts =
    (gates, refl, λ g known. let was = counts g known in ground arith, ground arith)
count_gates-Counts (o ∷ outcomes) gates f counts = elim (Option-cases (tripped o)) [
  | inl clear ↦
      let (gates', made, counted, failed) = count_gates-Counts outcomes gates f counts in
      (
        gates',
        rw (count_gates, clear) made,
        λ g known. let rest = counted g known in ground arith,
        ground arith,
      )
  | inr (gate, trip) ↦
      let (more, added, one, failed) =
        add_to-Counts gates f gate 1 (tripped-IsGate o gate trip) counts in
      let (gates', made, counted, failed') =
        count_gates-Counts outcomes more (λ g. if gate == g then f g + 1 else f g) one in
      (
        gates',
        rw (count_gates, trip, added) made,
        λ g known. let rest = counted g known in ground arith,
        ground arith,
      )
]

zero_gates-Counts : Counts zero_gates (λ g. 0)
zero_gates-Counts g known = known

-- What `hard_gates` returns, by counts, and whether a count is not zero.
pub hard_gates-Counts :
    (outcomes : List CaseOutcome) (mismatches : ℕ)
    → (gates : Dict ℕ) × (hard_gates outcomes mismatches ≡ some gates)
      × ((g : String)
          → IsGate g
          → get gates g
            ≡ some (
                if "non_deterministic_receipts" == g
                then trips g outcomes + mismatches
                else trips g outcomes))
      × (any_failed gates ≡ (any_trips outcomes || not (eqb mismatches 0)))
unfolding hard_gates any_failed get
hard_gates-Counts outcomes mismatches =
    let (counted, made, counts, failed) =
      count_gates-Counts outcomes zero_gates (λ g. 0) zero_gates-Counts in
    let (gates, added, more, failed') =
      add_to-Counts counted (λ g. 0 + trips g outcomes) "non_deterministic_receipts" mismatches refl
        counts in
    (
      gates,
      rw (hard_gates, made) added,
      λ g known. let now = more g known in ground arith,
      ground arith,
    )

-- The gates of a report are all there, and each counts the outcomes that trip it; that of the
-- receipts counts the mismatches between the two runs besides.
pub hard_gates_exact :
    (outcomes : List CaseOutcome) (mismatches : ℕ)
    → (gates : Dict ℕ) × (hard_gates outcomes mismatches ≡ some gates)
      × ((g : String)
          → IsGate g
          → get gates g
            ≡ some (
                if "non_deterministic_receipts" == g
                then trips g outcomes + mismatches
                else trips g outcomes))
hard_gates_exact outcomes mismatches =
    let (gates, made, counts, failed) = hard_gates-Counts outcomes mismatches in
    (gates, made, counts)
