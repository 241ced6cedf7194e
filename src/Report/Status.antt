-- ===== src/Report/Status.antt =====
-- The status of a report of adversarial_cognition/report.py, of its outcomes and systems.
use adversarial_cognition.Prelude.{
  ℕ, String, ◌≡◌, ◌≢◌, refl, Bool, true, false, not, ◌||◌, ◌↔◌, ◌⊎◌, inl, inr, Option, none, some,
  List, [], ◌∷◌, ◌==◌, eqb, eq_iff, contains, arith, Dict, get, if◌then◌else◌, Option-cases,
  Bool-cases,
}
use adversarial_cognition.Report.{
  CaseOutcome, SystemReport, gate_of, tripped, hard_gates, any_failed, marciana, overall_status,
}
use adversarial_cognition.Report.Gates.{any_trips, hard_gates-Counts}

-- The categories whose cases must not fail
abbrev pub gated_categories : List String
gated_categories =
    "authorization" ∷ "provenance" ∷ "mutation" ∷ "replay" ∷ "recovery" ∷ "forget"
    ∷ "reproducibility" ∷ "robustness" ∷ []

abbrev pub gated : CaseOutcome → Bool
gated o = "isolation-tenant" == o.case_id || contains o.category gated_categories

-- No case failed that must not fail.
abbrev pub AllClear : List CaseOutcome → Type 0
AllClear [] = Unit
AllClear (o ∷ outcomes) = (gated o ≡ true → o.correct ≡ true) × AllClear outcomes

-- The first report of "marciana" is of a run.
abbrev pub IsExecuted : List SystemReport → Type 0
IsExecuted [] = ⊥
IsExecuted (report ∷ systems) =
    ((report.system ≡ "marciana") × (report.status ≡ "executed"))
    ⊎ ((report.system ≢ "marciana") × IsExecuted systems)

-- How the status of a report goes with its outcomes, mismatches and systems.
pub record Decides (outcomes : List CaseOutcome) (mismatches : ℕ) (systems : List SystemReport)
    (status : String) : Type 0 where
  pub passes : (status ≡ "pass") ↔ (AllClear outcomes × (mismatches ≡ 0) × IsExecuted systems)
  pub fails : (status ≡ "fail") ↔ (¬ (AllClear outcomes × (mismatches ≡ 0)))
  pub incomplete :
      (status ≡ "incomplete") ↔ (AllClear outcomes × (mismatches ≡ 0) × (¬ IsExecuted systems))

gated-gate_of : (o : CaseOutcome) → gated o ≡ true → (g : String) × (gate_of o ≡ some g)
unfolding gate_of get
gated-gate_of o e = elim (Option-cases (gate_of o)) [
  | inr found ↦ found
  | inl missing ↦ absurd (ground arith)
]

gate_of-gated : (o : CaseOutcome) (g : String) → gate_of o ≡ some g → gated o ≡ true
unfolding gate_of get
gate_of-gated o g e = elim (Bool-cases (gated o)) [ inl y ↦ y | inr n ↦ absurd (ground arith) ]

clear-untripped : (o : CaseOutcome) → (gated o ≡ true → o.correct ≡ true) → tripped o ≡ none
unfolding tripped
clear-untripped o clear = elim (Option-cases (gate_of o)) [
  | inl missing ↦ ground arith
  | inr (g, found) ↦ let right = clear (gate_of-gated o g found) in ground arith
]

untripped-clear : (o : CaseOutcome) → tripped o ≡ none → gated o ≡ true → o.correct ≡ true
unfolding tripped
untripped-clear o untripped e = let (g, found) = gated-gate_of o e in ground arith

any_trips→AllClear : (outcomes : List CaseOutcome) → any_trips outcomes ≡ false → AllClear outcomes
unfolding any_trips
any_trips→AllClear [] e = tt
any_trips→AllClear (o ∷ outcomes) e = elim (Option-cases (tripped o)) [
  | inl untripped ↦ (untripped-clear o untripped, any_trips→AllClear outcomes (ground arith))
  | inr (gate, trip) ↦ absurd (ground arith)
]

AllClear→any_trips : (outcomes : List CaseOutcome) → AllClear outcomes → any_trips outcomes ≡ false
unfolding any_trips
AllClear→any_trips [] clear = refl
AllClear→any_trips (o ∷ outcomes) (clear, rest) =
    rw (any_trips, clear-untripped o clear) (AllClear→any_trips outcomes rest)

-- No gate has failed.
abbrev IsWell : List CaseOutcome → ℕ → Type 0
IsWell outcomes mismatches = AllClear outcomes × (mismatches ≡ 0)

IsWell-cases :
    (outcomes : List CaseOutcome) (mismatches : ℕ)
    → (IsWell outcomes mismatches × ((any_trips outcomes || not (eqb mismatches 0)) ≡ false))
      ⊎ ((¬ IsWell outcomes mismatches) × ((any_trips outcomes || not (eqb mismatches 0)) ≡ true))
IsWell-cases outcomes mismatches =
    elim (Bool-cases (any_trips outcomes || not (eqb mismatches 0))) [
      | inl failed ↦ inr (
        λ well.
            let clear = AllClear→any_trips outcomes well.0 in
            let none = well.1 in absurd (ground arith),
        failed,
      )
      | inr held ↦ inl ((any_trips→AllClear outcomes (ground arith), ground arith), held)
    ]

-- What `overall_status` reads of the systems
abbrev of_run : Option SystemReport → Bool
of_run none = false
of_run (some report) = report.status == "executed"

abbrev ran : List SystemReport → Bool
ran systems = of_run (marciana systems)

idle-here :
    (report : SystemReport) (systems : List SystemReport)
    → report.system ≡ "marciana"
    → (report.status == "executed") ≡ false
    → IsExecuted (report ∷ systems)
    → ⊥
idle-here report systems named other (inl (_, e)) =
    absurd (cc ((eq_iff report.status "executed").1 e, other))
idle-here report systems named other (inr (unnamed, _)) = unnamed named

idle-past :
    (report : SystemReport) (systems : List SystemReport)
    → report.system ≢ "marciana"
    → (¬ IsExecuted systems)
    → IsExecuted (report ∷ systems)
    → ⊥
idle-past report systems unnamed idle (inl (named, _)) = unnamed named
idle-past report systems unnamed idle (inr (_, e)) = idle e

unnamed : (s : String) → (s == "marciana") ≡ false → s ≢ "marciana"
unnamed s past named = absurd (cc ((eq_iff s "marciana").1 named, past))

ran-IsExecuted :
    (systems : List SystemReport)
    → (IsExecuted systems × (ran systems ≡ true)) ⊎ ((¬ IsExecuted systems) × (ran systems ≡ false))
unfolding marciana
ran-IsExecuted [] = inr (λ e. e, refl)
ran-IsExecuted (report ∷ systems) = elim (Bool-cases (report.system == "marciana")) [
  | inl here ↦
      let named = (eq_iff report.system "marciana").0 here in
      elim (Bool-cases (report.status == "executed")) [
        | inl done ↦
            inl (
              inl (named, (eq_iff report.status "executed").0 done),
              rw (marciana, here, done) refl,
            )
        | inr other ↦ inr (idle-here report systems named other, rw (marciana, here, other) refl)
      ]
  | inr past ↦ elim (ran-IsExecuted systems) [
    | inl (rest, e) ↦ inl (inr (unnamed report.system past, rest), rw (marciana, past) e)
    | inr (rest, e) ↦
        inr (idle-past report systems (unnamed report.system past) rest, rw (marciana, past) e)
  ]
]

overall-ran :
    (gates : Dict ℕ) (systems : List SystemReport)
    → overall_status gates systems
      ≡ (if any_failed gates then "fail" else if ran systems then "pass" else "incomplete")
unfolding overall_status
overall-ran gates systems = elim (Option-cases (marciana systems)) [
  | inl missing ↦ ground arith
  | inr (report, found) ↦ ground arith
]

differ : {s t : String} → s ≡ t → (s == t) ≡ false → ⊥
differ {s} {t} e d = absurd (cc ((eq_iff s t).1 e, d))

-- The three statuses are told apart.
decided :
    (outcomes : List CaseOutcome) (mismatches : ℕ) (systems : List SystemReport) (failed : Bool)
    → (IsWell outcomes mismatches × (failed ≡ false))
      ⊎ ((¬ IsWell outcomes mismatches) × (failed ≡ true))
    → (IsExecuted systems × (ran systems ≡ true)) ⊎ ((¬ IsExecuted systems) × (ran systems ≡ false))
    → Decides outcomes mismatches systems
        (if failed then "fail" else if ran systems then "pass" else "incomplete")
decided outcomes mismatches systems failed (inr (ill, e)) runs = rw e (record {
  passes = (λ s. absurd (differ s refl), λ w. absurd (ill (w.0, w.1)));
  fails = (λ s. ill, λ i. refl);
  incomplete = (λ s. absurd (differ s refl), λ w. absurd (ill (w.0, w.1)));
})
decided outcomes mismatches systems failed (inl (well, e)) (inl (runs, r)) =
    rw (e, r)
      (record {
        passes = (λ s. (well.0, well.1, runs), λ w. refl);
        fails = (λ s. absurd (differ s refl), λ i. absurd (i well));
        incomplete = (λ s. absurd (differ s refl), λ w. absurd (w.2 runs));
      })
decided outcomes mismatches systems failed (inl (well, e)) (inr (idle, r)) =
    rw (e, r)
      (record {
        passes = (λ s. absurd (differ s refl), λ w. absurd (idle w.2));
        fails = (λ s. absurd (differ s refl), λ i. absurd (i well));
        incomplete = (λ s. (well.0, well.1, idle), λ w. refl);
      })

-- The gates of a report are always counted, and decide its status. It is "fail" exactly if a case
-- that must not fail is not correct, the case "isolation-tenant" or one of the eight categories that
-- are gated, or the two runs had a mismatch. Otherwise it is "pass" exactly if the first report of
-- the system "marciana" is of a run, and "incomplete" exactly if there is none such.
pub status_exact :
    (outcomes : List CaseOutcome) (mismatches : ℕ) (systems : List SystemReport)
    → (gates : Dict ℕ) × (hard_gates outcomes mismatches ≡ some gates)
      × Decides outcomes mismatches systems (overall_status gates systems)
status_exact outcomes mismatches systems =
    let (gates, made, _, failed) = hard_gates-Counts outcomes mismatches in
    (
      gates,
      made,
      rw (overall-ran gates systems, failed)
          (decided outcomes mismatches systems _ (IsWell-cases outcomes mismatches)
            (ran-IsExecuted systems)),
    )
