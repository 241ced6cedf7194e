-- ===== src/Report/Mismatches.antt =====
-- `receipt_mismatches` of adversarial_cognition/report.py.
use adversarial_cognition.Prelude.{
  ◌≡◌, refl, sym, ap, ◌&&◌, ◌↔◌, inl, inr, some, List, [], ◌∷◌, ◌==◌, eq_iff, arith, same_texts,
  same_texts→path, same_texts_refl, Option-cases, Bool-cases,
}
use adversarial_cognition.Report.{CaseOutcome, receipt_mismatches}

-- The two runs have the same receipts and identifiers, case by case.
abbrev pub Agree : List CaseOutcome → List CaseOutcome → Type 0
Agree [] [] = Unit
Agree (one ∷ first) (two ∷ second) =
    (one.receipt ≡ two.receipt) × (one.returned_ids ≡ two.returned_ids) × Agree first second
Agree _ _ = ⊥

mismatches→Agree :
    (first second : List CaseOutcome)
    → receipt_mismatches first second ≡ some 0
    → Agree first second
unfolding receipt_mismatches
mismatches→Agree [] [] e = tt
mismatches→Agree [] (two ∷ second) e = absurd (ground arith)
mismatches→Agree (one ∷ first) [] e = absurd (ground arith)
mismatches→Agree (one ∷ first) (two ∷ second) e =
    elim (Option-cases (receipt_mismatches first second)) [
      | inl differ ↦ absurd (ground arith)
      | inr (n, counted) ↦
          elim (Bool-cases
            (one.receipt == two.receipt && same_texts one.returned_ids two.returned_ids)) [
              | inr unlike ↦ absurd (ground arith)
              | inl like ↦ (
                (eq_iff one.receipt two.receipt).0 (ground arith),
                sym (same_texts→path one.returned_ids two.returned_ids (ground arith)),
                mismatches→Agree first second (ground arith),
              )
            ]
    ]

Agree→mismatches :
    (first second : List CaseOutcome)
    → Agree first second
    → receipt_mismatches first second ≡ some 0
unfolding receipt_mismatches
Agree→mismatches [] [] a = refl
Agree→mismatches (one ∷ first) (two ∷ second) (receipt, ids, rest) =
    let later = Agree→mismatches first second rest in
    ground (
      arith,
      eq_iff one.receipt two.receipt,
      same_texts_refl one.returned_ids,
      ap (same_texts one.returned_ids) ids,
    )
Agree→mismatches [] (two ∷ second) a = absurd a
Agree→mismatches (one ∷ first) [] a = absurd a

-- Two runs have no mismatch exactly if they have as many cases and the same receipts and identifiers,
-- case by case.
pub no_mismatch_iff :
    (first second : List CaseOutcome)
    → (receipt_mismatches first second ≡ some 0) ↔ Agree first second
no_mismatch_iff first second = (mismatches→Agree first second, Agree→mismatches first second)
