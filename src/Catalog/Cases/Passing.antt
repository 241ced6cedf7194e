-- ===== src/Catalog/Cases/Passing.antt =====
-- The reference catalog passes the suite of
-- docs/book/code/catalog-provenance/catalog_provenance/cases.py.
use adversarial_cognition.Prelude.{◌≡◌, refl, true, some, List, [], ◌∷◌, eq_refl, get, put, sym}
use adversarial_cognition.Hashes.{Hashes}
use adversarial_cognition.Catalog.{
  create, commit_receipt, evidence, advance, scan, tombstone, tombstone_receipt, bury, replay,
}
use adversarial_cognition.Catalog.State.{
  bad_text, live, pointer, recorded, restart, store_outcome, stored_outcome,
}
use adversarial_cognition.Catalog.Receipts.{
  digest, receipt_hash_of, sealed, sealed_scan, verifies, scan_verifies,
}
use adversarial_cognition.Catalog.Committing.{commit_applies}
use adversarial_cognition.Catalog.Cases
use adversarial_cognition.Catalog.Cases.{seeded, forge, events, operator, policy, secret, hidden}
use adversarial_cognition.Catalog.Cases.Suite.{Case, cases, run_case}
use adversarial_cognition.Cases.Passing.{ne→false, ◌also◌}
use adversarial_cognition.Catalog.Cases.Commits.{
  created, after, Separates, same_receipt_refl, first_applies, commit_refused, commit_again,
  first_verified, first_recorded, u_applies,
}

-- Every case of a suite is passed.
abbrev pub PassesAll : Hashes → List Case → Type 0
PassesAll h [] = Unit
PassesAll h (c ∷ cs) = (run_case h c ≡ some true) × PassesAll h cs

-- What the model of the catalog computes with.
engine : Unit {0}
unfolding get put create advance scan tombstone tombstone_receipt bury replay bad_text live pointer
    recorded restart store_outcome stored_outcome sealed sealed_scan verifies scan_verifies run_case
    seeded
engine = tt

module _ (h : Hashes) (sep : Separates h) where
  fresh_passed : Cases.commit_fresh h (seeded h) ≡ some true
  unfolding engine Cases.commit_fresh commit_receipt
  fresh_passed =
      rw
        (
          Cases.commit_fresh,
          first_applies h "add-snapshot" operator "n1" "job-1" refl refl,
          ne→false _ _ (λ e. sep.moved.0 (sym e)),
        )
        refl

  stale_passed : Cases.cas_stale_rejected h (seeded h) ≡ some true
  unfolding engine Cases.cas_stale_rejected commit_receipt
  stale_passed =
      rw
        (
          Cases.cas_stale_rejected,
          first_applies h "u1" operator "n1" "job-1" refl refl,
          commit_refused h (digest h created) "u2" operator "n2" "job-2"
              (after h "u1" operator "n1" "job-1") _ refl refl refl sep.moved.1.0,
        )
        refl

  concurrent_passed : Cases.cas_concurrent h (seeded h) ≡ some true
  unfolding engine Cases.cas_concurrent commit_receipt
  concurrent_passed =
      rw
        (
          Cases.cas_concurrent,
          first_applies h "a" "did:key:w1" "na" "job-a" refl refl,
          commit_refused h (digest h created) "b" "did:key:w2" "nb" "job-b"
              (after h "a" "did:key:w1" "na" "job-a") _ refl refl refl sep.moved.1.1.0,
        )
        refl

  retry_passed : Cases.idempotent_retry h (seeded h) ≡ some true
  unfolding engine Cases.idempotent_retry
  retry_passed =
      rw
        (
          Cases.idempotent_retry,
          first_applies h "u" operator "n1" "job-k" refl refl,
          commit_again h (digest h created) "u" operator "n2" "job-k"
              (after h "u" operator "n1" "job-k") _ refl refl,
          same_receipt_refl,
          eq_refl,
        )
        refl

  retry_restarted_passed : Cases.idempotent_across_restart h (seeded h) ≡ some true
  unfolding engine Cases.idempotent_across_restart
  retry_restarted_passed =
      rw
        (
          Cases.idempotent_across_restart,
          first_applies h "u" operator "n1" "job-k" refl refl,
          commit_again h (digest h created) "u" operator "n2" "job-k"
              (after h "u" operator "n1" "job-k") _ refl refl,
          same_receipt_refl,
        )
        refl

  audit_passed : Cases.durable_audit h (seeded h) ≡ some true
  unfolding engine Cases.durable_audit
  audit_passed = rw (Cases.durable_audit, u_applies h) refl

  outbox_passed : Cases.outbox_atomic_present h (seeded h) ≡ some true
  unfolding engine Cases.outbox_atomic_present
  outbox_passed = rw (Cases.outbox_atomic_present, u_applies h) refl

  reject_passed : Cases.outbox_absent_on_reject h (seeded h) ≡ some true
  unfolding engine Cases.outbox_absent_on_reject commit_receipt
  reject_passed =
      rw
        (
          Cases.outbox_absent_on_reject,
          first_applies h "u1" operator "n1" "job-1" refl refl,
          commit_refused h (digest h created) "u2" operator "n2" "job-2"
              (after h "u1" operator "n1" "job-1") _ refl refl refl sep.moved.1.0,
        )
        refl

  replay_passed : Cases.replay_verifies h (seeded h) ≡ some true
  unfolding advance replay restart pointer seeded create get put bad_text stored_outcome
      Cases.replay_verifies
  replay_passed = rw (Cases.replay_verifies, u_applies h, first_verified h, first_recorded h) refl

  forged_passed : Cases.replay_forged_rejected h (seeded h) ≡ some true
  unfolding engine Cases.replay_forged_rejected receipt_hash_of digest commit_receipt
  forged_passed = rw (Cases.replay_forged_rejected, u_applies h, ne→false _ _ sep.unforged) refl

  scan_passed : Cases.governed_scan_receipt h (seeded h) ≡ some true
  unfolding engine Cases.governed_scan_receipt
  scan_passed = rw (Cases.governed_scan_receipt, u_applies h, eq_refl, eq_refl) refl

  mismatch_passed : Cases.governed_scan_mismatch_rejected h (seeded h) ≡ some true
  unfolding engine Cases.governed_scan_mismatch_rejected
  mismatch_passed = rw (Cases.governed_scan_mismatch_rejected, ne→false _ _ sep.policies) refl

  chain_passed : Cases.receipt_chain_linked h (seeded h) ≡ some true
  unfolding engine Cases.receipt_chain_linked commit_receipt
  chain_passed =
      rw
        (
          Cases.receipt_chain_linked,
          first_applies h "u1" operator "n1" "job-1" refl refl,
          commit_applies h events (pointer events (after h "u1" operator "n1" "job-1")) "u2"
              operator policy "n2" "job-2" (after h "u1" operator "n1" "job-1") _ refl refl refl
              refl,
          first_applies h "u1" operator "n1" "job-1" refl refl,
          eq_refl,
        )
        refl

  tombstone_passed : Cases.tombstone_covered h (seeded h) ≡ some true
  unfolding engine Cases.tombstone_covered
  tombstone_passed = rw (Cases.tombstone_covered, u_applies h) refl

  hidden_passed : Cases.hash_only_audit h (seeded h) ≡ some true
  unfolding engine Cases.hash_only_audit commit_receipt evidence
  hidden_passed =
      rw
        (
          Cases.hash_only_audit,
          first_applies h secret operator "n1" "job-1" refl refl,
          sep.opaque,
          sep.opaque,
          sep.opaque,
          sep.opaque,
        )
        refl

  lineage_passed : Cases.lineage_emitted h (seeded h) ≡ some true
  unfolding engine Cases.lineage_emitted
  lineage_passed = rw (Cases.lineage_emitted, u_applies h) refl

  restart_passed : Cases.restart_reproducible h (seeded h) ≡ some true
  unfolding advance replay restart pointer seeded create get put bad_text stored_outcome
      Cases.restart_reproducible
  restart_passed =
      rw (Cases.restart_reproducible, u_applies h, first_verified h, first_recorded h) refl

  -- Whatever the digests, as long as they separate the texts that the cases compare and show nothing
  -- of the secret: the reference catalog, seeded anew for each case, passes every case of the
  -- provenance benchmark.
  pub reference-PassesAll : PassesAll h (cases h)
  unfolding run_case
  reference-PassesAll =
      fresh_passed also stale_passed also concurrent_passed also retry_passed
      also retry_restarted_passed also audit_passed also outbox_passed also reject_passed
      also replay_passed also forged_passed also scan_passed also mismatch_passed also chain_passed
      also tombstone_passed also hidden_passed also lineage_passed also restart_passed also tt
