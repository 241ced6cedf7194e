-- ===== src/Protocol/Simulation/Scenarios.antt =====
-- `_scenarios` of adapters/protocol.py on two systems that answer alike.
use adversarial_cognition.Prelude.{◌≡◌, refl, Bool, false, [], ◌∷◌, Dict}
use adversarial_cognition.Hashes.{Hashes}
use adversarial_cognition.Protocol.{Call, Outcome, outcome, MemorySystem}
use adversarial_cognition.Protocol.Scenarios
use adversarial_cognition.Protocol.Scenarios.{scenarios}
use adversarial_cognition.Protocol.Simulation.{
  Same, Simulates, same_end, if-Same, pure-Same, recall-Same,
}

module _ {S T : Type 0} (Related : S → T → Type 0) where
  -- Two tables with the same keys, and calls that end alike
  abbrev pub SameTable : Dict (Call S Outcome) → Dict (Call T Outcome) → Type 0
  SameTable [] [] = Unit
  SameTable ((j, m) ∷ d) ((k, n) ∷ e) = (j ≡ k) × Same Related m n × SameTable d e
  SameTable _ _ = ⊥

  module _ (h : Hashes) (a : MemorySystem S) (b : MemorySystem T) (sim : Simulates Related a b)
      (temporal : Bool) where
    retrieval_current-Same :
        Same Related
          (Scenarios.retrieval_current h a temporal)
          (Scenarios.retrieval_current h b temporal)
    unfolding Scenarios.retrieval_current
    retrieval_current-Same = recall-Same Related h a b sim temporal _ _ _

    temporal_history-Same :
        Same Related
          (Scenarios.temporal_history h a temporal)
          (Scenarios.temporal_history h b temporal)
    unfolding Scenarios.temporal_history
    temporal_history-Same = recall-Same Related h a b sim temporal _ _ _

    abstain_unknown-Same :
        Same Related
          (Scenarios.abstain_unknown h a temporal)
          (Scenarios.abstain_unknown h b temporal)
    unfolding Scenarios.abstain_unknown
    abstain_unknown-Same = recall-Same Related h a b sim temporal _ _ _

    isolation_tenant-Same :
        Same Related
          (Scenarios.isolation_tenant h a temporal)
          (Scenarios.isolation_tenant h b temporal)
    unfolding Scenarios.isolation_tenant
    isolation_tenant-Same = recall-Same Related h a b sim temporal _ _ _

    isolation_clearance-Same :
        Same Related
          (Scenarios.isolation_clearance h a temporal)
          (Scenarios.isolation_clearance h b temporal)
    unfolding Scenarios.isolation_clearance
    isolation_clearance-Same = recall-Same Related h a b sim temporal _ _ _

    purpose_denial-Same :
        Same Related (Scenarios.purpose_denial h a temporal) (Scenarios.purpose_denial h b temporal)
    unfolding Scenarios.purpose_denial
    purpose_denial-Same = recall-Same Related h a b sim temporal _ _ _

    malformed_empty-Same :
        Same Related
          (Scenarios.malformed_empty h a temporal)
          (Scenarios.malformed_empty h b temporal)
    unfolding Scenarios.malformed_empty
    malformed_empty-Same = recall-Same Related h a b sim temporal _ _ _

    oversized_query-Same :
        Same Related
          (Scenarios.oversized_query h a temporal)
          (Scenarios.oversized_query h b temporal)
    unfolding Scenarios.oversized_query
    oversized_query-Same = recall-Same Related h a b sim temporal _ _ _

    confusable_query-Same :
        Same Related
          (Scenarios.confusable_query h a temporal)
          (Scenarios.confusable_query h b temporal)
    unfolding Scenarios.confusable_query
    confusable_query-Same = recall-Same Related h a b sim temporal _ _ _

    forged_source-Same :
        Same Related (Scenarios.forged_source h a temporal) (Scenarios.forged_source h b temporal)
    unfolding Scenarios.forged_source
    forged_source-Same s t r =
        same_end Related _ _ _ _ (sim.improves _ _ _ _ _ _ s t r) (λ done. pure-Same Related _)

    stale_proposal-Same :
        Same Related (Scenarios.stale_proposal h a temporal) (Scenarios.stale_proposal h b temporal)
    unfolding Scenarios.stale_proposal
    stale_proposal-Same s t r =
        same_end Related _ _ _ _ (sim.improves _ _ _ _ _ _ s t r) (λ done. pure-Same Related _)

    replay_again-Same :
        Same Related (Scenarios.replay_again h a temporal) (Scenarios.replay_again h b temporal)
    unfolding Scenarios.replay_again
    replay_again-Same s t r =
        same_end Related _ _ _ _ (sim.remembers _ _ _ _ s t r) (λ second. pure-Same Related _)

    replay_mutation-Same :
        Same Related
          (Scenarios.replay_mutation h a temporal)
          (Scenarios.replay_mutation h b temporal)
    unfolding Scenarios.replay_mutation
    replay_mutation-Same s t r = same_end Related _ _ _ _ (sim.remembers _ _ _ _ s t r) (λ first.
        if-Same Related first _ _ _ _ replay_again-Same (pure-Same Related (outcome false [])))

    replay_restarted-Same :
        Same Related
          (Scenarios.replay_restarted h a temporal)
          (Scenarios.replay_restarted h b temporal)
    unfolding Scenarios.replay_restarted
    replay_restarted-Same s t r = same_end Related _ _ _ _ (sim.restarts s t r) (λ _ u v q.
        same_end Related _ _ _ _ (sim.remembers _ _ _ _ u v q) (λ second. pure-Same Related _))

    replay_restart-Same :
        Same Related (Scenarios.replay_restart h a temporal) (Scenarios.replay_restart h b temporal)
    unfolding Scenarios.replay_restart
    replay_restart-Same s t r = same_end Related _ _ _ _ (sim.remembers _ _ _ _ s t r) (λ first.
        if-Same Related first _ _ _ _ replay_restarted-Same (pure-Same Related (outcome false [])))

    idempotent_retry-Same :
        Same Related
          (Scenarios.idempotent_retry h a temporal)
          (Scenarios.idempotent_retry h b temporal)
    unfolding Scenarios.idempotent_retry
    idempotent_retry-Same s t r =
        same_end Related _ _ _ _ (sim.improves _ _ _ _ _ _ s t r) (λ first u v q.
          same_end Related _ _ _ _ (sim.improves _ _ _ _ _ _ u v q) (λ second w x p.
            same_end Related _ _ _ _ (recall-Same Related h a b sim temporal _ _ _ w x p)
              (λ result. pure-Same Related _)))

    recall_after_forget-Same :
        Same Related
          (Scenarios.recall_after_forget h a temporal)
          (Scenarios.recall_after_forget h b temporal)
    unfolding Scenarios.recall_after_forget
    recall_after_forget-Same s t r =
        same_end Related _ _ _ _ (sim.restarts s t r)
          (λ _. recall-Same Related h a b sim temporal _ _ _)

    forget_derived-Same :
        Same Related (Scenarios.forget_derived h a temporal) (Scenarios.forget_derived h b temporal)
    unfolding Scenarios.forget_derived
    forget_derived-Same s t r = same_end Related _ _ _ _ (sim.remembers _ _ _ _ s t r) (λ _ u v q.
        same_end Related _ _ _ _ (sim.forgets _ _ u v q) (λ done.
          if-Same Related done _ _ _ _ recall_after_forget-Same
            (pure-Same Related (outcome false []))))

    restart_reproducible-Same :
        Same Related
          (Scenarios.restart_reproducible h a temporal)
          (Scenarios.restart_reproducible h b temporal)
    unfolding Scenarios.restart_reproducible
    restart_reproducible-Same s t r =
        same_end Related _ _ _ _ (recall-Same Related h a b sim temporal _ _ _ s t r)
          (λ before u v q. same_end Related _ _ _ _ (sim.restarts u v q) (λ _ w x p.
            same_end Related _ _ _ _ (recall-Same Related h a b sim temporal _ _ _ w x p)
              (λ later. pure-Same Related _)))

    order_invariant-Same :
        Same Related
          (Scenarios.order_invariant h a temporal)
          (Scenarios.order_invariant h b temporal)
    unfolding Scenarios.order_invariant
    order_invariant-Same s t r =
        same_end Related _ _ _ _ (recall-Same Related h a b sim temporal _ _ _ s t r)
          (λ first u v q.
            same_end Related _ _ _ _ (recall-Same Related h a b sim temporal _ _ _ u v q)
              (λ second. pure-Same Related _))

    injection_contained-Same :
        Same Related
          (Scenarios.injection_contained h a temporal)
          (Scenarios.injection_contained h b temporal)
    unfolding Scenarios.injection_contained
    injection_contained-Same s t r =
        same_end Related _ _ _ _ (sim.remembers _ _ _ _ s t r)
          (λ _. recall-Same Related h a b sim temporal _ _ _)

    pub scenarios_same : SameTable (scenarios h a temporal) (scenarios h b temporal)
    scenarios_same = (
      refl,
      retrieval_current-Same,
      (
        refl,
        temporal_history-Same,
        (
          refl,
          abstain_unknown-Same,
          (
            refl,
            isolation_tenant-Same,
            (
              refl,
              isolation_clearance-Same,
              (
                refl,
                purpose_denial-Same,
                (
                  refl,
                  forged_source-Same,
                  (
                    refl,
                    stale_proposal-Same,
                    (
                      refl,
                      replay_mutation-Same,
                      (
                        refl,
                        replay_restart-Same,
                        (
                          refl,
                          idempotent_retry-Same,
                          (
                            refl,
                            forget_derived-Same,
                            (
                              refl,
                              restart_reproducible-Same,
                              (
                                refl,
                                order_invariant-Same,
                                (
                                  refl,
                                  malformed_empty-Same,
                                  (
                                    refl,
                                    oversized_query-Same,
                                    (
                                      refl,
                                      confusable_query-Same,
                                      (refl, injection_contained-Same, tt),
                                    ),
                                  ),
                                ),
                              ),
                            ),
                          ),
                        ),
                      ),
                    ),
                  ),
                ),
              ),
            ),
          ),
        ),
      ),
    )
