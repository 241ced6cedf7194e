-- ===== src/Vault/Examples.antt =====
-- The theorems on the vault at the seeded vault of adversarial_cognition/backend.py.
use adversarial_cognition.Prelude.{
  ◌≤◌, ◌<◌, String, ◌≡◌, refl, ◌↔◌, true, false, some, List, [], ◌∷◌, arith, get, put, contains,
}
use adversarial_cognition.Hashes.{plain}
use adversarial_cognition.Vault.{
  Actor, Memory, Vault, actor, memory, date, digest, empty, claim, authorized, expired, visible,
  rank, remember, recall, improve, forget, forget_derived,
}
use adversarial_cognition.Vault
use adversarial_cognition.Vault.Words.{words, overlap}
use adversarial_cognition.Vault.Ranking.{sort, ids_of, repr_ranked}
use adversarial_cognition.Vault.Seed.{fresh, price_current, price_old, private_farm, soil}
use adversarial_cognition.Vault.Requests.{Request, Event, ask, answer, run}
use adversarial_cognition.Vault.Replay.{refusal, replay_refused}
use adversarial_cognition.Vault.Invariant.{IsWellFormed, run-IsWellFormed}
use adversarial_cognition.Vault.Policy.{recall_exact, Authorized, MayRead}
use adversarial_cognition.Vault.Forgetting.{
  MayForget, without, forget_exact, forget_leaves_no_recall,
}
use adversarial_cognition.Vault.Mutating.{MayImprove}
use adversarial_cognition.Vault.Order.{SameWords}
use adversarial_cognition.Vault.Retrying.{improve_retried}

engine : Unit {0}
unfolding Vault.restart claim authorized expired visible rank digest remember recall improve forget
    forget_derived words overlap sort ids_of repr_ranked fresh get put run
engine = tt

abbrev operator : Actor
operator = actor "did:key:operator"

abbrev seeded : Vault
seeded = fresh plain

abbrev seeding : List Event
seeding =
    ask (Request.remember (price_old plain)) operator "seed-old"
    ∷ ask (Request.remember (price_current plain)) operator "seed-current"
    ∷ ask (Request.remember (private_farm plain)) (record operator { clearance = 3 }) "seed-private"
    ∷ ask (Request.remember (soil plain)) operator "seed-soil"
    ∷ []

run-IsWellFormed_example : IsWellFormed (run plain seeding empty)
run-IsWellFormed_example = run-IsWellFormed plain seeding empty (tt, tt)

seeded-IsWellFormed : IsWellFormed seeded
unfolding engine
seeded-IsWellFormed = run-IsWellFormed plain seeding empty (tt, tt)

replay_refused_example :
    answer plain
      (Request.forget "soil")
      operator
      "n"
      (run plain (Event.restart ∷ []) (answer plain (Request.forget "soil") operator "n" seeded).1)
    ≡ (
      refusal (Request.forget "soil"),
      run plain (Event.restart ∷ []) (answer plain (Request.forget "soil") operator "n" seeded).1,
    )
replay_refused_example =
    replay_refused plain (Request.forget "soil") (Request.forget "soil") operator operator "n"
      (Event.restart ∷ []) seeded refl

operator-may :
    {m : Memory}
    → m.tenant ≡ "agstack"
    → m.space ≡ "coffee"
    → m.purpose ≡ "market-research"
    → m.sensitivity ≤ 1
    → Authorized m operator
operator-may t s p c = record { tenant = t; space = s; purpose = p; cleared = c }

recall_exact_example :
    ((recall plain "coffee price" operator (date 2026 2 1) "q" seeded).0.allowed ≡ true)
    × ((recall plain "coffee price" operator (date 2026 2 1) "q" seeded).1.memories
        ≡ seeded.memories)
    × ((contains "soil" (recall plain "coffee price" operator (date 2026 2 1) "q" seeded).0.ids
          ≡ true)
        ↔ ((m : Memory) × (get seeded.memories "soil" ≡ some m)
            × MayRead m operator (date 2026 2 1)
            × (0 < overlap (words "coffee price") (words m.text))))
recall_exact_example =
    recall_exact plain "coffee price" operator (date 2026 2 1) "q" seeded "soil" seeded-IsWellFormed
      (unfold engine in refl) (omega arith)

forget_allowance : MayForget "price-current" operator "f" seeded
unfolding engine
forget_allowance = record {
  fresh = refl;
  mutator = refl;
  target = (price_current plain, refl, operator-may refl refl refl (omega arith));
}

forget_exact_example :
    (((forget plain "price-current" operator "f" seeded).0.allowed ≡ true)
      ↔ MayForget "price-current" operator "f" seeded)
    × (MayForget "price-current" operator "f" seeded
        → (j : String)
        → get (forget plain "price-current" operator "f" seeded).1.memories j
          ≡ without "price-current" j (get seeded.memories j))
    × ((forget plain "price-current" operator "f" seeded).0.allowed ≡ false
        → (forget plain "price-current" operator "f" seeded).1.memories ≡ seeded.memories)
forget_exact_example = forget_exact plain "price-current" operator "f" seeded seeded-IsWellFormed

forget_leaves_no_recall_example :
    contains "price-current"
      (recall plain "coffee price" operator
        (date 2026 2 1)
        "q"
        (run plain (Event.restart ∷ []) (forget plain "price-current" operator "f" seeded).1)).0.ids
    ≡ false
forget_leaves_no_recall_example =
    forget_leaves_no_recall plain "price-current" "price-current" operator operator "f" "q"
      "coffee price" (date 2026 2 1) seeded (price_current plain) (Event.restart ∷ [])
      seeded-IsWellFormed forget_allowance (unfold engine in refl) refl tt

abbrev improved : Memory
improved = memory "price-improved" "coffee price is 4.60" "dataverse" "d"

improve_allowance :
    MayImprove "price-current" improved operator "i" (digest plain "price-current") "job" seeded
unfolding engine
improve_allowance = record {
  fresh = refl;
  mutator = refl;
  new_key = refl;
  source = (price_current plain, refl, refl, operator-may refl refl refl (omega arith));
  cleared = omega arith;
}

abbrev improved_vault : Vault
improved_vault =
    (improve plain "price-current" improved operator "i" (digest plain "price-current") "job"
      seeded).1

-- The retry is another tenant's, and names other memories.
abbrev rival : Actor
rival = record (actor "did:key:outsider") { tenant = "rival" }

improve_retried_example :
    ((improve plain "soil"
        (soil plain)
        rival
        "j"
        ""
        "job"
        (run plain (Event.restart ∷ []) improved_vault)).0
      ≡ (improve plain "price-current" improved operator "i"
          (digest plain "price-current")
          "job"
          seeded).0)
    × ((improve plain "soil"
          (soil plain)
          rival
          "j"
          ""
          "job"
          (run plain (Event.restart ∷ []) improved_vault)).1.memories
        ≡ (run plain (Event.restart ∷ []) improved_vault).memories)
improve_retried_example =
    improve_retried plain "price-current" "soil" improved (soil plain) operator rival "i" "j"
      (digest plain "price-current") "" "job" (Event.restart ∷ []) seeded improve_allowance refl
      (unfold engine in refl)

same_words : SameWords "coffee price" "price coffee price"
unfolding words
same_words w = ground arith
