-- ===== src/Protocol/Seeding.antt =====
-- SEED and `seed` of adapters/protocol.py.
use adversarial_cognition.Prelude.{
  String, Bool, true, false, not, ◌&&◌, Option, none, some, List, [], ◌∷◌, ◌==◌, if◌then◌else◌,
}
use adversarial_cognition.Vault.{Date, date}
use adversarial_cognition.Protocol.{Call, ◌>>◌, pure, MemorySystem, plainly}

pub record Entry : Type 0 where
  pub memory_id : String
  pub text : String
  pub valid_from : Option Date
  pub valid_until : Option Date
  pub private : Bool

abbrev pub seed_corpus : List Entry
seed_corpus =
    record {
      memory_id = "price-old";
      text = "Honduras coffee price was 3.80 USD per kg at San Pedro Sula";
      valid_from = some (date 2025 1 1);
      valid_until = some (date 2026 1 1);
      private = false;
    }
    ∷ record {
      memory_id = "price-current";
      text = "Honduras coffee price is 4.20 USD per kg at San Pedro Sula";
      valid_from = some (date 2026 1 1);
      valid_until = none;
      private = false;
    }
    ∷ record {
      memory_id = "private-farm";
      text = "Private farm price is 9.00 USD per kg";
      valid_from = none;
      valid_until = none;
      private = true;
    }
    ∷ record {
      memory_id = "soil";
      text = "Honduras coffee farms use volcanic soil at high altitude";
      valid_from = none;
      valid_until = none;
      private = false;
    }
    ∷ []

module _ {S : Type 0} (system : MemorySystem S) (temporal : Bool) where
  -- One round of the loop of `seed`
  unfoldable pub seed_entry : Entry → Call S Bool
  seed_entry e =
      if not temporal && e.memory_id == "price-current"
      then system.remember e.memory_id e.text "operator"
          (record plainly { private = e.private; supersedes = some "price-old" })
      else if not temporal && e.memory_id == "price-old"
      then system.remember e.memory_id e.text "operator" (record plainly { private = e.private })
      else system.remember e.memory_id e.text "operator" (record plainly {
        valid_from = e.valid_from;
        valid_until = e.valid_until;
        private = e.private;
      })

  unfoldable pub seed_all : List Entry → Call S (Unit {0})
  unfolding seed_entry
  seed_all [] = pure tt
  seed_all (e ∷ es) = seed_entry e >> seed_all es

  unfoldable pub seed : Call S (Unit {0})
  unfolding seed_all
  seed = seed_all seed_corpus
