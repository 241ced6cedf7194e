-- ===== src/Cases/Examples.antt =====
-- The theorems on the cases of adversarial_cognition/cases.py at one choice of digests.
use adversarial_cognition.Prelude.{◌≢◌, arith, eq_iff}
use adversarial_cognition.Hashes.{plain}
use adversarial_cognition.Vault.{digest}
use adversarial_cognition.Vault.Seed.{fresh}
use adversarial_cognition.Cases.Suite.{cases}
use adversarial_cognition.Cases.Passing.{Passes, reference-Passes}

current-ne-wrong : digest plain "price-current" ≢ digest plain "wrong"
unfolding digest
current-ne-wrong = ground (arith, eq_iff "sha256:price-current" "sha256:wrong")

current-ne-old : digest plain "price-current" ≢ digest plain "price-old"
unfolding digest
current-ne-old = ground (arith, eq_iff "sha256:price-current" "sha256:price-old")

reference-Passes_example : Passes (fresh plain) (cases plain)
reference-Passes_example = reference-Passes plain current-ne-wrong current-ne-old
