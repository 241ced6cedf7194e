-- ===== src/Vault/Seed.antt =====
-- `seed` of adversarial_cognition/backend.py and `_fresh` of adversarial_cognition/cases.py.
use adversarial_cognition.Prelude.{some}
use adversarial_cognition.Hashes.{Hashes}
use adversarial_cognition.Vault.{Memory, Vault, empty, actor, memory, date, digest, remember}

module _ (h : Hashes) where
  abbrev pub price_old : Memory
  price_old =
      record (memory "price-old" "Honduras coffee price was 3.80 USD per kg at San Pedro Sula"
        "dataverse:coffee:2025-12" (digest h "price-old")) {
          valid_from = date 2025 1 1;
          valid_until = some (date 2026 1 1);
        }

  abbrev pub price_current : Memory
  price_current =
      memory "price-current" "Honduras coffee price is 4.20 USD per kg at San Pedro Sula"
        "dataverse:coffee:2026-01" (digest h "price-current")

  abbrev pub private_farm : Memory
  private_farm =
      record (memory "private-farm" "Private farm price is 9.00 USD per kg" "private:farm-7"
        (digest h "private-farm")) { sensitivity = 3 }

  abbrev pub soil : Memory
  soil =
      memory "soil" "Honduras coffee farms use volcanic soil at high altitude" "agstack:soil"
        (digest h "soil")

  -- The decisions of the four calls are not used.
  unfoldable pub seed : Vault → Vault
  seed v0 =
      let v1 = (remember h price_old (actor "did:key:operator") "seed-old" v0).1 in
      let v2 = (remember h price_current (actor "did:key:operator") "seed-current" v1).1 in
      let v3 =
        (remember h private_farm (record (actor "did:key:operator") { clearance = 3 })
          "seed-private" v2).1 in
      (remember h soil (actor "did:key:operator") "seed-soil" v3).1

  unfoldable pub fresh : Vault
  unfolding seed
  fresh = seed empty
