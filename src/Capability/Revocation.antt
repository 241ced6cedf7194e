-- ===== src/Capability/Revocation.antt =====
-- Revocation and expiry of docs/book/code/capability/capability_adversarial/backend.py are final.
use adversarial_cognition.Prelude.{
  suc, ◌≤◌, ◌<◌, ◌≡◌, true, false, List, [], ◌∷◌, arith, contains, eq_refl, refl,
}
use adversarial_cognition.Prelude.Int.{◌≤ℤ◌}
use adversarial_cognition.Hashes.{Hashes}
use adversarial_cognition.Capability.{Guard, verify, revoke, revoke_all}
use adversarial_cognition.Capability.Sealing.{Capability}
use adversarial_cognition.Capability.Histories.{
  Call, happen, run, run-Follows, IsForward, happen-now,
}

module _ (h : Hashes) where
  unverified_revoked :
      (g : Guard) (c : Capability) → contains c.cap_id g.revoked ≡ true → verify h g c ≡ false
  unfolding verify
  unverified_revoked g c e = ground arith

  unverified_epoch : (g : Guard) (c : Capability) → c.epoch < g.min_epoch → verify h g c ≡ false
  unfolding verify
  unverified_epoch g c e = ground arith

  epoch-revoke_all : (g : Guard) → (revoke_all h g).min_epoch ≡ suc g.min_epoch
  unfolding revoke_all
  epoch-revoke_all g = refl

  -- After `revoke` of its identifier a capability verifies never again, whatever calls and restarts
  -- follow, and after `revoke_all` no capability does that was minted before.
  pub revocation_final :
      (c : Capability) (g : Guard) (calls : List Call)
      → (verify h (run h calls (revoke h c.cap_id g)) c ≡ false)
        × (c.epoch ≤ g.min_epoch → verify h (run h calls (revoke_all h g)) c ≡ false)
  revocation_final c g calls = (
    unverified_revoked (run h calls (revoke h c.cap_id g)) c (
        (run-Follows h calls (revoke h c.cap_id g)).revoked c.cap_id
          (unfold revoke in ground (arith, eq_refl c.cap_id))),
    λ minted.
        unverified_epoch (run h calls (revoke_all h g)) c
          (omega (arith, (run-Follows h calls (revoke_all h g)).epoch, epoch-revoke_all g)),
  )

module _ (h : Hashes) where
  run-now : (calls : List Call) (g : Guard) → IsForward calls → g.now ≤ℤ (run h calls g).now
  unfolding run
  run-now [] g f = omega arith
  run-now (c ∷ calls) g f = omega (arith, happen-now h c g f.0, run-now calls (happen h c g) f.1)

  unverified_expired : (g : Guard) (c : Capability) → c.expiry ≤ℤ g.now → verify h g c ≡ false
  unfolding verify
  unverified_expired g c e = ground arith

  -- A capability whose lease has ended verifies never again, whatever calls and restarts follow, as
  -- long as no `tick` turns the clock back.
  pub expiry_final :
      (c : Capability) (g : Guard) (calls : List Call)
      → c.expiry ≤ℤ g.now
      → IsForward calls
      → verify h (run h calls g) c ≡ false
  expiry_final c g calls ended forward =
      unverified_expired (run h calls g) c (omega (arith, run-now calls g forward))
