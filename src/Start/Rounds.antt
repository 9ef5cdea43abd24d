-- ===== src/Start/Rounds.antt =====
-- The probing of the devices at the start, round after round.
use baremetal_crt.Common.{
  ℕ, zero, suc, ◌≡◌, ◌≢◌, subst, inl, inr, Bool-cases, true, false, Option, some, if◌then◌else◌, ℤ,
  pos, eq_ℤ, eagain, arith,
}
use baremetal_crt.Device.{Tree, head, dev_root, is_error}
use baremetal_crt.Device.Probe.{at_device, k_device_probe_all}
use baremetal_crt.Device.Probe.Kept.{Extends, Extends-trans, DriversEnd}
use baremetal_crt.Device.Probe.Reach.{Ends, Ends-Extends, AllProbed, drivers_end}
use baremetal_crt.Device.Probe.All.{k_device_probe_all-AllProbed}
use baremetal_crt.Start.{probe_rounds}

error_ne : (r : ℤ) → is_error r ≡ true → r ≢ pos 0
error_ne r b z = ground (arith, b, z)

zero_of : (r : ℤ) → is_error r ≡ false → eq_ℤ r eagain ≡ false → r ≡ pos 0
zero_of r b a = ground (arith, b, a)

of_if : (r : ℤ) (A : Type 0) → r ≡ pos 0 → if eq_ℤ r (pos 0) then A else Unit {0} → A
of_if r A z q = rw z at q

module _ {W : Type 0} (add_device : (drv dev : ℕ) → Option (Tree → W → ℤ × W))
    (add_bus : (drv bus : ℕ) → Option (Tree → W → ℤ × W)) (n : ℕ) where
  abbrev probe_all : Tree → W → Option (ℤ × Tree × W)
  probe_all = k_device_probe_all add_device add_bus n n

  -- When the rounds of probes at the start end with 0, every device has been probed that is reached from the
  -- root by the first bus below a device and the devices on that bus (not by the buses that `bus_next`
  -- chains behind it), and nothing went wrong before. For a tree whose links end within the fuel of a probe, and drivers that are
  -- a list that ends.
  pub probe_rounds-AllProbed :
      (f : ℕ) (res : ℤ) (t : Tree) (w : W) (u : Tree) (v : W)
      → Ends n t (at_device dev_root)
      → DriversEnd n t.drivers head
      → probe_rounds probe_all f res t w ≡ some (pos 0, u, v)
      → AllProbed u (at_device dev_root) × (res ≡ pos 0) × Extends t u
  unfolding probe_rounds
  probe_rounds-AllProbed zero res t w u v e ds h = cc h
  probe_rounds-AllProbed (suc f) res t w u v e ds h =
      let (r, t', w', p, x, q) = k_device_probe_all-AllProbed add_device add_bus n n t w e ds in
      elim (Bool-cases (is_error r)) [
        | inl b ↦ let g = rw (p, b) at h in let z : r ≡ pos 0 = cc g in absurd (error_ne r b z)
        | inr b ↦ elim (Bool-cases (eq_ℤ r eagain)) [
          | inl a ↦
              let g = rw (p, b, a) at h in
              let k =
                probe_rounds-AllProbed f res t' w' u v (Ends-Extends n (at_device dev_root) x e)
                  (drivers_end n x ds) g in
              (k.0, k.1, Extends-trans x k.2)
          | inr a ↦
              let g = rw (p, b, a) at h in
              let same : t' ≡ u = cc g in
              (
                subst (λ y. AllProbed y (at_device dev_root)) same
                    (of_if r (AllProbed t' (at_device dev_root)) (zero_of r b a) q),
                cc g,
                subst (λ y. Extends t y) same x,
              )
        ]
      ]
