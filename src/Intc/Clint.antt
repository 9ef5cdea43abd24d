-- ===== src/Intc/Clint.antt =====
-- driver/intc/sifive/clint.c: the software interrupts, by which one hart interrupts another.
use baremetal_crt.Common.{ℕ, ◌*◌, not, ◌==◌, eq_ℤ, if◌then◌else◌, ℤ, pos, einval}
use baremetal_crt.Event.{event_handled, event_not_handled}

abbrev pub reg_msip : (hart : ℕ) → ℕ
reg_msip hart = hart * 4

module _ {ℓ} {W : Type ℓ} (write32 : (dat off : ℕ) → W → W) where
  -- `id_phys` is the hart that runs; RV_IX_MSIX is 3.
  unfoldable pub intc_clint_intr : (id_phys : ℕ) → (event : ℤ) → W → ℤ × W
  intc_clint_intr id_phys event w =
      if eq_ℤ event (pos 3)
      then (event_handled, write32 0 (reg_msip id_phys) w)
      else (event_not_handled, w)

  -- The harts: the one that runs, and those of the CPUs `src` and `dest`.
  unfoldable pub intc_clint_raise_ipi : (id_cur id_src id_dest : ℕ) → W → ℤ × W
  intc_clint_raise_ipi id_cur id_src id_dest w =
      if not (id_cur == id_src) then (einval, w) else (pos 0, write32 1 (reg_msip id_dest) w)
