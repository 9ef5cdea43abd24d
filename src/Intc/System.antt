-- ===== src/Intc/System.antt =====
-- The handlers of the interrupt controllers as the functions that their names stand for: a core's
-- (driver/intc/riscv/rv_priv.c), and below it those of plic.c and clint.c in driver/intc/sifive.
pub mod Entry
pub mod Ipi
pub mod External
use baremetal_crt.Common.{ℕ, Option, none, some, ◌==◌, if◌then◌else◌, ℤ}
use baremetal_crt.Event.{Handlers, event_not_handled}
use baremetal_crt.Intc.RvPriv.{intc_priv_intr}
use baremetal_crt.Intc.Plic.{PlicPriv, intc_plic_intr}
use baremetal_crt.Intc.Clint.{intc_clint_intr}

-- The functions' names, and the PLIC's structure.
pub record Functions : Type 0 where
  pub priv_intr : ℕ
  pub plic_intr : ℕ
  pub clint_intr : ℕ
  pub plic : PlicPriv

-- `read32` and `write32` are the registers of the PLIC, and `write_clint` those of the CLINT. `driver` is what the
-- other drivers' handlers do, `fault` is the end of a handler that faults, and `hart` is
-- the hart that runs.
module _ {ℓ} {W : Type ℓ} (fs : Functions) (fuel hart : ℕ) (read32 : (off : ℕ) → W → ℕ × W)
    (write32 write_clint : (dat off : ℕ) → W → W)
    (driver : (func : ℕ) → (event : ℤ) → (handler : ℕ) → Handlers × W → ℤ × Handlers × W)
    (fault : W → W) where
  -- A handler that the PLIC or a core calls.
  unfoldable pub call_device :
      (func : ℕ) → (event : ℤ) → (handler : ℕ) → Handlers × W → ℤ × Handlers × W
  call_device func event handler (h, w) =
      let (r, w1) = intc_clint_intr write_clint hart event w in
      if func == fs.clint_intr then (r, h, w1) else driver func event handler (h, w)

  -- A handler that a core calls: the PLIC's calls those of its sources.
  unfoldable pub call_core :
      (func : ℕ) → (event : ℤ) → (handler : ℕ) → Handlers × W → ℤ × Handlers × W
  unfolding call_device
  call_core func event handler (h, w) =
      if func == fs.plic_intr
      then elim (intc_plic_intr read32 write32 call_device fuel fs.plic (h, w)) [
        | none ↦ (event_not_handled, h, fault w)
        | some r ↦ r
      ]
      else call_device func event handler (h, w)

  -- A handler that is entered from the table of the interrupts.
  unfoldable pub call_entry :
      (func : ℕ) → (event : ℤ) → (handler : ℕ) → Handlers × W → Option (ℤ × Handlers × W)
  unfolding call_core
  call_entry func event handler (h, w) =
      if func == fs.priv_intr
      then intc_priv_intr call_core fuel event handler (h, w)
      else some (call_core func event handler (h, w))
