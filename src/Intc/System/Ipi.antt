-- ===== src/Intc/System/Ipi.antt =====
-- An interrupt from one hart to another, from its raise to the end of its handler.
use baremetal_crt.Common.{
  ℕ, ◌+◌, ◌^◌, ◌<◌, ◌≡◌, ◌≢◌, refl, ◌∙◌, inl, inr, Bool-cases, true, false, some, [], ◌∷◌, ◌==◌,
  if◌then◌else◌, get_or, arith, ℤ, pos,
}
use baremetal_crt.Event.{Handlers, event_handled}
use baremetal_crt.Event.Chain.{IsChain}
use baremetal_crt.Arch.Intr.{Vectors, k_arch_riscv_interrupt}
use baremetal_crt.Intc.Clint.{reg_msip, intc_clint_intr, intc_clint_raise_ipi}
use baremetal_crt.Intc.System.{Functions, call_device, call_core, call_entry}
use baremetal_crt.Intc.System.Entry.{interrupt-one}

module _ {ℓ} {W : Type ℓ} (fs : Functions) (fuel : ℕ) (read32 : (off : ℕ) → W → ℕ × W)
    (write32 write_clint : (dat off : ℕ) → W → W) (csrc_mip : (mask : ℕ) → W → W)
    (driver : (func : ℕ) → (event : ℤ) → (handler : ℕ) → Handlers × W → ℤ × Handlers × W)
    (fault : W → W) (view : W → (off : ℕ) → ℕ)
    (write_view : (dat off : ℕ) (w : W) (x : ℕ)
      → view (write_clint dat off w) x ≡ (if off == x then dat else view w x))
    (csrc_view : (mask : ℕ) (w : W) (x : ℕ) → view (csrc_mip mask w) x ≡ view w x) where
  call_clint :
      (hart func x : ℕ) (h : Handlers) (w : W)
      → func ≡ fs.clint_intr
      → fs.clint_intr ≢ fs.plic_intr
      → call_core fs fuel hart read32 write32 write_clint driver fault func (pos 3) x (h, w)
        ≡ (event_handled, h, write_clint 0 (reg_msip hart) w)
  unfolding call_core call_device intc_clint_intr
  call_clint hart func x h w f d =
      let z : (func == fs.plic_intr) ≡ false = ground (arith, f, d) in
      let y : (func == fs.clint_intr) ≡ true = ground (arith, f) in rw (z, y) refl

  same : (a c d : ℕ) → (if a == a then c else d) ≡ c
  same a c d = ground arith

  -- Setting the bit of `dest` and clearing it.
  back :
      (dest hart : ℕ) (w : W)
      → view (write_clint 0 (reg_msip dest) (write_clint 1 (reg_msip dest) w)) (reg_msip hart)
        ≡ (if hart == dest then 0 else view w (reg_msip hart))
  back dest hart w =
      let w1 = write_clint 1 (reg_msip dest) w in
      elim (Bool-cases (reg_msip dest == reg_msip hart)) [
        | inl e ↦
            let q : dest ≡ hart = ground (arith, e) in
            ground (arith, e, write_view 0 (reg_msip dest) w1 (reg_msip hart), q)
        | inr e ↦ ground (
          arith,
          e,
          write_view 0 (reg_msip dest) w1 (reg_msip hart),
          write_view 1 (reg_msip dest) w (reg_msip hart),
        )
      ]

  -- A hart that interrupts `dest` sets its bit in the registers, and where `dest` takes the software interrupt
  -- its handler clears that bit, whether it was set before or not: then the register of `dest` is 0, those
  -- of all other harts are as before, and the handlers too. For a core's handler that stands in the table and is
  -- followed by the handler of the CLINT alone, and registers of the CLINT that keep what is written and that
  -- `csrc mip` leaves alone.
  pub raise_ipi-taken :
      (v : Vectors) (h : Handlers) (w : W) (me dest core x hart : ℕ)
      → get_or v.int_handlers 3 0 ≡ core
      → core ≢ 0
      → (h core).func ≡ fs.priv_intr
      → fs.priv_intr ≢ 0
      → IsChain h (h core).hnd_next (x ∷ [])
      → (h x).func ≡ fs.clint_intr
      → (h x).event ≡ pos 3
      → fs.clint_intr ≢ fs.plic_intr
      → 2 < fuel
      → (w1 w2 : W) × (intc_clint_raise_ipi write_clint me me dest w ≡ (pos 0, w1))
        × (view w1 (reg_msip dest) ≡ 1)
        × (k_arch_riscv_interrupt csrc_mip
              (call_entry fs fuel dest read32 write32 write_clint driver fault)
              v
              (2 ^ 63 + 3)
              (h, w1)
            ≡ some (pos 0, h, w2))
        × (view w2 (reg_msip hart) ≡ (if hart == dest then 0 else view w (reg_msip hart)))
  unfolding intc_clint_raise_ipi
  raise_ipi-taken v h w me dest core x hart at n f p chain fx ex d l =
      let w1 = write_clint 1 (reg_msip dest) w in
      let w2 = write_clint 0 (reg_msip dest) w1 in
      let mine : (me == me) ≡ true = ground arith in
      (
        w1,
        csrc_mip (2 ^ 3) w2,
        rw mine refl,
        write_view 1 (reg_msip dest) w (reg_msip dest)
            ∙ same (reg_msip dest) 1 (view w (reg_msip dest)),
        interrupt-one fs fuel dest read32 write32 write_clint csrc_mip driver fault v h w1 3 core x
            (2 ^ 63 + 3) event_handled w2 refl (omega arith) refl at n f p (omega arith) chain ex
            (call_clint dest (h x).func x h w1 fx d),
        csrc_view (2 ^ 3) w2 (reg_msip hart) ∙ back dest hart w,
      )
