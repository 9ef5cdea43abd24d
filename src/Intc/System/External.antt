-- ===== src/Intc/System/External.antt =====
-- An interrupt from outside, from the core to the handlers of its source.
use baremetal_crt.Common.{
  ℕ, ◌+◌, ◌^◌, ◌<◌, ◌≡◌, ◌≢◌, refl, ap, ◌∙◌, Bool, true, false, some, List, [], ◌∷◌, ◌==◌,
  if◌then◌else◌, get_or, get_elem?, length, arith, ℤ, pos, eq_ℤ, inl, inr, Bool-cases,
}
use baremetal_crt.Event.{Handlers, event_handled, event_not_handled}
use baremetal_crt.Event.Chain.{IsChain}
use baremetal_crt.Event.Dispatch.{call_all, matching, any_handled, k_event_handle_generic-call_all}
use baremetal_crt.Arch.Intr.{Vectors, k_arch_riscv_interrupt}
use baremetal_crt.Intc.Plic.{reg_claim, intc_plic_intr}
use baremetal_crt.Intc.System.{Functions, call_device, call_core, call_entry}
use baremetal_crt.Intc.System.Entry.{answer, interrupt-one}

cleared {ℓ} :
    {W : Type ℓ} (b : Bool) (c m : W)
    → (if eq_ℤ (answer (if b then event_handled else event_not_handled)) event_handled
        then c
        else m)
      ≡ (if b then c else m)
cleared true c m = refl
cleared false c m = refl

module _ {ℓ} {W : Type ℓ} (fs : Functions) (fuel hart : ℕ) (read32 : (off : ℕ) → W → ℕ × W)
    (write32 write_clint : (dat off : ℕ) → W → W) (csrc_mip : (mask : ℕ) → W → W)
    (driver : (func : ℕ) → (event : ℤ) → (handler : ℕ) → Handlers × W → ℤ × Handlers × W)
    (fault : W → W)
    (keeps : (func : ℕ) (event : ℤ) (q : ℕ) (h : Handlers) (w : W)
      → (driver func event q (h, w)).1 ≡ h) where
  -- What the handlers of source `s` answer, in order, and what they leave, once the source has been claimed and
  -- completed.
  abbrev pub served : Handlers → (s : ℕ) → (xs : List ℕ) → W → List ℤ × W
  served h s xs w =
      call_all (call_device fs fuel hart read32 write32 write_clint driver fault) h (pos s)
        (matching h (pos s) xs) (write32 s (reg_claim 0) (read32 (reg_claim 0) w).1)

  device_keeps :
      (func : ℕ) (event : ℤ) (q : ℕ) (h : Handlers) (w : W)
      → (call_device fs fuel hart read32 write32 write_clint driver fault func event q (h, w)).1 ≡ h
  unfolding call_device
  device_keeps func event q h w = elim (Bool-cases (func == fs.clint_intr)) [
    | inl e ↦ rw e refl
    | inr e ↦ rw e (keeps func event q h w)
  ]

  call_plic :
      (func s y x : ℕ) (xs : List ℕ) (h : Handlers) (w : W)
      → func ≡ fs.plic_intr
      → (read32 (reg_claim 0) w).0 ≡ s
      → get_elem? (fs.plic).hnd s ≡ some y
      → y ≢ 0
      → IsChain h y xs
      → length xs < fuel
      → call_core fs fuel hart read32 write32 write_clint driver fault func (pos 11) x (h, w) ≡ (
        (if any_handled (served h s xs w).0 then event_handled else event_not_handled),
        h,
        (served h s xs w).1,
      )
  unfolding call_core intc_plic_intr
  call_plic func s y x xs h w f claim entry some_handler chain l =
      let g : (func == fs.plic_intr) ≡ true = ground (arith, f) in
      let z : (y == 0) ≡ false = ground (arith, some_handler) in
      rw
        (
          g,
          claim,
          entry,
          z,
          k_event_handle_generic-call_all
              (call_device fs fuel hart read32 write32 write_clint driver fault) device_keeps fuel h
              (pos s) y xs (write32 s (reg_claim 0) (read32 (reg_claim 0) w).1) chain l,
        )
        refl

  -- An interrupt from outside reaches exactly the handlers that its source has at the PLIC: the source that the
  -- PLIC names is claimed and completed, then each of them for that source is called once, in order, and
  -- `csrc mip` of the interrupt's bit is executed after them exactly where one of them has handled it. For a core's handler that stands in
  -- the table and is followed by the handler of the PLIC alone, a source of the table with a list that ends, and
  -- drivers that leave the handlers alone.
  pub interrupt-served :
      (v : Vectors) (h : Handlers) (w : W) (core x s y : ℕ) (xs : List ℕ)
      → get_or v.int_handlers 11 0 ≡ core
      → core ≢ 0
      → (h core).func ≡ fs.priv_intr
      → fs.priv_intr ≢ 0
      → IsChain h (h core).hnd_next (x ∷ [])
      → (h x).func ≡ fs.plic_intr
      → (h x).event ≡ pos 11
      → (read32 (reg_claim 0) w).0 ≡ s
      → get_elem? (fs.plic).hnd s ≡ some y
      → y ≢ 0
      → IsChain h y xs
      → length xs + 1 < fuel
      → k_arch_riscv_interrupt csrc_mip
          (call_entry fs fuel hart read32 write32 write_clint driver fault)
          v
          (2 ^ 63 + 11)
          (h, w)
        ≡ some (
          pos 0,
          h,
          if any_handled (served h s xs w).0
              then csrc_mip (2 ^ 11) (served h s xs w).1
              else (served h s xs w).1,
        )
  interrupt-served v h w core x s y xs at n f p chain fx ex claim entry some_handler list l =
      interrupt-one fs fuel hart read32 write32 write_clint csrc_mip driver fault v h w 11 core x
        (2 ^ 63 + 11) (if any_handled (served h s xs w).0 then event_handled else event_not_handled)
        (served h s xs w).1 refl (omega arith) refl at n f p (omega arith) chain ex
        (call_plic (h x).func s y x xs h w fx claim entry some_handler list (omega arith))
      ∙ ap (λ k. some (pos 0, h, k))
          (cleared (any_handled (served h s xs w).0) (csrc_mip (2 ^ 11) (served h s xs w).1)
            (served h s xs w).1)
