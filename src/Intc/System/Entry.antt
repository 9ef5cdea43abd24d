-- ===== src/Intc/System/Entry.antt =====
-- An interrupt that a core passes on to one handler.
use baremetal_crt.Common.{
  ℕ, zero, suc, ◌%◌, ◌^◌, ◌<◌, ◌≡◌, ◌≢◌, refl, ap, ◌∙◌, inl, inr, Bool-cases, true, false, some, [],
  ◌∷◌, ◌==◌, if◌then◌else◌, get_or, leb, arith, ℤ, pos, eq_ℤ,
}
use baremetal_crt.Event.{
  Handlers, event_handled, event_not_handled, handle_from, k_event_handle_generic,
}
use baremetal_crt.Event.Chain.{IsChain}
use baremetal_crt.Arch.Intr.{Vectors, k_arch_riscv_interrupt}
use baremetal_crt.Intc.RvPriv.{is_core_int, intc_priv_intr}
use baremetal_crt.Intc.System.{Functions, call_core, call_entry}

-- EVENT_HANDLED, or EVENT_NOT_HANDLED for any other answer.
abbrev pub answer : ℤ → ℤ
answer r = if eq_ℤ r event_handled then event_handled else event_not_handled

answer-answer : (r : ℤ) → answer (answer r) ≡ answer r
answer-answer r = elim (Bool-cases (eq_ℤ r event_handled)) [ inl e ↦ rw e refl | inr e ↦ rw e refl ]

nonzero : (n : ℕ) → n ≢ 0 → (n == 0) ≡ false
nonzero n h = ground arith

same_ℤ : (e : ℤ) → eq_ℤ e e ≡ true
same_ℤ e = ground arith

module _ {ℓ} {W : Type ℓ}
    (call : (func : ℕ) → (event : ℤ) → (handler : ℕ) → Handlers × W → ℤ × Handlers × W) where
  handle_one :
      (fuel : ℕ) (e : ℤ) (p x : ℕ) (h : Handlers) (w : W) (r : ℤ) (w1 : W)
      → 1 < fuel
      → IsChain h p (x ∷ [])
      → (h x).event ≡ e
      → call (h x).func e x (h, w) ≡ (r, h, w1)
      → k_event_handle_generic call fuel e p (h, w) ≡ some (answer r, h, w1)
  unfolding k_event_handle_generic handle_from
  handle_one zero e p x h w r w1 l c q d = absurd (omega arith)
  handle_one (suc zero) e p x h w r w1 l c q d = absurd (omega arith)
  handle_one (suc (suc f)) e p x h w r w1 l (at, n, last) q d =
      let z : (x == 0) ≡ false = nonzero x n in
      let m : eq_ℤ (h x).event e ≡ true = ap (λ t. eq_ℤ t e) q ∙ same_ℤ e in
      rw (at, z, m, d, last) refl

  -- The answer of a core whose list for the event is one handler.
  intc_priv_intr-one :
      (fuel : ℕ) (e : ℤ) (core x : ℕ) (h : Handlers) (w : W) (r : ℤ) (w1 : W)
      → 1 < fuel
      → is_core_int e ≡ true
      → IsChain h (h core).hnd_next (x ∷ [])
      → (h x).event ≡ e
      → call (h x).func e x (h, w) ≡ (r, h, w1)
      → intc_priv_intr call fuel e core (h, w) ≡ some (answer r, h, w1)
  unfolding intc_priv_intr
  intc_priv_intr-one fuel e core x h w r w1 l core_int c q d =
      let (at, n, last) = c in
      let z : ((h core).hnd_next == 0) ≡ false = ap (λ t. t == 0) at ∙ nonzero x n in
      rw (core_int, z, handle_one fuel e (h core).hnd_next x h w r w1 l c q d)
        (ap (λ a. some (a, h, w1)) (answer-answer r))

module _ {ℓ} {W : Type ℓ} (fs : Functions) (fuel hart : ℕ) (read32 : (off : ℕ) → W → ℕ × W)
    (write32 write_clint : (dat off : ℕ) → W → W) (csrc_mip : (mask : ℕ) → W → W)
    (driver : (func : ℕ) → (event : ℤ) → (handler : ℕ) → Handlers × W → ℤ × Handlers × W)
    (fault : W → W) where
  -- The entry of interrupt `n` whose handler in the table is a core's, with one handler behind it.
  pub interrupt-one :
      (v : Vectors) (h : Handlers) (w : W) (n core x mcause : ℕ) (r : ℤ) (w1 : W)
      → mcause % 2 ^ 31 ≡ n
      → n < 12
      → is_core_int (pos n) ≡ true
      → get_or v.int_handlers n 0 ≡ core
      → core ≢ 0
      → (h core).func ≡ fs.priv_intr
      → fs.priv_intr ≢ 0
      → 1 < fuel
      → IsChain h (h core).hnd_next (x ∷ [])
      → (h x).event ≡ pos n
      → call_core fs fuel hart read32 write32 write_clint driver fault (h x).func (pos n) x (h, w)
        ≡ (r, h, w1)
      → k_arch_riscv_interrupt csrc_mip
          (call_entry fs fuel hart read32 write32 write_clint driver fault)
          v
          mcause
          (h, w)
        ≡ some (pos 0, h, if eq_ℤ (answer r) event_handled then csrc_mip (2 ^ n) w1 else w1)
  unfolding k_arch_riscv_interrupt call_entry
  interrupt-one v h w n core x mcause r w1 cause small core_int at some_core f some_func l c q d =
      let t : leb 12 n ≡ false = ground arith in
      let z : (core == 0) ≡ false = nonzero core some_core in
      let y : ((h core).func == 0) ≡ false = ap (λ k. k == 0) f ∙ nonzero fs.priv_intr some_func in
      let g : ((h core).func == fs.priv_intr) ≡ true = ground (arith, f) in
      let inner =
        intc_priv_intr-one (call_core fs fuel hart read32 write32 write_clint driver fault) fuel
          (pos n) core x h w r w1 l core_int c q d in
      rw (cause, t, at, z, y, g, inner) refl
