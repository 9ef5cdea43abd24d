-- ===== src/Intc/Plic.antt =====
-- driver/intc/sifive/plic.c: the controller of the interrupts from outside. Its registers are a
-- device `W`, whose reads may change it.
pub mod Enabled
use Prim.Native.Nat.{bit_and, bit_or}
use baremetal_crt.Common.{
  ℕ, ◌+◌, ◌-◌, ◌*◌, ◌/◌, ◌%◌, ◌^◌, Bool, Option, none, some, List, ◌==◌, ◌||◌, leb, if◌then◌else◌,
  ◌>>=◌, set, get_or, get_elem?, count_up, ltb_ℤ, pos_part, ℤ, pos, einval,
}
use baremetal_crt.Event.{Handlers, event_not_handled, k_event_handle_generic}

-- PLIC_SOURCES_MAX and PLIC_CONTEXTS_MAX
abbrev pub sources_max : ℕ
sources_max = 64

abbrev pub contexts_max : ℕ
contexts_max = 64

abbrev pub reg_priority : (n : ℕ) → ℕ
reg_priority n = n * 4

abbrev pub reg_intr_en : (n ctx : ℕ) → ℕ
reg_intr_en n ctx = 0x2000 + ctx * 0x80 + n / 32 * 4

abbrev pub reg_priority_thr : (ctx : ℕ) → ℕ
reg_priority_thr ctx = 0x200000 + ctx * 0x1000

abbrev pub reg_claim : (ctx : ℕ) → ℕ
reg_claim ctx = 0x200000 + ctx * 0x1000 + 4

-- `struct intc_plic_priv`, less the device.
pub record PlicPriv : Type 0 where
  pub n_event : ℕ
  pub n_ctx : ℕ
  pub hnd : List ℕ

module _ {ℓ} {W : Type ℓ} (read32 : (off : ℕ) → W → ℕ × W) (write32 : (dat off : ℕ) → W → W) where
  -- The body of the outer loop of `intc_plic_clear_all`.
  unfoldable pub clear_ctx : (n_event ctx : ℕ) → W → W
  unfolding count_up
  clear_ctx n_event ctx w =
      let w1 = write32 0 (reg_priority_thr ctx) w in
      let w2 = count_up (λ event. write32 0 (reg_priority event)) n_event 0 w1 in
      count_up (λ i. write32 0 (reg_intr_en (i * 32) ctx)) ((n_event + 31) / 32) 0 w2

  unfoldable pub intc_plic_clear_all : (n_event n_ctx : ℕ) → W → ℤ × W
  unfolding clear_ctx
  intc_plic_clear_all n_event n_ctx w = (pos 0, count_up (clear_ctx n_event) n_ctx 0 w)

  unfoldable pub intc_plic_enable_interrupt : (event ctx : ℕ) → W → ℤ × W
  intc_plic_enable_interrupt event ctx w =
      let w1 = write32 1 (reg_priority event) w in
      let w2 = write32 0 (reg_priority_thr ctx) w1 in
      let (tmp, w3) = read32 (reg_intr_en event ctx) w2 in
      (pos 0, write32 (bit_or tmp (2 ^ (event % 32))) (reg_intr_en event ctx) w3)

  unfoldable pub intc_plic_disable_interrupt : (event ctx : ℕ) → W → ℤ × W
  intc_plic_disable_interrupt event ctx w =
      let (tmp, w1) = read32 (reg_intr_en event ctx) w in
      (pos 0, write32 (bit_and tmp (2 ^ 32 - 1 - 2 ^ (event % 32))) (reg_intr_en event ctx) w1)

  -- `event < 0 || PLIC_SOURCES_MAX <= event`
  abbrev pub no_source : ℤ → Bool
  no_source event = ltb_ℤ event (pos 0) || leb sources_max (pos_part event)

  -- `none` for `priv` is NULL.
  unfoldable pub intc_plic_add_handler :
      Option PlicPriv → (event : ℤ) → (handler : ℕ) → W → ℤ × Option PlicPriv × W
  unfolding intc_plic_enable_interrupt
  intc_plic_add_handler none event handler w = (einval, none, w)
  intc_plic_add_handler (some p) event handler w =
      let n = pos_part event in
      let (r, w1) = intc_plic_enable_interrupt n 0 w in
      if no_source event
      then (einval, some p, w)
      else if get_or p.hnd n 0 == 0
      then (r, some (record p { hnd = set p.hnd n handler }), w1)
      else (einval, some p, w)

  unfoldable pub intc_plic_remove_handler :
      Option PlicPriv → (event : ℤ) → W → ℤ × Option PlicPriv × W
  unfolding intc_plic_disable_interrupt
  intc_plic_remove_handler none event w = (einval, none, w)
  intc_plic_remove_handler (some p) event w =
      let n = pos_part event in
      let (r, w1) = intc_plic_disable_interrupt n 0 w in
      if no_source event
      then (einval, some p, w)
      else if get_or p.hnd n 0 == 0
      then (einval, some p, w)
      else (r, some (record p { hnd = set p.hnd n 0 }), w1)

  -- The driver's interrupt handler; `none` is a source that is out of the table, or a list of handlers
  -- without an end.
  unfoldable pub intc_plic_intr :
      (call : (func : ℕ) → (event : ℤ) → (handler : ℕ) → Handlers × W → ℤ × Handlers × W)
      → (fuel : ℕ) → PlicPriv
      → Handlers × W
      → Option (ℤ × Handlers × W)
  intc_plic_intr call fuel p (h, w) = do
    let (v, w1) = read32 (reg_claim 0) w
    let w2 = write32 v (reg_claim 0) w1
    hnd ← get_elem? p.hnd v
    (if hnd == 0
        then some (event_not_handled, h, w2)
        else k_event_handle_generic call fuel (pos v) hnd (h, w2))
