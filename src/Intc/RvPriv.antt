-- ===== src/Intc/RvPriv.antt =====
-- driver/intc/riscv/rv_priv.c: the interrupts of a RISC-V core, in M mode (USE_M_MODE).
pub mod Masks
pub mod Add
use Prim.Native.Nat.{bit_and, bit_or}
use baremetal_crt.Common.{
  ℕ, ◌-◌, ◌^◌, Bool, true, false, not, ◌&&◌, ◌||◌, Option, none, some, ◌==◌, if◌then◌else◌, ◌>>=◌,
  ℤ, pos, negsuc, eq_ℤ, is_nonzero, einval, enotsup,
}
use baremetal_crt.Kernel.Handlers.{cpu_event_on_wakeup, cpu_event_on_sleep}
use baremetal_crt.Event.{
  k_event_has_next, Handlers, event_handled, event_not_handled, k_event_add_handler,
  k_event_remove_handler, k_event_handle_generic,
}
use baremetal_crt.Arch.Intr.{Vectors, k_arch_riscv_set_intr_handler}

-- `struct intc_priv_priv`, less the pointers to the devices. The handlers are part of the struct: their
-- fields are on the heap of handlers, and these are their addresses.
pub record IntcPriv : Type 0 where
  pub hnd_ex : ℕ
  pub hnd_tm : ℕ
  pub hnd_sw : ℕ
  pub hnd_wake : ℕ
  pub hnd_sleep : ℕ
  pub has_ex : Bool
  pub enabled_ex : Bool
  pub has_tm : Bool
  pub enabled_tm : Bool
  pub has_sw : Bool
  pub enabled_sw : Bool

-- RV_CAUSE_INT_SW, RV_CAUSE_INT_TM and RV_CAUSE_INT_EX, which are RV_IX_SIX, RV_IX_TIX and RV_IX_EIX too.
abbrev pub int_sw : ℕ
int_sw = 3

abbrev pub int_tm : ℕ
int_tm = 7

abbrev pub int_ex : ℕ
int_ex = 11

-- The three cases of the `switch` on a RV_IX number; `none` is the default.
pub data Line : Type 0 where
  sw tm ex : Line

unfoldable pub line_of : (event : ℤ) → Option Line
line_of (negsuc n) = none
line_of (pos n) =
    if (n == 0) || (n == 1) || (n == 3)
    then some sw
    else if (n == 4) || (n == 5) || (n == 7)
    then some tm
    else if (n == 8) || (n == 9) || (n == 11)
    then some ex
    else none

abbrev pub head_of : IntcPriv → Line → ℕ
head_of p sw = p.hnd_sw
head_of p tm = p.hnd_tm
head_of p ex = p.hnd_ex

-- The events of `intc_priv_intr`.
abbrev pub is_core_int : (event : ℤ) → Bool
is_core_int event = eq_ℤ event (pos int_ex) || eq_ℤ event (pos int_tm) || eq_ℤ event (pos int_sw)

unfoldable pub intc_priv_intr {ℓ} :
    {W : Type ℓ} (call : (func : ℕ) → (event : ℤ) → (handler : ℕ) → Handlers × W → ℤ × Handlers × W)
    → (fuel : ℕ) (event : ℤ) (hnd : ℕ) → Handlers × W
    → Option (ℤ × Handlers × W)
intc_priv_intr call fuel event hnd (h, w) =
    let child = if is_core_int event then (h hnd).hnd_next else 0 in
    if child == 0 then some (event_not_handled, h, w) else (do
      (r, h1, w1) ← k_event_handle_generic call fuel event child (h, w)
      some (if eq_ℤ r event_handled then event_handled else event_not_handled, h1, w1))

-- `m` of `intc_priv_update_intr_mask`.
unfoldable pub intr_mask : IntcPriv → ℕ
intr_mask p =
    let m1 = if p.has_ex && p.enabled_ex then bit_or 0 (2 ^ int_ex) else 0 in
    let m2 = if p.has_tm && p.enabled_tm then bit_or m1 (2 ^ int_tm) else m1 in
    bit_or m2 (2 ^ int_sw)

-- The register `mie` of the CPU that runs is set or cleared with the mask, on its 64 bits.
unfoldable pub intc_priv_update_intr_mask : IntcPriv → (wakeup : Bool) → (mie : ℕ) → ℤ × ℕ
unfolding intr_mask
intc_priv_update_intr_mask p wakeup mie =
    (pos 0, if wakeup then bit_or mie (intr_mask p) else bit_and mie (2 ^ 64 - 1 - intr_mask p))

unfoldable pub intc_priv_cpu_event : IntcPriv → (event : ℤ) → (mie : ℕ) → ℤ × ℕ
unfolding intc_priv_update_intr_mask
intc_priv_cpu_event p event mie =
    let (r1, up) = intc_priv_update_intr_mask p true mie in
    let (r2, down) = intc_priv_update_intr_mask p false mie in
    if eq_ℤ event (pos cpu_event_on_wakeup)
    then (if is_nonzero r1 then event_not_handled else event_handled, up)
    else if eq_ℤ event (pos cpu_event_on_sleep)
    then (if is_nonzero r2 then event_not_handled else event_handled, down)
    else (event_not_handled, mie)

-- The end of `intc_priv_add_handler` and `intc_priv_remove_handler`.
unfoldable pub update_has : IntcPriv → Handlers → IntcPriv
unfolding k_event_has_next
update_has p h = record p {
  has_ex = k_event_has_next h p.hnd_ex;
  has_tm = k_event_has_next h p.hnd_tm;
  has_sw = k_event_has_next h p.hnd_sw;
}

unfoldable pub intc_priv_add_handler :
    (fuel : ℕ)
    → (event : ℤ) → (handler : ℕ) → Handlers × IntcPriv
    → Option (ℤ × Handlers × IntcPriv)
unfolding line_of update_has
intc_priv_add_handler fuel event handler (h, p) = elim (line_of event) [
  | none ↦ some (einval, h, p)
  | some l ↦ (do
    (r, h1) ← k_event_add_handler fuel h (head_of p l) handler
    some (if is_nonzero r then (r, h1, p) else (pos 0, h1, update_has p h1)))
]

unfoldable pub intc_priv_remove_handler :
    (fuel : ℕ)
    → (event : ℤ) → (handler : ℕ) → Handlers × IntcPriv
    → Option (ℤ × Handlers × IntcPriv)
unfolding line_of update_has
intc_priv_remove_handler fuel event handler (h, p) = elim (line_of event) [
  | none ↦ some (einval, h, p)
  | some l ↦ (do
    (r, h1) ← k_event_remove_handler fuel h (head_of p l) handler
    some (if is_nonzero r then (r, h1, p) else (pos 0, h1, update_has p h1)))
]

-- `intc_priv_enable` and `intc_priv_disable` differ in the value that they store.
abbrev pub set_enabled : Bool → Line → IntcPriv → IntcPriv
set_enabled b sw p = p
set_enabled b tm p = record p { enabled_tm = b }
set_enabled b ex p = record p { enabled_ex = b }

unfoldable pub intc_priv_enable : (event : ℤ) → IntcPriv → ℤ × IntcPriv
unfolding line_of
intc_priv_enable event p = elim (line_of event) [
  | none ↦ (einval, p)
  | some l ↦ (pos 0, set_enabled true l p)
]

unfoldable pub intc_priv_disable : (event : ℤ) → IntcPriv → ℤ × IntcPriv
unfolding line_of
intc_priv_disable event p = elim (line_of event) [
  | none ↦ (einval, p)
  | some l ↦ (pos 0, set_enabled false l p)
]
