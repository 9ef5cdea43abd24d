-- ===== src/Driver/ClintTimer.antt =====
-- driver/timer/sifive/clint_timer.c: the timer that counts the system's time and triggers the tick, with
-- driver/timer/timer.c. The registers are a device `W`, whose reads may change it.
pub mod Count
pub mod Trigger
use Prim.Native.Nat.{bit_or}
use baremetal_crt.Common.{
  ℕ, zero, suc, ◌+◌, ◌*◌, ◌/◌, ◌%◌, ◌^◌, Bool, true, Option, none, some, [], ◌∷◌, ◌==◌,
  if◌then◌else◌, ◌>>=◌, ℤ, pos, is_nonzero, einval,
}
use baremetal_crt.CString.{CString}
use baremetal_crt.Clock.{Timespec, k_clock_raw_to_timespec, k_clock_timespec_to_raw}
use baremetal_crt.Event.{event_handled, event_not_handled}
use baremetal_crt.Device.{Tree, is_error}
use baremetal_crt.Device.Config.{k_device_read_conf_u32}

abbrev pub reg_mtimecmp : (index : ℕ) → ℕ
reg_mtimecmp index = index * 8

abbrev pub reg_mtimecmph : (index : ℕ) → ℕ
reg_mtimecmph index = 4 + index * 8

abbrev pub reg_mtime : ℕ
reg_mtime = 0x7ff8

abbrev pub reg_mtimeh : ℕ
reg_mtimeh = 0x7ffc

-- The result and `*freq`; `freq_in` is the field of `struct timer_clint_priv`.
unfoldable pub timer_clint_get_freq : (freq_in : ℕ) → ℤ × Option ℕ
timer_clint_get_freq freq_in = if freq_in == 0 then (einval, none) else (pos 0, some freq_in)

-- `(uint64_t)vh << 32 | vl`
abbrev pub join_words : (vh vl : ℕ) → ℕ
join_words vh vl = bit_or (vh * 2 ^ 32) vl

-- With CONFIG_64BIT.
module _ {ℓ} {W : Type ℓ} (read64 : (off : ℕ) → W → ℕ × W) (write64 : (dat off : ℕ) → W → W) where
  unfoldable pub get_raw_64 : W → ℤ × ℕ × W
  get_raw_64 w = let (v, w1) = read64 reg_mtime w in (pos 0, v, w1)

  unfoldable pub get_timecmp_64 : (index : ℕ) → W → ℤ × ℕ × W
  get_timecmp_64 index w = let (v, w1) = read64 (reg_mtimecmp index) w in (pos 0, v, w1)

  unfoldable pub set_timecmp_64 : (index count : ℕ) → W → ℤ × W
  set_timecmp_64 index count w = (pos 0, write64 count (reg_mtimecmp index) w)

-- Without it.
module _ {ℓ} {W : Type ℓ} (read32 : (off : ℕ) → W → ℕ × W) (write32 : (dat off : ℕ) → W → W) where
  -- The loop, on fuel.
  unfoldable pub get_raw_32 : (fuel : ℕ) → W → Option (ℤ × ℕ × W)
  get_raw_32 zero w = none
  get_raw_32 (suc f) w =
      let (vh1, w1) = read32 reg_mtimeh w in
      let (vl, w2) = read32 reg_mtime w1 in
      let (vh2, w3) = read32 reg_mtimeh w2 in
      let rest = get_raw_32 f w3 in if vh1 == vh2 then some (pos 0, join_words vh1 vl, w3) else rest

  unfoldable pub get_timecmp_32 : (index : ℕ) → W → ℤ × ℕ × W
  get_timecmp_32 index w =
      let (vh, w1) = read32 (reg_mtimecmph index) w in
      let (vl, w2) = read32 (reg_mtimecmp index) w1 in (pos 0, join_words vh vl, w2)

  unfoldable pub set_timecmp_32 : (index count : ℕ) → W → ℤ × W
  set_timecmp_32 index count w = (
    pos 0,
    write32 (count % 2 ^ 32) (reg_mtimecmp index)
        (write32 (count / 2 ^ 32 % 2 ^ 32) (reg_mtimecmph index) w),
  )

-- The trigger, over the functions of either width.
module _ {ℓ} {W : Type ℓ} (get_timecmp : (index : ℕ) → W → ℤ × ℕ × W)
    (set_timecmp : (index count : ℕ) → W → ℤ × W) where
  -- The result, and the time that is stored where it is 0; `none` is a division by 0.
  unfoldable pub timer_clint_get_trigger :
      (freq_in index : ℕ) → W → Option (ℤ × Option Timespec × W)
  unfolding timer_clint_get_freq
  timer_clint_get_trigger freq_in index w =
      let (r, freq) = timer_clint_get_freq freq_in in
      let (s, cnt, w1) = get_timecmp index w in
      if is_nonzero r
      then some (r, none, w)
      else if is_nonzero s
      then some (s, none, w1)
      else (do f ← freq; t ← k_clock_raw_to_timespec cnt f; some (pos 0, some t, w1))

  unfoldable pub timer_clint_set_trigger : (freq_in index : ℕ) → Timespec → W → Option (ℤ × W)
  unfolding timer_clint_get_freq
  timer_clint_set_trigger freq_in index t w =
      let (r, freq) = timer_clint_get_freq freq_in in
      if is_nonzero r
      then some (r, w)
      else (do f ← freq; some (set_timecmp index (k_clock_timespec_to_raw t f) w))

-- `on_tick` is the result of `k_clock_on_tick`.
unfoldable pub timer_clint_intr : (on_tick : ℤ) → ℤ
timer_clint_intr on_tick = if is_nonzero on_tick then event_not_handled else event_handled

-- "system"
abbrev pub system_name : CString
system_name = 115 ∷ 121 ∷ 115 ∷ 116 ∷ 101 ∷ 109 ∷ []

-- What follows `k_device_add`, whose result is `r`: the result, and the new `timer_default`.
unfoldable pub k_timer_add_device : (r : ℤ) → Tree → (timer timer_default : ℕ) → Option (ℤ × ℕ)
k_timer_add_device r t timer timer_default = if is_error r then some (r, timer_default) else do
  (s, val) ← k_device_read_conf_u32 (some (t.devices timer)) (some system_name) true (pos 0)
  some (
    pos 0,
    if is_nonzero s
        then timer_default
        else elim val [ none ↦ timer_default | some v ↦ if v == 0 then timer_default else timer ],
  )
