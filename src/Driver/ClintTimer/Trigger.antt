-- ===== src/Driver/ClintTimer/Trigger.antt =====
-- The compare register of the timer, and the time of its trigger.
use baremetal_crt.Common.{
  ℕ, ◌+◌, ◌*◌, ◌/◌, ◌%◌, ◌^◌, ◌<◌, ◌≤◌, ◌≡◌, refl, ◌∙◌, false, some, ◌==◌, if◌then◌else◌, arith,
  bit_or-below, pos,
}
use baremetal_crt.Clock.{nanos, k_clock_raw_to_timespec, k_clock_timespec_to_raw}
use baremetal_crt.Clock.Raw.{time, raw_to_timespec-back}
use baremetal_crt.Driver.ClintTimer.{
  reg_mtimecmp, reg_mtimecmph, join_words, get_timecmp_32, set_timecmp_32, timer_clint_get_freq,
  timer_clint_set_trigger,
}

-- Registers of 32 bits that keep what is written.
module _ {ℓ} {W : Type ℓ} (read32 : (off : ℕ) → W → ℕ × W) (write32 : (dat off : ℕ) → W → W)
    (view : W → (off : ℕ) → ℕ) (read_view : (off : ℕ) (w : W) → read32 off w ≡ (view w off, w))
    (write_view : (dat off : ℕ) (w : W) (x : ℕ)
      → view (write32 dat off w) x ≡ (if off == x then dat else view w x)) where
  -- The compare value of `index`.
  abbrev pub compare_of : (index : ℕ) → W → ℕ
  compare_of index w = view w (reg_mtimecmph index) * 2 ^ 32 + view w (reg_mtimecmp index)

  set_timecmp_32-compare :
      (index count other : ℕ) (w : W)
      → count < 2 ^ 64
      → compare_of other (set_timecmp_32 read32 write32 index count w).1
        ≡ (if index == other then count else compare_of other w)
  unfolding set_timecmp_32
  set_timecmp_32-compare index count other w l =
      let w1 = write32 (count / 2 ^ 32 % 2 ^ 32) (reg_mtimecmph index) w in
      ground (
        arith,
        write_view (count % 2 ^ 32) (reg_mtimecmp index) w1 (reg_mtimecmph other),
        write_view (count % 2 ^ 32) (reg_mtimecmp index) w1 (reg_mtimecmp other),
        write_view (count / 2 ^ 32 % 2 ^ 32) (reg_mtimecmph index) w (reg_mtimecmph other),
        write_view (count / 2 ^ 32 % 2 ^ 32) (reg_mtimecmph index) w (reg_mtimecmp other),
      )

  read_back :
      (index count : ℕ) (w : W)
      → count < 2 ^ 64
      → let w' = (set_timecmp_32 read32 write32 index count w).1 in
        get_timecmp_32 read32 write32 index w' ≡ (pos 0, count, w')
  unfolding get_timecmp_32 set_timecmp_32
  read_back index count w l =
      let w1 = write32 (count / 2 ^ 32 % 2 ^ 32) (reg_mtimecmph index) w in
      let w2 = write32 (count % 2 ^ 32) (reg_mtimecmp index) w1 in
      let high : view w2 (reg_mtimecmph index) ≡ count / 2 ^ 32 = ground (
        arith,
        write_view (count % 2 ^ 32) (reg_mtimecmp index) w1 (reg_mtimecmph index),
        write_view (count / 2 ^ 32 % 2 ^ 32) (reg_mtimecmph index) w (reg_mtimecmph index),
      ) in
      let low : view w2 (reg_mtimecmp index) ≡ count % 2 ^ 32 =
        ground (arith, write_view (count % 2 ^ 32) (reg_mtimecmp index) w1 (reg_mtimecmp index)) in
      let joined : join_words (count / 2 ^ 32) (count % 2 ^ 32) ≡ count =
        bit_or-below 32 (count % 2 ^ 32) (count / 2 ^ 32) (omega arith) ∙ omega arith in
      rw (read_view (reg_mtimecmph index) w2, read_view (reg_mtimecmp index) w2, high, low, joined)
        refl

  -- A trigger that is set for the time of a count is set for that count or one tick before it, in the
  -- timer's own compare value, which reads back, and in no other. For a frequency above 0 and up to 1 GHz, a
  -- count of 64 bits, access by halves of 32 bits, and registers that keep what is written.
  pub set_trigger-compare :
      (freq index count other : ℕ) (w : W)
      → 0 < freq
      → freq ≤ nanos
      → count < 2 ^ 64
      → (s n cmp : ℕ) × (w' : W) × (k_clock_raw_to_timespec count freq ≡ some (time s n))
        × (timer_clint_set_trigger
              (get_timecmp_32 read32 write32)
              (set_timecmp_32 read32 write32)
              freq
              index
              (time s n)
              w
            ≡ some (pos 0, w'))
        × (get_timecmp_32 read32 write32 index w' ≡ (pos 0, cmp, w'))
        × (compare_of other w' ≡ (if index == other then cmp else compare_of other w))
        × (cmp ≤ count)
        × (count ≤ cmp + 1)
  unfolding timer_clint_set_trigger timer_clint_get_freq set_timecmp_32
  set_trigger-compare freq index count other w p h c =
      let (s, n, e, _, lo, hi) = raw_to_timespec-back count freq p h c in
      let cmp = k_clock_timespec_to_raw (time s n) freq in
      let z : (freq == 0) ≡ false = ground arith in
      (
        s,
        n,
        cmp,
        (set_timecmp_32 read32 write32 index cmp w).1,
        e,
        rw z refl,
        read_back index cmp w (omega (arith, lo)),
        set_timecmp_32-compare index cmp other w (omega (arith, lo)),
        lo,
        hi,
      )
