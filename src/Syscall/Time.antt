-- ===== src/Syscall/Time.antt =====
-- The system calls on time of sys/syscall.c. `off` is the offset of the realtime clock and `tm` the timer,
-- as in Clock; `none` is undefined behaviour, and a NULL argument is `none` or the truth value `null`.
pub mod Day
use baremetal_crt.Common.{
  ℕ, suc, ◌+◌, ◌-◌, ◌*◌, ◌/◌, ◌%◌, ◌^◌, Bool, true, false, Option, none, some, ltb, if◌then◌else◌,
  ◌>>=◌, eq_ℤ, is_nonzero, to_u64, sub_ℕ, ℤ, pos, negsuc, efault, einval,
}
use baremetal_crt.Clock.{
  Timespec, Timer, k_clock_get_monotonic, k_clock_get_realtime, k_clock_set_realtime,
}

abbrev pub clock_realtime : ℤ
clock_realtime = pos 0

abbrev pub clock_monotonic : ℤ
clock_monotonic = pos 1

-- `struct timeval`
pub record Timeval : Type 0 where
  pub tv_sec : ℤ
  pub tv_usec : ℤ

-- The result and what is written to `*tp`.
unfoldable pub k_sys_clock_gettime64 :
    (off : Timespec) → Option Timer → (clock_id : ℤ) → (null : Bool) → Option (ℤ × Option Timespec)
k_sys_clock_gettime64 off tm clock_id null =
    if null
    then some (efault, none)
    else if eq_ℤ clock_id clock_realtime
    then k_clock_get_realtime off tm
    else if eq_ℤ clock_id clock_monotonic
    then k_clock_get_monotonic tm
    else some (einval, none)

-- The result and the new offset.
unfoldable pub k_sys_clock_settime64 :
    (off : Timespec) → Option Timer → (clock_id : ℤ) → Option Timespec → Option (ℤ × Timespec)
k_sys_clock_settime64 off tm clock_id none = some (efault, off)
k_sys_clock_settime64 off tm clock_id (some t) =
    if eq_ℤ clock_id clock_realtime
    then k_clock_set_realtime off (some t) tm
    else some (einval, off)

-- `(int32_t)z`
unfoldable pub to_i32 : ℤ → ℤ
to_i32 z = let u = to_u64 z % 2 ^ 32 in if ltb u (2 ^ 31) then pos u else negsuc (2 ^ 32 - u - 1)

-- `struct timespec32`: two numbers of 32 bits, which `Timespec` holds as they are.
abbrev pub narrow : Timespec → Timespec
narrow t = record { tv_sec = to_i32 t.tv_sec; tv_nsec = to_i32 t.tv_nsec }

-- `tmp` after the call: what was written, or what was copied from `*tp`.
abbrev pub written_or : Timespec → Option Timespec → Timespec
written_or t none = t
written_or t (some w) = w

unfoldable pub k_sys_clock_gettime32 :
    (off : Timespec)
    → Option Timer
    → (clock_id : ℤ) → Option Timespec
    → Option (ℤ × Option Timespec)
unfolding k_sys_clock_gettime64 to_i32
k_sys_clock_gettime32 off tm clock_id none = k_sys_clock_gettime64 off tm clock_id true
k_sys_clock_gettime32 off tm clock_id (some t) = do
  (r, w) ← k_sys_clock_gettime64 off tm clock_id false
  some (r, some (narrow (written_or t w)))

unfoldable pub k_sys_clock_settime32 :
    (off : Timespec) → Option Timer → (clock_id : ℤ) → Option Timespec → Option (ℤ × Timespec)
unfolding k_sys_clock_settime64
k_sys_clock_settime32 off tm clock_id tp = k_sys_clock_settime64 off tm clock_id tp

-- `z / 1000L`, which rounds towards 0, and `z * 1000L`.
unfoldable pub to_micros : ℤ → ℤ
to_micros (pos n) = pos (n / 1000)
to_micros (negsuc n) = sub_ℕ 0 (suc n / 1000)

unfoldable pub to_nanos : ℤ → ℤ
to_nanos (pos n) = pos (n * 1000)
to_nanos (negsuc n) = sub_ℕ 0 (suc n * 1000)

-- The result and what is written to `*tp`.
unfoldable pub k_sys_gettimeofday :
    (off : Timespec) → Option Timer → (null : Bool) → Option (ℤ × Option Timeval)
unfolding to_micros
k_sys_gettimeofday off tm null = if null then some (efault, none) else do
  (r, w) ← k_clock_get_realtime off tm
  if is_nonzero r then some (r, none) else do
    t ← w
    some (pos 0, some (record { tv_sec = t.tv_sec; tv_usec = to_micros t.tv_nsec }))

-- The result and the new offset.
unfoldable pub k_sys_settimeofday :
    (off : Timespec) → Option Timer → Option Timeval → Option (ℤ × Timespec)
unfolding to_nanos
k_sys_settimeofday off tm none = some (efault, off)
k_sys_settimeofday off tm (some v) =
    k_clock_set_realtime off (some (record { tv_sec = v.tv_sec; tv_nsec = to_nanos v.tv_usec })) tm
