-- ===== src/Clock.antt =====
-- sys/clock.c and the macros of include/bmetal/sys/time.h: the clocks over the system timer.
-- A second or nanosecond count is an `int64_t` (its overflow is undefined in C and not modelled), a
-- timer count is a `uint64_t`. `none` is undefined behaviour: a division by 0, or the use of a
-- variable that nothing has written.
pub mod Raw
pub mod Realtime
use baremetal_crt.Common.{
  ℕ, ◌+◌, ◌-◌, ◌*◌, ◌/◌, ◌%◌, ◌^◌, Bool, true, false, Option, none, some, ◌==◌, if◌then◌else◌,
  ◌>>=◌, ltb_ℤ, is_nonzero, to_u64, ◌+ℤ◌, ◌-ℤ◌, ℤ, pos, negsuc, efault, enotsup,
}

-- `struct timespec64`
pub record Timespec : Type 0 where
  pub tv_sec : ℤ
  pub tv_nsec : ℤ

abbrev pub nanos : ℕ
nanos = 1000000000

unfoldable pub timespecadd : Timespec → Timespec → Timespec
timespecadd a b =
    let sec = a.tv_sec +ℤ b.tv_sec in
    let nsec = a.tv_nsec +ℤ b.tv_nsec in
    if ltb_ℤ nsec (pos nanos)
    then record { tv_sec = sec; tv_nsec = nsec }
    else record { tv_sec = sec +ℤ pos 1; tv_nsec = nsec -ℤ pos nanos }

unfoldable pub timespecsub : Timespec → Timespec → Timespec
timespecsub a b =
    let sec = a.tv_sec -ℤ b.tv_sec in
    let nsec = a.tv_nsec -ℤ b.tv_nsec in
    if ltb_ℤ nsec (pos 0)
    then record { tv_sec = sec -ℤ pos 1; tv_nsec = nsec +ℤ pos nanos }
    else record { tv_sec = sec; tv_nsec = nsec }

-- For a pointer `tsp` that is not NULL.
unfoldable pub k_clock_raw_to_timespec : (count freq : ℕ) → Option Timespec
k_clock_raw_to_timespec count freq =
    let sec = count / freq in
    let left = count - sec * freq in
    if freq == 0
    then none
    else some (record { tv_sec = pos sec; tv_nsec = pos (left * nanos % 2 ^ 64 / freq) })

unfoldable pub k_clock_timespec_to_raw : Timespec → (freq : ℕ) → ℕ
unfolding to_u64
k_clock_timespec_to_raw t freq =
    (to_u64 t.tv_sec * freq % 2 ^ 64 + to_u64 t.tv_nsec * freq % 2 ^ 64 / nanos) % 2 ^ 64

-- What the driver of the default timer answers during a call: the result and the value of `get_raw` and
-- of `get_freq`, `none` where the driver has no such function.
pub record Timer : Type 0 where
  pub get_raw : Option (ℤ × ℕ)
  pub get_freq : Option (ℤ × ℕ)
  pub has_trigger : Bool
  pub set_trigger : Timespec → ℤ

-- `k_clock_get_monotonic` once both functions are there: the error, or the time.
unfoldable pub read_timer : (raw freq : ℤ × ℕ) → Option (ℤ × Option Timespec)
unfolding k_clock_raw_to_timespec
read_timer (r, cnt) (s, freq) =
    if is_nonzero r
    then some (r, none)
    else if is_nonzero s
    then some (s, none)
    else do t ← k_clock_raw_to_timespec cnt freq; some (pos 0, some t)

-- The result and what is written to `*tsp`; without the driver's functions it returns 0 and writes
-- nothing. `none` for the timer is that no default timer is set.
unfoldable pub k_clock_get_monotonic : Option Timer → Option (ℤ × Option Timespec)
unfolding read_timer
k_clock_get_monotonic none = some (enotsup, none)
k_clock_get_monotonic (some tm) = elim tm.get_freq [
  | none ↦ some (pos 0, none)
  | some f ↦ elim tm.get_raw [ none ↦ some (pos 0, none) | some w ↦ read_timer w f ]
]

-- `mono` after a call that returned 0: undefined if nothing was written.
abbrev pub written : Option Timespec → Option Timespec
written t = t

-- `off` is the static variable `ts_realtime_off`.
unfoldable pub k_clock_get_realtime : (off : Timespec) → Option Timer → Option (ℤ × Option Timespec)
unfolding k_clock_get_monotonic timespecadd
k_clock_get_realtime off tm = do
  (r, mono) ← k_clock_get_monotonic tm
  if is_nonzero r
      then some (r, none)
      else (do m ← written mono; some (pos 0, some (timespecadd off m)))

-- The result and the new `ts_realtime_off`.
unfoldable pub k_clock_set_realtime :
    (off : Timespec) → Option Timespec → Option Timer → Option (ℤ × Timespec)
unfolding k_clock_get_monotonic timespecsub
k_clock_set_realtime off none tm = some (efault, off)
k_clock_set_realtime off (some t) tm = do
  (r, mono) ← k_clock_get_monotonic tm
  if is_nonzero r then some (r, off) else (do m ← written mono; some (pos 0, timespecsub t m))

-- The time of the next tick: `hz` is 100 or CONFIG_SYSTEM_TIMER_HZ.
unfoldable pub next_tick : (hz : ℕ) → Timespec → Timespec
unfolding timespecadd
next_tick hz cur = timespecadd cur (record { tv_sec = pos 0; tv_nsec = pos (nanos / hz) })

unfoldable pub k_clock_on_tick : (hz : ℕ) → Option Timer → Option ℤ
unfolding k_clock_get_monotonic next_tick
k_clock_on_tick hz none = some enotsup
k_clock_on_tick hz (some tm) =
    if tm.has_trigger
    then (do
      (r, cur) ← k_clock_get_monotonic (some tm)
      if is_nonzero r then some r else do c ← written cur; some (tm.set_trigger (next_tick hz c)))
    else some (pos 0)
