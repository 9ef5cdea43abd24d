-- ===== src/Syscall/Time/Day.antt =====
-- The time of day: what `k_sys_settimeofday` sets, `k_sys_gettimeofday` reads.
use baremetal_crt.Common.{ℕ, ◌*◌, ◌/◌, ◌<◌, ◌≡◌, refl, false, Option, some, arith, ℤ, pos}
use baremetal_crt.Clock.{Timespec, Timer, k_clock_get_monotonic}
use baremetal_crt.Clock.Realtime.{IsTime, set-get_realtime}
use baremetal_crt.Syscall.Time.{to_micros, to_nanos, k_sys_gettimeofday, k_sys_settimeofday}

-- Setting the time of day succeeds, and while the timer stands still the time is read back, to the
-- microsecond. For fewer than 10^6 microseconds and a timer that gives a normal time.
pub k_sys_gettimeofday-settimeofday :
    (off m : Timespec) (tm : Option Timer) (sec : ℤ) (usec : ℕ)
    → usec < 1000000
    → IsTime m
    → k_clock_get_monotonic tm ≡ some (pos 0, some m)
    → (off' : Timespec) × (k_sys_settimeofday off tm
          (some (record { tv_sec = sec; tv_usec = pos usec }))
        ≡ some (pos 0, off'))
      × (k_sys_gettimeofday off' tm false
          ≡ some (pos 0, some (record { tv_sec = sec; tv_usec = pos usec })))
unfolding k_sys_settimeofday k_sys_gettimeofday to_micros to_nanos
k_sys_gettimeofday-settimeofday off m tm sec usec l h e =
    let t : Timespec = record { tv_sec = sec; tv_nsec = pos (usec * 1000) } in
    let (off', s, g) =
      set-get_realtime off t m tm (record { nonneg = omega arith; below = omega arith }) h e in
    let same : usec * 1000 / 1000 ≡ usec = omega arith in (off', s, rw (g, same) refl)
