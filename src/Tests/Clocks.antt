-- ===== src/Tests/Clocks.antt =====
-- Times of a timer of 32768 Hz, and the arguments in the registers.
use baremetal_crt.Common.{◌≡◌, refl, false, some, arith, pos}
use baremetal_crt.Clock.{Timespec, Timer, k_clock_get_monotonic}
use baremetal_crt.Clock.Raw.{time}
use baremetal_crt.Clock.Realtime.{IsTime}
use baremetal_crt.Syscall.Time.{k_sys_gettimeofday, k_sys_settimeofday}
use baremetal_crt.Syscall.Time.Day.{k_sys_gettimeofday-settimeofday}

half-IsTime : IsTime (time 7 500000000)
half-IsTime = record { nonneg = omega arith; below = omega arith }

most-IsTime : IsTime (time 3 900000000)
most-IsTime = record { nonneg = omega arith; below = omega arith }

-- A timer at 1 Hz that stands at 3.
abbrev timer : Timer
timer = record {
  get_raw = some (pos 0, 3);
  get_freq = some (pos 0, 1);
  has_trigger = false;
  set_trigger = λ t. pos 0;
}

stands : k_clock_get_monotonic (some timer) ≡ some (pos 0, some (time 3 0))
unfolding k_clock_get_monotonic
stands = refl

three-IsTime : IsTime (time 3 0)
three-IsTime = record { nonneg = omega arith; below = omega arith }

k_sys_gettimeofday-settimeofday_example :
    (off' : Timespec) × (k_sys_settimeofday
        (time 0 0)
        (some timer)
        (some (record { tv_sec = pos 7; tv_usec = pos 250000 }))
      ≡ some (pos 0, off'))
    × (k_sys_gettimeofday off' (some timer) false
        ≡ some (pos 0, some (record { tv_sec = pos 7; tv_usec = pos 250000 })))
k_sys_gettimeofday-settimeofday_example =
    k_sys_gettimeofday-settimeofday (time 0 0) (time 3 0) (some timer) (pos 7) 250000 (omega arith)
      three-IsTime stands
