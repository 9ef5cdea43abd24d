-- ===== src/Clock/Realtime.antt =====
-- The realtime clock: what is set is read back.
use baremetal_crt.Common.{
  ◌≡◌, true, false, inl, inr, Bool-cases, Option, some, ltb_ℤ, ◌+ℤ◌, ◌-ℤ◌, ◌≤ℤ◌, ◌<ℤ◌, int_laws,
  ltb_ℤ→lt, not_ltb_ℤ→le, lt→ltb_ℤ, le→not_ltb_ℤ, pos,
}
use baremetal_crt.Clock.{
  Timespec, nanos, timespecadd, timespecsub, Timer, k_clock_get_monotonic, k_clock_get_realtime,
  k_clock_set_realtime,
}

-- Fewer than 10^9 nanoseconds, and not below 0.
pub record IsTime (t : Timespec) : Type 0 where
  pub nonneg : pos 0 ≤ℤ t.tv_nsec
  pub below : t.tv_nsec <ℤ pos nanos

timespec_eq : (a b : Timespec) → a.tv_sec ≡ b.tv_sec → a.tv_nsec ≡ b.tv_nsec → a ≡ b
timespec_eq a b p q = λ i. record { tv_sec = p i; tv_nsec = q i }

-- Adding a time back after taking it away gives the old time, and a difference of normal times is
-- normal.
pub timespecadd-sub :
    (t m : Timespec)
    → IsTime t
    → IsTime m
    → (timespecadd (timespecsub t m) m ≡ t) × IsTime (timespecsub t m)
unfolding timespecadd timespecsub
timespecadd-sub t m a b =
    let d = t.tv_nsec -ℤ m.tv_nsec in
    elim (Bool-cases (ltb_ℤ d (pos 0))) [
      | inl e ↦
          let l = ltb_ℤ→lt d (pos 0) e in
          let q : ltb_ℤ (d +ℤ pos nanos +ℤ m.tv_nsec) (pos nanos) ≡ false =
            le→not_ltb_ℤ (d +ℤ pos nanos +ℤ m.tv_nsec) (pos nanos) (omega int_laws) in
          rw (e, q) (timespec_eq _ _ (omega int_laws) (omega int_laws), omega int_laws)
      | inr e ↦
          let l = not_ltb_ℤ→le d (pos 0) e in
          let q : ltb_ℤ (d +ℤ m.tv_nsec) (pos nanos) ≡ true =
            lt→ltb_ℤ (d +ℤ m.tv_nsec) (pos nanos) (omega int_laws) in
          rw (e, q) (timespec_eq _ _ (omega int_laws) (omega int_laws), omega int_laws)
    ]

-- The sum of normal times is normal.
pub timespecadd-IsTime : (t m : Timespec) → IsTime t → IsTime m → IsTime (timespecadd t m)
unfolding timespecadd
timespecadd-IsTime t m a b =
    let d = t.tv_nsec +ℤ m.tv_nsec in
    elim (Bool-cases (ltb_ℤ d (pos nanos))) [
      | inl e ↦ let l = ltb_ℤ→lt d (pos nanos) e in rw e (omega int_laws)
      | inr e ↦ let l = not_ltb_ℤ→le d (pos nanos) e in rw e (omega int_laws)
    ]

-- The realtime clock reads back the time that was set, while the timer stands still: setting succeeds,
-- and reading with the offset that it leaves gives that time. For a normal time and a timer that gives
-- a normal one.
pub set-get_realtime :
    (off t m : Timespec) (tm : Option Timer)
    → IsTime t
    → IsTime m
    → k_clock_get_monotonic tm ≡ some (pos 0, some m)
    → (off' : Timespec) × (k_clock_set_realtime off (some t) tm ≡ some (pos 0, off'))
      × (k_clock_get_realtime off' tm ≡ some (pos 0, some t))
unfolding k_clock_set_realtime k_clock_get_realtime
set-get_realtime off t m tm a b e = (timespecsub t m, rw e, rw (e, (timespecadd-sub t m a b).0))
