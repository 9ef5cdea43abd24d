-- ===== src/Clock/Raw.antt =====
-- Timer counts and times.
use baremetal_crt.Common.{
  ℕ, ◌+◌, ◌-◌, ◌*◌, ◌/◌, ◌%◌, ◌^◌, ◌≤◌, ◌<◌, ◌≡◌, false, some, arith, ◌==◌, to_u64, pos,
}
use native.Mathlib.Nat.{div-add-mod, mod-lt, div-lt_iff_lt-mul, div-le_self, mod-eq_of_lt}
use baremetal_crt.Clock.{Timespec, nanos, k_clock_raw_to_timespec, k_clock_timespec_to_raw}

-- A time with its seconds and nanoseconds as numbers.
abbrev pub time : ℕ → ℕ → Timespec
time s n = record { tv_sec = pos s; tv_nsec = pos n }

-- The nanoseconds `n` of `l` ticks at `f` ticks a second.
quotient :
    (l f : ℕ) → 0 < f → let n = l * nanos / f in (f * n ≤ l * nanos) × (l * nanos < f * n + f)
quotient l f p = omega (arith, div-add-mod (l * nanos) f, mod-lt (l * nanos) p)

nsec-lt : (l f : ℕ) → 0 < f → l < f → l * nanos / f < nanos
nsec-lt l f p h = (div-lt_iff_lt-mul p).1 (omega arith)

back :
    (l f n : ℕ)
    → f ≤ nanos
    → f * n ≤ l * nanos
    → l * nanos < f * n + f
    → (n * f / nanos ≤ l) × (l ≤ n * f / nanos + 1)
back l f n h a b = omega arith

-- A timer count becomes a time with fewer than 10^9 nanoseconds, and that time becomes a count again
-- that is the old one or one less. For a count of 64 bits and a frequency above 0 and up to 1 GHz.
pub raw_to_timespec-back :
    (count freq : ℕ)
    → 0 < freq
    → freq ≤ nanos
    → count < 2 ^ 64
    → (s n : ℕ) × (k_clock_raw_to_timespec count freq ≡ some (time s n))
      × (n < nanos)
      × (k_clock_timespec_to_raw (time s n) freq ≤ count)
      × (count ≤ k_clock_timespec_to_raw (time s n) freq + 1)
unfolding k_clock_raw_to_timespec k_clock_timespec_to_raw to_u64
raw_to_timespec-back count freq p h c =
    let s : ℕ = count / freq in
    let l : ℕ = count - s * freq in
    let n : ℕ = l * nanos / freq in
    let total : s * freq + l ≡ count = omega arith in
    let small : l < freq = omega arith in
    let (a, b) = quotient l freq p in
    let (u, v) = back l freq n h a b in
    let nl = nsec-lt l freq p small in
    let e0 : (freq == 0) ≡ false = ground arith in
    let e1 : l * nanos % 2 ^ 64 ≡ l * nanos = omega arith in
    let sl : s ≤ count = div-le_self count freq in
    let e2 : s % 2 ^ 64 ≡ s = omega arith in
    let e3 : n % 2 ^ 64 ≡ n = omega arith in
    let e4 : s * freq % 2 ^ 64 ≡ s * freq = omega arith in
    let e5 : n * freq % 2 ^ 64 ≡ n * freq = mod-eq_of_lt (omega arith) in
    let v' : k_clock_timespec_to_raw (time s n) freq ≡ s * freq + n * freq / nanos =
      rw (e2, e3, e4, e5) (mod-eq_of_lt (omega arith)) in
    (s, n, rw (e0, e1), nl, rw v' (omega arith), rw v' (omega arith))
