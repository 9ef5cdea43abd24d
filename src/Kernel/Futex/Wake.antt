-- ===== src/Kernel/Futex/Wake.antt =====
-- What `k_cpu_futex_wake` does to the CPUs.
use Prim.Native.Nat.{min}
use baremetal_crt.Common.{
  ℕ, zero, suc, ◌+◌, ◌-◌, ◌≤◌, ◌<◌, ◌≡◌, ◌≢◌, refl, ap, ◌∙◌, sym, inl, inr, Bool, true, false,
  Bool-cases, ◌&&◌, Option, none, some, arith, length, List, get_or, ◌==◌, ltb, ltb_ℤ, is_nonzero,
  pos, if◌then◌else◌,
}
use baremetal_crt.Kernel.{Kernel, CpuDevice, cpu_of}
use baremetal_crt.Kernel.Clone.{Machine, k_cpu_raise_ipi}
use baremetal_crt.Kernel.Futex.{wake_from, k_cpu_futex_wake}
use baremetal_crt.Kernel.Futex.Woken.{
  Woken, IsFree, waiting_at, is_waiting, count_waiting, woken_if, woken_if-false, woken_if-lock,
}
use baremetal_crt.Kernel.Futex.Step.{
  AfterRound, kept, count_after, in_table, wake_one-AfterRound, both_false,
}

the_first :
    (i m n v : ℕ) (b : Bool)
    → ltb m v ≡ true
    → ((i == i) && b) ≡ (b && (ltb 0 (suc n) && ltb (m + 0) v))
the_first i m n v true e = ground (arith, e)
the_first i m n v false e = ground arith

one_less :
    (a n m b c v : ℕ)
    → (ltb a n && ltb (m + b + c) v) ≡ (ltb (suc a) (suc n) && ltb (m + (b + c)) v)
one_less a n m b c v = ground arith

module _ (me uaddr bitset : ℕ) where
  -- What the loop has done to the table when it ends: `m` flags were set before it came to entry `i`, of `n` that
  -- are left.
  record Tail (cpus : List (Option CpuDevice)) (n i m v : ℕ) (xs : List (Option CpuDevice))
      : Type 0 where
    same_length : length xs ≡ length cpus
    before : (j : ℕ) → j < i → get_or xs j none ≡ get_or cpus j none
    from_here :
        (a j : ℕ)
        → j ≡ i + a
        → get_or xs j none
          ≡ woken_if
              (waiting_at me uaddr bitset cpus j
                && (ltb a n && ltb (m + count_waiting me uaddr bitset cpus i a) v))
              (get_or cpus j none)

  Tail-none :
      (cpus : List (Option CpuDevice)) (n i m v : ℕ)
      → ((a : ℕ) → (ltb a n && ltb (m + count_waiting me uaddr bitset cpus i a) v) ≡ false)
      → Tail cpus n i m v cpus
  Tail-none cpus n i m v f = record {
    same_length = refl;
    before = λ j l. refl;
    from_here = λ a j q.
        sym (woken_if-false (get_or cpus j none))
        ∙ ap (λ b. woken_if b (get_or cpus j none))
            (both_false (waiting_at me uaddr bitset cpus j) _ (f a));
  }

  Tail-suc :
      (cpus ys xs : List (Option CpuDevice)) (n i m v : ℕ)
      → ltb m v ≡ true
      → AfterRound me uaddr bitset cpus i ys
      → Tail ys n (i + 1) (m + (if waiting_at me uaddr bitset cpus i then 1 else 0)) v xs
      → Tail cpus (suc n) i m v xs
  Tail-suc cpus ys xs n i m v e (len, each) t = record {
    same_length = t.same_length ∙ len;
    before = λ j l.
        t.before j (omega arith) ∙ kept me uaddr bitset cpus ys i (len, each) j (omega arith);
    from_here = go;
  }
    where
      go :
          (a j : ℕ)
          → j ≡ i + a
          → get_or xs j none
            ≡ woken_if
                (waiting_at me uaddr bitset cpus j
                  && (ltb a (suc n) && ltb (m + count_waiting me uaddr bitset cpus i a) v))
                (get_or cpus j none)
      go zero j q =
          let s : j ≡ i = omega (arith, q) in
          t.before j (omega arith)
          ∙ each j
          ∙ ap (λ b. woken_if b (get_or cpus j none))
              (ap (λ u. (i == u) && waiting_at me uaddr bitset cpus i) s
                ∙ the_first i m n v (waiting_at me uaddr bitset cpus i) e
                ∙ ap (λ u. waiting_at me uaddr bitset cpus u && (ltb 0 (suc n) && ltb (m + 0) v))
                    (sym s))
      go (suc a) j q =
          let one : ℕ = if waiting_at me uaddr bitset cpus i then 1 else 0 in
          let later = count_waiting me uaddr bitset cpus (i + 1) a in
          t.from_here a j (omega arith)
          ∙ ap
              (λ (o : Option CpuDevice).
                woken_if
                  (is_waiting me uaddr bitset j o
                    && (ltb a n && ltb (m + one + count_waiting me uaddr bitset ys (i + 1) a) v))
                  o)
              (kept me uaddr bitset cpus ys i (len, each) j (omega arith))
          ∙ ap
              (λ c.
                woken_if (waiting_at me uaddr bitset cpus j && (ltb a n && ltb (m + one + c) v))
                  (get_or cpus j none))
              (count_after me uaddr bitset cpus ys (i + 1) a
                (λ b. kept me uaddr bitset cpus ys i (len, each) (i + 1 + b) (omega arith)))
          ∙ ap (λ b. woken_if (waiting_at me uaddr bitset cpus j && b) (get_or cpus j none))
              (one_less a n m one later v)

module _ (w : Machine) (me uaddr bitset : ℕ)
    (raised : (cpu : ℕ) → is_nonzero (k_cpu_raise_ipi w me cpu) ≡ false) where
  wake_from-Tail :
      (n i m v : ℕ) (k : Kernel)
      → IsFree k
      → m ≤ v
      → (xs : List (Option CpuDevice)) × (wake_from w me uaddr (pos v) bitset n i (pos m) k
          ≡ some
              (pos (min v (m + count_waiting me uaddr bitset k.cpus i n)), record k { cpus = xs }))
        × Tail me uaddr bitset k.cpus n i m v xs
  unfolding wake_from
  wake_from-Tail zero i m v k free l = (
    k.cpus,
    ap (λ t. some (pos t, k)) (omega arith),
    Tail-none me uaddr bitset k.cpus zero i m v (λ a. ground arith),
  )
  wake_from-Tail (suc n) i m v k free l = elim (Bool-cases (ltb_ℤ (pos m) (pos v))) [
    | inl e ↦
        let less : ltb m v ≡ true = ground (arith, e) in
        let b = waiting_at me uaddr bitset k.cpus i in
        let one : ℕ = if b then 1 else 0 in
        let (ys, e1, step) = wake_one-AfterRound w me uaddr bitset raised i m k free in
        let k1 = record k { cpus = ys } in
        let still : IsFree k1 = λ d p.
          ap (λ (o : Option CpuDevice). (cpu_of o).lock) (step.1 (d - 1))
          ∙ woken_if-lock ((i == d - 1) && b) (get_or k.cpus (d - 1) none)
          ∙ free d p in
        let more : m + one ≤ v = ground (arith, less) in
        let (xs, e2, t) = wake_from-Tail n (i + 1) (m + one) v k1 still more in
        let same =
          count_after me uaddr bitset k.cpus ys (i + 1) n
            (λ a. kept me uaddr bitset k.cpus ys i step (i + 1 + a) (omega arith)) in
        (
          xs,
          rw (e, e1, e2)
              (ap (λ c. some (pos (min v c), record k { cpus = xs }))
                (ap (λ c. m + one + c) same ∙ omega arith)),
          Tail-suc me uaddr bitset k.cpus ys xs n i m v less step t,
        )
    | inr e ↦
        let full : m ≡ v = ground (arith, e, l) in
        (
          k.cpus,
          rw e (ap (λ t. some (pos t, k)) (omega (arith, full))),
          Tail-none me uaddr bitset k.cpus (suc n) i m v (λ a. ground (arith, full)),
        )
  ]

  -- A wake of at most `v` CPUs ends, and its result is the number of CPUs whose flag is set: of the CPUs other than
  -- the waking one that wait at the address for one of the bits, the first `v` in the order of the table, or
  -- all of them where they are fewer. Exactly their flags are set, and nothing else in the kernel's state
  -- changes. For a bitset that is not 0, locks of the CPUs that are free, and interrupts that can be raised.
  pub k_cpu_futex_wake-Woken :
      (v : ℕ) (k : Kernel)
      → bitset ≢ 0
      → IsFree k
      → (k' : Kernel) × (k_cpu_futex_wake w me uaddr (pos v) bitset k
          ≡ some (pos (min v (count_waiting me uaddr bitset k.cpus 0 (length k.cpus))), k'))
        × Woken me uaddr bitset v k k'
  unfolding k_cpu_futex_wake
  k_cpu_futex_wake-Woken v k nz free =
      let z : (bitset == 0) ≡ false = ground (arith, nz) in
      let (xs, e, t) = wake_from-Tail (length k.cpus) 0 0 v k free (omega arith) in
      (
        record k { cpus = xs },
        rw (z, e) (ap (λ c. some (pos (min v c), record k { cpus = xs })) (omega arith)),
        record {
          same_rest = refl;
          same_length = t.same_length;
          entries = λ j.
              t.from_here j j (omega arith)
              ∙ ap (λ b. woken_if b (get_or k.cpus j none)) (in_table me uaddr bitset k.cpus j v);
        },
      )
