-- ===== src/Kernel/Futex/Wait/Ends.antt =====
-- How a wait of `k_cpu_futex_wait` ends.
use baremetal_crt.Common.{
  ℕ, zero, suc, ◌≡◌, ◌≢◌, ◌≤◌, refl, ap, ◌∙◌, sym, subst, ◌⊎◌, inl, inr, Bool-cases, Bool, true,
  false, Option, none, some, List, [], ◌∷◌, ◌==◌, not, ◌||◌, arith, eq_ℤ, ℤ, pos, eagain,
}
use baremetal_crt.Lock.{released, held_by}
use baremetal_crt.Kernel.{Kernel, CpuDevice, CpuFutex, cpu_at, set_cpu}
use baremetal_crt.Kernel.Lens
use baremetal_crt.Kernel.Futex.Woken.{IsFree, Only, Only-set_cpu}
use baremetal_crt.Kernel.Futex.Locked.{lock-Only, unlock-Only}
use baremetal_crt.Kernel.Futex.Wait.{store_futex, await, no_futex, k_cpu_futex_wait}

-- The state after `n` of the waits.
unfoldable pub run_first : (n : ℕ) → (during : List (Kernel → Kernel)) → Kernel → Kernel
run_first zero fs k = k
run_first (suc n) [] k = k
run_first (suc n) (f ∷ fs) k = run_first n fs (f k)

-- The flag is set, or the value at the address is not the one that is waited with.
abbrev pub stopped : (me uaddr : ℕ) → Kernel → Bool
stopped me uaddr k = (cpu_at k me).futex.wakeup || not (eq_ℤ (k.user uaddr) (cpu_at k me).futex.val)

-- The result says whether the flag was set, or the value was another one.
abbrev pub Answers : (me uaddr : ℕ) → (r : ℤ) → Kernel → Type 0
Answers me uaddr r k =
    ((r ≡ pos 0) × ((cpu_at k me).futex.wakeup ≡ true))
    ⊎ ((r ≡ eagain)
        × ((cpu_at k me).futex.wakeup ≡ false)
        × (eq_ℤ (k.user uaddr) (cpu_at k me).futex.val ≡ false))

await-now :
    (me uaddr : ℕ) (during : List (Kernel → Kernel)) (k : Kernel)
    → stopped me uaddr k ≡ true
    → (r : ℤ) × (await me uaddr during k ≡ some (r, k)) × Answers me uaddr r k
unfolding await
await-now me uaddr [] k s = elim (Bool-cases (cpu_at k me).futex.wakeup) [
  | inl e ↦ (pos 0, rw e refl, inl (refl, e))
  | inr e ↦
      let v : eq_ℤ (k.user uaddr) (cpu_at k me).futex.val ≡ false = ground (arith, s, e) in
      (eagain, rw (e, v) refl, inr (refl, e, v))
]
await-now me uaddr (f ∷ fs) k s = elim (Bool-cases (cpu_at k me).futex.wakeup) [
  | inl e ↦ (pos 0, rw e refl, inl (refl, e))
  | inr e ↦
      let v : eq_ℤ (k.user uaddr) (cpu_at k me).futex.val ≡ false = ground (arith, s, e) in
      (eagain, rw (e, v) refl, inr (refl, e, v))
]

await-later :
    (me uaddr : ℕ) (f : Kernel → Kernel) (fs : List (Kernel → Kernel)) (k : Kernel)
    → stopped me uaddr k ≡ false
    → await me uaddr (f ∷ fs) k ≡ await me uaddr fs (f k)
unfolding await
await-later me uaddr f fs k s =
    let e : (cpu_at k me).futex.wakeup ≡ false = ground (arith, s) in
    let v : eq_ℤ (k.user uaddr) (cpu_at k me).futex.val ≡ true = ground (arith, s) in rw (e, v) refl

-- A loop that has a state to stop in ends there or before, in a state whose answer it gives.
await-ends :
    (me uaddr m : ℕ) (during : List (Kernel → Kernel)) (k : Kernel)
    → stopped me uaddr (run_first m during k) ≡ true
    → (n : ℕ) × (r : ℤ) × (n ≤ m)
      × (await me uaddr during k ≡ some (r, run_first n during k))
      × Answers me uaddr r (run_first n during k)
unfolding run_first
await-ends me uaddr zero during k s =
    let (r, e, a) = await-now me uaddr during k s in (0, r, omega arith, e, a)
await-ends me uaddr (suc m) [] k s =
    let (r, e, a) = await-now me uaddr [] k s in (0, r, omega arith, e, a)
await-ends me uaddr (suc m) (f ∷ fs) k s = elim (Bool-cases (stopped me uaddr k)) [
  | inl e ↦ let (r, q, a) = await-now me uaddr (f ∷ fs) k e in (0, r, omega arith, q, a)
  | inr e ↦
      let (n, r, l, q, a) = await-ends me uaddr m fs (f k) s in
      (suc n, r, omega arith, await-later me uaddr f fs k e ∙ q, a)
]

-- The locks are free and the CPU that waits is one of the table.
abbrev pub Ready : (me : ℕ) → Kernel → Type 0
Ready me k = IsFree k × Lens.IsCpu k me

store_futex-Only :
    (me : ℕ) (f : CpuFutex) (k : Kernel)
    → Ready me k
    → (k' : Kernel) × (store_futex me f k ≡ some k')
      × Only k me (record (cpu_at k me) { futex = f; lock = released }) k'
unfolding store_futex
store_futex-Only me f k (free, h) =
    let (k1, e, o) = lock-Only me me k free h in
    let o2 = Only-set_cpu (record (cpu_at k1 me) { futex = f }) h o in
    let o3 : Only k me (record (cpu_at k me) { futex = f; lock = held_by (cpu_at k me).id_phys })
        (set_cpu k1 me (record (cpu_at k1 me) { futex = f })) =
      record {
        at = o2.at ∙ ap (λ (c : CpuDevice). record c { futex = f }) o.at;
        others = o2.others;
        same_length = o2.same_length;
      } in
    (
      _,
      rw e refl,
      unlock-Only (cpu_at k me).id_phys me k _ (record (cpu_at k me) { futex = f }) h o3,
    )

Only-Ready :
    (me : ℕ) (f : CpuFutex) (k k' : Kernel)
    → Ready me k
    → Only k me (record (cpu_at k me) { futex = f; lock = released }) k'
    → Ready me k'
Only-Ready me f k k' (free, h) o = (
  λ d p. elim (Bool-cases (d == me)) [
    | inl e ↦ let q : d ≡ me = ground (arith, e) in rw q (ap (λ (c : CpuDevice). c.lock) o.at)
    | inr e ↦ ap (λ (c : CpuDevice). c.lock) (o.others d p (ground (arith, e))) ∙ free d p
  ],
  record { nonnull = h.nonnull; within = omega (arith, h.within, o.same_length) },
)

-- What happens during each wait keeps the CPU in the table, and leaves the locks free.
unfoldable pub KeepReady : (me : ℕ) → (during : List (Kernel → Kernel)) → Type 0
KeepReady me [] = Unit {0}
KeepReady me (f ∷ fs) = ((k : Kernel) → Ready me k → Ready me (f k)) × KeepReady me fs

run_first-Ready :
    (me n : ℕ) (during : List (Kernel → Kernel)) (k : Kernel)
    → KeepReady me during
    → Ready me k
    → Ready me (run_first n during k)
unfolding run_first KeepReady
run_first-Ready me zero fs k keep h = h
run_first-Ready me (suc n) [] k keep h = h
run_first-Ready me (suc n) (f ∷ fs) k (keep, rest) h = run_first-Ready me n fs (f k) rest (keep k h)

-- The state in which the wait begins.
unfoldable pub begun : (me uaddr : ℕ) (val : ℤ) (bitset : ℕ) → Kernel → Kernel
unfolding store_futex
begun me uaddr val bitset k =
    let f : CpuFutex = record { uaddr = uaddr; val = val; bitset = bitset; wakeup = false } in
    elim (store_futex me f k) [ none ↦ k | some k1 ↦ k1 ]

begun-Ready :
    (me uaddr : ℕ) (val : ℤ) (bitset : ℕ) (k : Kernel)
    → Ready me k
    → (store_futex me (record { uaddr = uaddr; val = val; bitset = bitset; wakeup = false }) k
        ≡ some (begun me uaddr val bitset k))
      × Ready me (begun me uaddr val bitset k)
unfolding begun
begun-Ready me uaddr val bitset k h =
    let f : CpuFutex = record { uaddr = uaddr; val = val; bitset = bitset; wakeup = false } in
    let (k1, e1, o1) = store_futex-Only me f k h in
    let at : begun me uaddr val bitset k ≡ k1 =
      ap (λ (o : Option Kernel). elim o [ none ↦ k | some x ↦ x ]) e1 in
    (e1 ∙ ap some (sym at), subst (Ready me) (sym at) (Only-Ready me f k k1 h o1))

-- A wait with a bitset that is not 0 ends where after some number of its waits for an interrupt the flag is set
-- or the value is another one: it ends there or before, answers 0 where the flag was set and
-- -EWOULDBLOCK where only the value differed, and clears the CPU's futex and no other CPU's entry. The CPU is in
-- the table, the locks are free, and what happens during the waits keeps both.
pub k_cpu_futex_wait-ends :
    (me uaddr : ℕ) (val : ℤ) (bitset m : ℕ) (during : List (Kernel → Kernel)) (k : Kernel)
    → bitset ≢ 0
    → IsFree k
    → Lens.IsCpu k me
    → KeepReady me during
    → stopped me uaddr (run_first m during (begun me uaddr val bitset k)) ≡ true
    → (n : ℕ) × (r : ℤ) × (k' : Kernel) × (n ≤ m)
      × (k_cpu_futex_wait me uaddr val bitset during k ≡ some (r, k'))
      × Answers me uaddr r (run_first n during (begun me uaddr val bitset k))
      × Only
          (run_first n during (begun me uaddr val bitset k))
          me
          (record (cpu_at (run_first n during (begun me uaddr val bitset k)) me) {
            futex = no_futex;
            lock = released;
          })
          k'
unfolding k_cpu_futex_wait
k_cpu_futex_wait-ends me uaddr val bitset m during k nz free h keep s =
    let z : (bitset == 0) ≡ false = ground (arith, nz) in
    let (e1, h1) = begun-Ready me uaddr val bitset k (free, h) in
    let (n, r, l, e2, a) = await-ends me uaddr m during (begun me uaddr val bitset k) s in
    let ready = run_first-Ready me n during (begun me uaddr val bitset k) keep h1 in
    let (k3, e3, o3) =
      store_futex-Only me no_futex (run_first n during (begun me uaddr val bitset k)) ready in
    (n, r, k3, l, rw (z, e1, e2, e3) refl, a, o3)
