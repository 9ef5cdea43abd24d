-- ===== src/Kernel/Futex/Wait.antt =====
-- `k_cpu_futex_wait` of driver/cpu/cpu.c. What the other CPUs and the interrupts do during one wait for an
-- interrupt is a function of the list `during`; `none` is a wait that has not ended with the list.
pub mod Ends
use baremetal_crt.Common.{
  ℕ, zero, suc, Bool, true, false, Option, none, some, List, [], ◌∷◌, ◌==◌, if◌then◌else◌, ◌>>=◌,
  not, ◌||◌, eq_ℤ, ℤ, pos, einval, eagain,
}
use baremetal_crt.Kernel.{Kernel, CpuFutex, cpu_at, set_cpu}
use baremetal_crt.Kernel.Cpu.{k_cpu_lock, k_cpu_unlock}

-- Under the lock of the CPU that runs, the fields of `cpu->futex` are stored.
unfoldable pub store_futex : (me : ℕ) → CpuFutex → Kernel → Option Kernel
store_futex me f k = do
  k1 ← k_cpu_lock me k me
  some (k_cpu_unlock (set_cpu k1 me (record (cpu_at k1 me) { futex = f })) me)

-- The loop, with its result.
unfoldable pub await :
    (me uaddr : ℕ) → (during : List (Kernel → Kernel)) → Kernel → Option (ℤ × Kernel)
await me uaddr [] k =
    if (cpu_at k me).futex.wakeup
    then some (pos 0, k)
    else if not (eq_ℤ (k.user uaddr) (cpu_at k me).futex.val)
    then some (eagain, k)
    else none
await me uaddr (f ∷ fs) k =
    let rest = await me uaddr fs (f k) in
    if (cpu_at k me).futex.wakeup
    then some (pos 0, k)
    else if not (eq_ℤ (k.user uaddr) (cpu_at k me).futex.val)
    then some (eagain, k)
    else rest

abbrev pub no_futex : CpuFutex
no_futex = record { uaddr = 0; val = pos 0; bitset = 0; wakeup = false }

unfoldable pub k_cpu_futex_wait :
    (me uaddr : ℕ) (val : ℤ) (bitset : ℕ) (during : List (Kernel → Kernel))
    → Kernel
    → Option (ℤ × Kernel)
unfolding store_futex await
k_cpu_futex_wait me uaddr val bitset during k = if bitset == 0 then some (einval, k) else do
  k1 ← store_futex me (record { uaddr = uaddr; val = val; bitset = bitset; wakeup = false }) k
  (r, k2) ← await me uaddr during k1
  k3 ← store_futex me no_futex k2
  some (r, k3)
