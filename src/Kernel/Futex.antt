-- ===== src/Kernel/Futex.antt =====
-- `k_cpu_futex_wake` of driver/cpu/cpu.c: a CPU that waits keeps the address in its entry of the table, and
-- another one sets its flag and interrupts it. The table has CONFIG_NUM_CORES entries.
pub mod Woken
pub mod Locked
pub mod Step
pub mod Wake
pub mod Wait
use Prim.Native.Nat.{bit_and}
use baremetal_crt.Common.{
  ℕ, zero, suc, ◌+◌, Bool, true, false, not, ◌||◌, Option, some, length, ◌==◌, if◌then◌else◌, ◌>>=◌,
  ltb_ℤ, eq_ℤ, is_nonzero, ◌+ℤ◌, ℤ, pos, einval, eagain,
}
use baremetal_crt.Kernel.{Kernel, CpuDevice, cpu_at, set_cpu}
use baremetal_crt.Kernel.Cpu.{k_cpu_lock, k_cpu_unlock, k_cpu_get}
use baremetal_crt.Kernel.Clone.{Machine, k_cpu_raise_ipi}

-- The CPU waits at the address, for one of the bits.
abbrev pub waits : (uaddr bitset : ℕ) → CpuDevice → Bool
waits uaddr bitset c = not (not (c.futex.uaddr == uaddr) || (bit_and c.futex.bitset bitset == 0))

-- The flag is set.
abbrev pub woken : CpuDevice → CpuDevice
woken c = record c { futex = record (c.futex) { wakeup = true } }

-- The body of the loop of `k_cpu_futex_wake` for the CPU `cpu`: the new `res`.
unfoldable pub wake_one :
    Machine → (me uaddr bitset cpu : ℕ) → (res : ℤ) → Kernel → Option (ℤ × Kernel)
wake_one w me uaddr bitset cpu res k = if (cpu == 0) || (cpu == me) then some (res, k) else do
  k1 ← k_cpu_lock me k cpu
  let r = k_cpu_raise_ipi w me cpu
  some (
      if waits uaddr bitset (cpu_at k1 cpu)
      then (
        (if is_nonzero r then r else res) +ℤ pos 1,
        k_cpu_unlock (set_cpu k1 cpu (woken (cpu_at k1 cpu))) cpu,
      )
      else (res, k_cpu_unlock k1 cpu))

-- The loop over `left` CPUs from number `i` on.
unfoldable pub wake_from :
    Machine → (me uaddr : ℕ) (val : ℤ) (bitset left i : ℕ) (res : ℤ) → Kernel → Option (ℤ × Kernel)
unfolding wake_one
wake_from w me uaddr val bitset zero i res k = some (res, k)
wake_from w me uaddr val bitset (suc n) i res k =
    let rest = do
      (res', k') ← wake_one w me uaddr bitset (k_cpu_get k (pos i)) res k
      wake_from w me uaddr val bitset n (i + 1) res' k'
    in if ltb_ℤ res val then rest else some (res, k)

-- `bitset` is the bits of the `int`.
unfoldable pub k_cpu_futex_wake :
    Machine → (me uaddr : ℕ) (val : ℤ) (bitset : ℕ) → Kernel → Option (ℤ × Kernel)
unfolding wake_from
k_cpu_futex_wake w me uaddr val bitset k =
    if bitset == 0
    then some (einval, k)
    else wake_from w me uaddr val bitset (length k.cpus) 0 (pos 0) k
