-- ===== src/Lock.antt =====
-- sys/lock.c with include/bmetal/lock.h: the spin lock that the other parts take, run alone
-- by one CPU. `Lock.Race` has the CPUs that contend for it, one atomic access at a time.
pub mod Sequential
pub mod Race
use baremetal_crt.Common.{
  ℕ, zero, suc, Bool, true, false, Option, none, some, ◌==◌, if◌then◌else◌, ◌>>=◌, ℤ, pos, negsuc,
}

-- `k_arch_gen_spinlock_t`: 0 is free, and `id` is the physical id of the CPU that holds it.
pub record SpinLock : Type 0 where
  pub val : ℕ
  pub id : ℤ

unfoldable pub k_arch_gen_spinlock_init : SpinLock → SpinLock
k_arch_gen_spinlock_init s = record s { val = 0; id = negsuc 0 }

-- `k_aexchange(&lock->val, 1)`: the old value, and the lock after it.
unfoldable pub k_arch_gen_spinlock_trylock : SpinLock → ℕ × SpinLock
k_arch_gen_spinlock_trylock s = (s.val, record s { val = 1 })

-- The loop of `k_arch_gen_spinlock_lock` and the write of `id`; `none` when it spins on.
unfoldable pub k_arch_gen_spinlock_lock : (fuel : ℕ) → ℤ → SpinLock → Option SpinLock
unfolding k_arch_gen_spinlock_trylock
k_arch_gen_spinlock_lock zero cpu s = none
k_arch_gen_spinlock_lock (suc f) cpu s =
    let (r, s') = k_arch_gen_spinlock_trylock s in
    let again = k_arch_gen_spinlock_lock f cpu s' in
    if r == 0 then some (record s' { id = cpu }) else again

unfoldable pub k_arch_gen_spinlock_unlock : SpinLock → SpinLock
k_arch_gen_spinlock_unlock s = record s { val = 0; id = negsuc 0 }

unfoldable pub k_spinlock_init : SpinLock → SpinLock
unfolding k_arch_gen_spinlock_init
k_spinlock_init s = k_arch_gen_spinlock_init s

-- For a CPU alone one round decides (`Sequential.spin_fuel`): a lock that is taken stays taken.
unfoldable pub k_spinlock_lock : ℤ → SpinLock → Option SpinLock
unfolding k_arch_gen_spinlock_lock
k_spinlock_lock cpu s = k_arch_gen_spinlock_lock 1 cpu s

unfoldable pub k_spinlock_trylock : SpinLock → ℕ × SpinLock
unfolding k_arch_gen_spinlock_trylock
k_spinlock_trylock s = k_arch_gen_spinlock_trylock s

unfoldable pub k_spinlock_unlock : SpinLock → SpinLock
unfolding k_arch_gen_spinlock_unlock
k_spinlock_unlock s = k_arch_gen_spinlock_unlock s

-- A lock that nobody holds.
abbrev pub released : SpinLock
released = record { val = 0; id = negsuc 0 }

abbrev pub held_by : ℤ → SpinLock
held_by cpu = record { val = 1; id = cpu }
