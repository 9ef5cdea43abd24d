-- ===== src/Lock/Sequential.antt =====
-- The spin lock run by one CPU alone.
use baremetal_crt.Common.{ℕ, zero, suc, ◌≡◌, ◌≢◌, refl, none, some, arith, ◌==◌, if◌then◌else◌, ℤ}
use baremetal_crt.Lock.{
  SpinLock, k_arch_gen_spinlock_lock, k_spinlock_lock, k_spinlock_unlock, released, held_by,
}

-- A taken lock is waited for without end, whatever the number of rounds.
pub spin_held :
    (f : ℕ) (cpu : ℤ) (s : SpinLock) → s.val ≢ 0 → k_arch_gen_spinlock_lock f cpu s ≡ none
unfolding k_arch_gen_spinlock_lock
spin_held zero cpu s h = refl
spin_held (suc f) cpu s h = ground (arith, spin_held f cpu (record s { val = 1 }))

-- One round of the loop decides what any number of rounds does: it takes a free lock at once and
-- writes the CPU's id, and waits for a taken one without end.
pub spin_fuel :
    (f : ℕ) (cpu : ℤ) (s : SpinLock)
    → k_arch_gen_spinlock_lock (suc f) cpu s ≡ (if s.val == 0 then some (held_by cpu) else none)
unfolding k_arch_gen_spinlock_lock
spin_fuel f cpu s = ground (arith, spin_held f cpu (record s { val = 1 }))

pub lock_free : (cpu : ℤ) (s : SpinLock) → s.val ≡ 0 → k_spinlock_lock cpu s ≡ some (held_by cpu)
unfolding k_spinlock_lock k_arch_gen_spinlock_lock
lock_free cpu s h = ground arith

pub unlock_held : (cpu : ℤ) → k_spinlock_unlock (held_by cpu) ≡ released
unfolding k_spinlock_unlock
unlock_held cpu = refl
