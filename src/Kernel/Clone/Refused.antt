-- ===== src/Kernel/Clone/Refused.antt =====
-- `k_thread_clone` of sys/thread.c where it starts nothing.
use baremetal_crt.Common.{
  ℕ, zero, suc, ◌-◌, ◌≡◌, refl, ap, sym, ◌⊎◌, inl, inr, Bool-cases, true, false, Option, none, some,
  List, arith, get_or, if◌then◌else◌, efault, enomem,
}
use baremetal_crt.Lock.{released}
use baremetal_crt.Lock.Sequential.{lock_free, unlock_held}
use baremetal_crt.Kernel.{Kernel, CpuDevice, cpu_at}
use baremetal_crt.Kernel.Cpu.{
  find_idle, is_idle, FoundIdle, find_idle-FoundIdle, k_smp_find_idle_cpu,
}
use baremetal_crt.Kernel.Clone.{
  CloneArgs, Machine, lacks_pointer, k_smp_lock, k_smp_unlock, k_thread_clone,
}

none_idle :
    (cs : List (Option CpuDevice))
    → ((j : ℕ) → is_idle (get_or cs j none) ≡ false)
    → find_idle cs 0 ≡ 0
unfolding FoundIdle
none_idle cs h = go (find_idle cs 0) (find_idle-FoundIdle cs 0)
  where
    go : (c : ℕ) → FoundIdle cs 0 c → c ≡ 0
    go zero f = refl
    go (suc c) (a, b, d) = absurd (ground (arith, h (c - 0)))

-- A clone that asks for a pointer that is NULL is refused with -EFAULT, and one that finds no CPU without
-- a task with -ENOMEM; the state is the one before. For a lock of all CPUs that is free.
pub k_thread_clone-refused :
    (w : Machine) (me : ℕ) (a : CloneArgs) (k : Kernel)
    → k.lock_smp ≡ released
    → (lacks_pointer a ≡ true) ⊎ ((j : ℕ) → is_idle (get_or k.cpus j none) ≡ false)
    → k_thread_clone w me a k ≡ some ((if lacks_pointer a then efault else enomem), k)
unfolding k_thread_clone k_smp_lock k_smp_unlock k_smp_find_idle_cpu
k_thread_clone-refused w me a k free (inl e) = rw e refl
k_thread_clone-refused w me a k free (inr h) = elim (Bool-cases (lacks_pointer a)) [
  | inl e ↦ rw e refl
  | inr e ↦
      let id = (cpu_at k me).id_phys in
      rw (e, lock_free id k.lock_smp (ap (λ l. l.val) free), none_idle k.cpus h, unlock_held id)
        (ap (λ l. some (enomem, record k { lock_smp = l })) (sym free))
]
