-- ===== src/Tests/Threads.antt =====
-- Two CPUs and two threads: CPU 1 runs thread 1, its idle thread, and so does CPU 2 thread 2.
use baremetal_crt.Common.{
  ◌-◌, ℕ, zero, suc, ◌<◌, ◌≡◌, refl, ◌⊎◌, Bool, true, false, none, some, [], ◌∷◌, arith, get_or,
  pos,
}
use baremetal_crt.Lock.{released}
use baremetal_crt.Kernel.{Kernel, ThreadInfo, CpuDevice, cpu_at, no_thread, no_cpu, cpu_of}
use baremetal_crt.Kernel.Cpu.{k_cpu_set_thread_task}
use baremetal_crt.Kernel.Thread.{new_thread, k_thread_create}
use baremetal_crt.Kernel.Thread.Table.{Created, thread_create-Created}
use baremetal_crt.Kernel.Clone.{Machine, CloneArgs, start_thread, k_cpu_raise_ipi}
use baremetal_crt.Kernel.Clone.Start.{Changed, start_thread-outcome}
use baremetal_crt.Kernel.Futex.{k_cpu_futex_wake}
use baremetal_crt.Kernel.Futex.Woken.{Woken}
use baremetal_crt.Kernel.Futex.Wake.{k_cpu_futex_wake-Woken}
use baremetal_crt.Kernel.Switch.{k_thread_context_switch_nolock}
use baremetal_crt.Kernel.Switch.Back.{context_switch-back}

abbrev cpu_with : (ti task : ℕ) → CpuDevice
cpu_with ti task = record no_cpu { ti = ti; ti_idle = ti; ti_task = task; regs = λ w. ti }

abbrev thread_with : (tid : ℕ) → Bool → ThreadInfo
thread_with tid avail = record no_thread { tid = tid; avail = avail; regs = λ w. tid }

abbrev kernel : (task1 task2 : ℕ) → Kernel
kernel task1 task2 = record {
  k_pi = record { pid = 1; avail = true; lock = released; leader = 1 };
  k_ti = thread_with 1 true ∷ thread_with 2 true ∷ thread_with 0 false ∷ [];
  uniq_tid = 3;
  lock_smp = released;
  cpus = some (cpu_with 1 task1) ∷ some (cpu_with 2 task2) ∷ [];
  user = λ x. pos 0;
}

thread_create-Created_example :
    ((k_thread_create 1 (λ w. 0) (kernel 0 0) ≡ some (0, kernel 0 0))
      × ((j : ℕ) → j < 3 → (get_or (kernel 0 0).k_ti j no_thread).avail ≡ true))
    ⊎ ((ti : ℕ) × (k' : Kernel) × (k_thread_create 1 (λ w. 0) (kernel 0 0) ≡ some (ti, k'))
        × Created (kernel 0 0) (λ w. 0) ti k')
thread_create-Created_example = thread_create-Created 1 (λ w. 0) (kernel 0 0) refl

abbrev created : Kernel
created = record (kernel 0 0) {
  k_ti = thread_with 1 true ∷ thread_with 2 true ∷ new_thread (λ w. 0) 3 (thread_with 0 false) ∷ [];
  uniq_tid = 4;
}

abbrev machine : Machine
machine = record {
  raise_ipi = some (λ me dest. pos 0);
  context = λ w. 0;
  k_stack_intr = 4096;
  intr_stack_size = 512;
}

start_thread-outcome_example :
    ((k' : Kernel) × (false ≡ false)
      × (start_thread machine 1 2 2 (kernel 0 0) ≡ (pos 2, k'))
      × Changed
          (kernel 0 0)
          2
          (record (thread_with 2 true) { running = true; cpu = 2 })
          2
          (cpu_with 2 2)
          k')
    ⊎ ((k' : Kernel) × (false ≡ true)
        × (start_thread machine 1 2 2 (kernel 0 0) ≡ (pos 0, k'))
        × Changed
            (kernel 0 0)
            2
            (record (thread_with 2 true) { avail = false; running = false; cpu = 0 })
            2
            (cpu_with 2 0)
            k')
unfolding k_cpu_raise_ipi
start_thread-outcome_example =
    start_thread-outcome (kernel 0 0) 2 2 (record { nonnull = omega arith; within = omega arith })
      (record { nonnull = omega arith; within = omega arith }) machine 1

-- CLONE_CHILD_SETTID
abbrev clone_args : (ctid : ℕ) → CloneArgs
clone_args ctid = record {
  flags = 16777216;
  pidfd = 0;
  ctid = ctid;
  ptid = 0;
  exit_signal = 0;
  child_stack = 0;
  stack_size = 0;
  tls = 0;
  set_tid = 0;
  set_tid_size = 0;
  cgroup = 0;
}

context_switch-back_example :
    (k1 k2 : Kernel) × (k_thread_context_switch_nolock 1 (kernel 2 0) ≡ some (pos 0, k1))
    × ((cpu_at k1 1).regs ≡ (λ w. 2))
    × (k_thread_context_switch_nolock 1 (k_cpu_set_thread_task k1 1 0) ≡ some (pos 0, k2))
    × (cpu_at k2 1 ≡ cpu_with 1 0)
context_switch-back_example =
    context_switch-back (kernel 2 0) 1 (record { nonnull = omega arith; within = omega arith })
      (record { nonnull = omega arith; within = omega arith }) refl (omega arith) (omega arith)

-- CPU 2 waits at the address 64 for the bits 3.
abbrev waiting : Kernel
waiting = record (kernel 0 0) {
  cpus =
      some (cpu_with 1 0)
      ∷ some (record (cpu_with 2 2) {
        futex = record { uaddr = 64; val = pos 5; bitset = 3; wakeup = false };
      })
      ∷ [];
}

unlocked : (j : ℕ) → (cpu_of (get_or waiting.cpus j none)).lock ≡ released
unlocked zero = refl
unlocked (suc zero) = refl
unlocked (suc (suc j)) = refl

k_cpu_futex_wake-Woken_example :
    (k' : Kernel) × (k_cpu_futex_wake machine 1 64 (pos 1) 2 waiting ≡ some (pos 1, k'))
    × Woken 1 64 2 1 waiting k'
unfolding k_cpu_raise_ipi
k_cpu_futex_wake-Woken_example =
    k_cpu_futex_wake-Woken machine 1 64 2 (λ cpu. refl) 1 waiting (omega arith)
      (λ d p. unlocked (d - 1))
