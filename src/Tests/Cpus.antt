-- ===== src/Tests/Cpus.antt =====
-- Two CPUs that run. The second one's driver refuses to put it to sleep.
use baremetal_crt.Common.{
  ◌≤◌, ◌-◌, ℕ, zero, suc, ◌≡◌, refl, true, false, if◌then◌else◌, ◌==◌, none, some, List, [], ◌∷◌,
  arith, get_or, ℤ, pos, einval,
}
use baremetal_crt.Lock.{released}
use baremetal_crt.Kernel.{Kernel, CpuDevice, cpu_at, no_cpu, cpu_of}
use baremetal_crt.Kernel.Clone.{Machine}
use baremetal_crt.Kernel.Power.{PowerDriver, k_cpu_sleep_all}
use baremetal_crt.Kernel.Power.Running.{runs}
use baremetal_crt.Kernel.Power.All.{k_cpu_sleep_all-runs}
use baremetal_crt.Kernel.Futex.Woken.{Only}
use baremetal_crt.Kernel.Futex.Wait.{k_cpu_futex_wait, no_futex}
use baremetal_crt.Kernel.Futex.Wait.Ends.{
  run_first, Answers, KeepReady, begun, k_cpu_futex_wait-ends,
}

abbrev machine : Machine
machine = record {
  raise_ipi = some (λ source dest. pos 0);
  context = λ w. 0;
  k_stack_intr = 0;
  intr_stack_size = 0;
}

abbrev power : PowerDriver
power = record { wakeup = λ cpu. pos 0; sleep = λ cpu. if cpu == 2 then einval else pos 0 }

abbrev running_cpu : CpuDevice
running_cpu = record no_cpu { running = true }

abbrev running : Kernel
running = record {
  k_pi = record { pid = 1; avail = true; lock = released; leader = 0 };
  k_ti = [];
  uniq_tid = 1;
  lock_smp = released;
  cpus = some running_cpu ∷ some running_cpu ∷ some running_cpu ∷ [];
  user = λ x. pos 5;
}

k_cpu_sleep_all-runs_example : runs false (k_cpu_sleep_all power machine 1 running).1 1 ≡ true
k_cpu_sleep_all-runs_example = k_cpu_sleep_all-runs power machine 1 running 1 (omega arith)

-- Another CPU stores 9 where CPU 1 waits with the value 5.
abbrev store_nine : List (Kernel → Kernel)
store_nine = (λ k. record k { user = λ x. pos 9 }) ∷ []

keeps : KeepReady 1 store_nine
unfolding KeepReady
keeps = (λ k h. (h.0, record { nonnull = h.1.nonnull; within = h.1.within }), tt)

unlocked : (j : ℕ) → (cpu_of (get_or running.cpus j none)).lock ≡ released
unlocked zero = refl
unlocked (suc zero) = refl
unlocked (suc (suc zero)) = refl
unlocked (suc (suc (suc j))) = refl

k_cpu_futex_wait-ends_example :
    (n : ℕ) × (r : ℤ) × (k' : Kernel) × (n ≤ 1)
    × (k_cpu_futex_wait 1 64 (pos 5) 1 store_nine running ≡ some (r, k'))
    × Answers 1 64 r (run_first n store_nine (begun 1 64 (pos 5) 1 running))
    × Only
        (run_first n store_nine (begun 1 64 (pos 5) 1 running))
        1
        (record (cpu_at (run_first n store_nine (begun 1 64 (pos 5) 1 running)) 1) {
          futex = no_futex;
          lock = released;
        })
        k'
unfolding begun run_first baremetal_crt.Kernel.Cpu.k_cpu_lock baremetal_crt.Lock.k_spinlock_lock
    baremetal_crt.Kernel.Cpu.k_cpu_unlock
k_cpu_futex_wait-ends_example =
    k_cpu_futex_wait-ends 1 64 (pos 5) 1 1 store_nine running (omega arith)
      (λ d p. unlocked (d - 1)) (record { nonnull = omega arith; within = omega arith }) keeps refl
