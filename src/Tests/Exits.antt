-- ===== src/Tests/Exits.antt =====
-- CPU 1 runs thread 2 as its task, and thread 1 is its idle thread and the leader.
use baremetal_crt.Common.{◌≡◌, refl, false, true, some, [], ◌∷◌, arith, pos}
use baremetal_crt.Lock.{released}
use baremetal_crt.Kernel.{Kernel, ThreadInfo, CpuDevice, thread, cpu_at, no_thread, no_cpu}
use baremetal_crt.Kernel.Clone.{Machine}
use baremetal_crt.Kernel.Power.{PowerDriver}
use baremetal_crt.Syscall.Process.{to_intptr}
use baremetal_crt.Syscall.Process.Exit.{HostArea, k_sys_exit}
use baremetal_crt.Syscall.Process.Exit.Child.{k_sys_exit-child}

abbrev machine : Machine
machine = record {
  raise_ipi = some (λ source dest. pos 0);
  context = λ w. 0;
  k_stack_intr = 0;
  intr_stack_size = 0;
}

abbrev power : PowerDriver
power = record { wakeup = λ cpu. pos 0; sleep = λ cpu. pos 0 }

abbrev host : HostArea
host = record { magic = true; done = false; ret_main = 0 }

abbrev idle : ThreadInfo
idle = record no_thread { tid = 1; avail = true; regs = λ w. w }

abbrev child : ThreadInfo
child = record no_thread { tid = 2; avail = true; running = true; cpu = 1 }

abbrev cpu : CpuDevice
cpu = record no_cpu { ti = 2; ti_idle = 1; ti_task = 2 }

abbrev kernel : Kernel
kernel = record {
  k_pi = record { pid = 1; avail = true; lock = released; leader = 1 };
  k_ti = idle ∷ child ∷ [];
  uniq_tid = 3;
  lock_smp = released;
  cpus = some cpu ∷ [];
  user = λ x. pos 0;
}

-- The word 11 of the idle thread's context is returned.
k_sys_exit-child_example :
    (k' : Kernel) × (k_sys_exit power machine 1 7 (kernel, host) ≡ some (to_intptr 11, k', host))
    × (thread k' 2 ≡ record child { avail = false; running = false; cpu = 0 })
    × (cpu_at k' 1 ≡ record cpu { regs = λ w. w; ti = 1; ti_task = 0 })
unfolding baremetal_crt.Arch.k_arch_riscv_get_arg
k_sys_exit-child_example =
    k_sys_exit-child power machine 1 7 kernel host refl
      (record { nonnull = omega arith; within = omega arith }) refl
      (record { nonnull = omega arith; within = omega arith }) refl (omega arith) refl (omega arith)
      (omega arith) (omega arith)
