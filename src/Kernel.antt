-- ===== src/Kernel.antt =====
-- The threads and CPUs of sys/thread.c, driver/cpu/cpu.c and sys/smp.c: the state that they share.
-- A pointer to a thread or a CPU is its index plus 1, and NULL is 0. `me` is the pointer that
-- `k_cpu_get_current` returns, and not NULL. `none` is a wait for a lock with no end.
pub mod Cpu
pub mod Lens
pub mod Thread
pub mod Clone
pub mod Switch
pub mod Futex
pub mod Power
pub mod Handlers
use baremetal_crt.Common.{
  ℕ, suc, ◌-◌, Bool, true, false, Option, none, some, List, get_or, set, ◌==◌, if◌then◌else◌, ℤ,
  pos, negsuc,
}
use baremetal_crt.Arch.{Regs}
use baremetal_crt.Lock.{SpinLock, released}

-- `struct k_proc_info`, less the descriptors.
pub record ProcInfo : Type 0 where
  pub pid : ℕ
  pub avail : Bool
  pub lock : SpinLock
  pub leader : ℕ

-- `struct k_thread_info`, less `pi`, which is always the one process.
pub record ThreadInfo : Type 0 where
  pub tid : ℕ
  pub avail : Bool
  pub running : Bool
  pub flags : ℕ
  pub sp : ℕ
  pub robust_list : ℕ
  pub robust_len : ℕ
  pub ctid : ℕ
  pub ptid : ℕ
  pub tls : ℕ
  pub regs : Regs
  pub cpu : ℕ

-- `struct k_cpu_futex`
pub record CpuFutex : Type 0 where
  pub uaddr : ℕ
  pub val : ℤ
  pub bitset : ℕ
  pub wakeup : Bool

-- `struct k_cpu_device`, less its base device, its handlers and its cache line sizes; `regs` is what
-- the field of that name points to.
pub record CpuDevice : Type 0 where
  pub id_cpu : ℕ
  pub id_phys : ℤ
  pub running : Bool
  pub regs : Regs
  pub lock : SpinLock
  pub ti : ℕ
  pub ti_idle : ℕ
  pub ti_task : ℕ
  pub futex : CpuFutex

-- The static variables: `k_pi`, `k_ti`, `uniq_tid`, `lock_smp` and `cpus`, and the `int`s of the user.
pub record Kernel : Type 0 where
  pub k_pi : ProcInfo
  pub k_ti : List ThreadInfo
  pub uniq_tid : ℕ
  pub lock_smp : SpinLock
  pub cpus : List (Option CpuDevice)
  pub user : ℕ → ℤ

-- What a pointer that is NULL or of no entry would read; the operations never read it.
abbrev pub no_thread : ThreadInfo
no_thread = record {
  tid = 0;
  avail = false;
  running = false;
  flags = 0;
  sp = 0;
  robust_list = 0;
  robust_len = 0;
  ctid = 0;
  ptid = 0;
  tls = 0;
  regs = λ _. 0;
  cpu = 0;
}

abbrev pub no_cpu : CpuDevice
no_cpu = record {
  id_cpu = 0;
  id_phys = negsuc 0;
  running = false;
  regs = λ _. 0;
  lock = released;
  ti = 0;
  ti_idle = 0;
  ti_task = 0;
  futex = record { uaddr = 0; val = pos 0; bitset = 0; wakeup = false };
}

-- `*ti`
abbrev pub thread : Kernel → ℕ → ThreadInfo
thread k ti = get_or k.k_ti (ti - 1) no_thread

abbrev pub set_thread : Kernel → ℕ → ThreadInfo → Kernel
set_thread k ti t = record k { k_ti = set k.k_ti (ti - 1) t }

abbrev pub cpu_of : Option CpuDevice → CpuDevice
cpu_of none = no_cpu
cpu_of (some c) = c

-- `*cpu`
abbrev pub cpu_at : Kernel → ℕ → CpuDevice
cpu_at k cpu = cpu_of (get_or k.cpus (cpu - 1) none)

abbrev pub set_cpu : Kernel → ℕ → CpuDevice → Kernel
set_cpu k cpu c = record k { cpus = set k.cpus (cpu - 1) (some c) }
