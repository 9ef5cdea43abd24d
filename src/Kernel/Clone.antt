-- ===== src/Kernel/Clone.antt =====
-- `k_thread_clone` of sys/thread.c, with `k_smp_lock` and `k_cpu_raise_ipi`.
pub mod Start
pub mod Refused
use baremetal_crt.Common.{
  to_int, ℕ, suc, ◌+◌, ◌-◌, ◌*◌, ◌/◌, ◌%◌, ◌^◌, Bool, true, false, ◌&&◌, ◌||◌, Option, none, some,
  ◌==◌, if◌then◌else◌, ◌>>=◌, is_nonzero, ℤ, pos, enomem, efault, enotsup,
}
use baremetal_crt.Arch.{Regs, ArgType, retval, stack, stack_intr, tls, k_arch_riscv_set_arg}
use baremetal_crt.Lock.{k_spinlock_lock, k_spinlock_unlock}
use baremetal_crt.Kernel.{Kernel, ThreadInfo, thread, set_thread, cpu_at, set_cpu}
use baremetal_crt.Kernel.Cpu.{k_cpu_lock, k_cpu_unlock, k_smp_find_idle_cpu}
use baremetal_crt.Kernel.Thread.{k_thread_create, k_thread_run, k_thread_stop, k_thread_destroy}

-- `struct k_clone_args`
pub record CloneArgs : Type 0 where
  pub flags : ℕ
  pub pidfd : ℕ
  pub ctid : ℕ
  pub ptid : ℕ
  pub exit_signal : ℕ
  pub child_stack : ℕ
  pub stack_size : ℕ
  pub tls : ℕ
  pub set_tid : ℕ
  pub set_tid_size : ℕ
  pub cgroup : ℕ

-- What the kernel does not compute itself: the CPU driver's `raise_ipi` (`none` where it has none), the
-- context that is copied for a new thread, and the interrupt stacks.
pub record Machine : Type 0 where
  pub raise_ipi : Option ((source dest : ℕ) → ℤ)
  pub context : Regs
  pub k_stack_intr : ℕ
  pub intr_stack_size : ℕ

-- `flags & (1 << b)`
abbrev pub has_flag : (b flags : ℕ) → Bool
has_flag b flags = flags / 2 ^ b % 2 == 1

abbrev pub clone_settls : ℕ
clone_settls = 19

abbrev pub clone_parent_settid : ℕ
clone_parent_settid = 20

abbrev pub clone_child_cleartid : ℕ
clone_child_cleartid = 21

abbrev pub clone_child_settid : ℕ
clone_child_settid = 24

-- `need_ctid`
abbrev pub needs_ctid : CloneArgs → Bool
needs_ctid a = has_flag clone_child_cleartid a.flags || has_flag clone_child_settid a.flags

-- A flag asks for a pointer that is NULL.
unfoldable pub lacks_pointer : CloneArgs → Bool
lacks_pointer a =
    (needs_ctid a && (a.ctid == 0))
    || (has_flag clone_parent_settid a.flags && (a.ptid == 0))
    || (has_flag clone_settls a.flags && (a.tls == 0))

unfoldable pub k_smp_lock : (me : ℕ) → Kernel → Option Kernel
k_smp_lock me k = do
  l ← k_spinlock_lock (cpu_at k me).id_phys k.lock_smp
  some (record k { lock_smp = l })

unfoldable pub k_smp_unlock : Kernel → Kernel
k_smp_unlock k = record k { lock_smp = k_spinlock_unlock k.lock_smp }

unfoldable pub k_cpu_raise_ipi : Machine → (me dest : ℕ) → ℤ
k_cpu_raise_ipi w me dest = elim w.raise_ipi [ none ↦ enotsup | some raise ↦ raise me dest ]

-- `*p = v` for an `int` of the user.
abbrev pub write_user : (p : ℕ) → (v : ℤ) → (ℕ → ℤ) → ℕ → ℤ
write_user p v m x = if x == p then v else m x

-- The registers of the new thread: the caller's, with its own result, stacks and thread pointer.
unfoldable pub child_regs : Machine → CloneArgs → (tls_value id_cpu : ℕ) → Regs → Regs
child_regs w a tls_value id_cpu regs =
    let r1 = k_arch_riscv_set_arg regs retval 0 in
    let r2 = k_arch_riscv_set_arg r1 stack a.child_stack in
    let r3 =
      k_arch_riscv_set_arg r2 stack_intr (w.k_stack_intr + (id_cpu + 1) * w.intr_stack_size) in
    k_arch_riscv_set_arg r3 tls tls_value

-- The new thread's fields, and the notice to the user.
unfoldable pub fill_thread : Machine → (me : ℕ) → CloneArgs → (cpu ti : ℕ) → Kernel → Kernel
unfolding child_regs
fill_thread w me a cpu ti k =
    let t = thread k ti in
    let ctid = if needs_ctid a then a.ctid else 0 in
    let ptid = if has_flag clone_parent_settid a.flags then a.ptid else 0 in
    let tls_value = if has_flag clone_settls a.flags then a.tls else 0 in
    let u1 =
      if has_flag clone_child_settid a.flags
      then write_user ctid (to_int t.tid) k.user
      else k.user in
    let u2 =
      if has_flag clone_parent_settid a.flags then write_user ptid (to_int t.tid) u1 else u1 in
    record (set_thread k ti (record t {
      flags = a.flags;
      ctid = ctid;
      ptid = ptid;
      tls = tls_value;
      sp = a.child_stack;
      regs = child_regs w a tls_value (cpu_at k cpu).id_cpu (cpu_at k me).regs;
    })) { user = u2 }

-- From `k_thread_run` on, with the way back at `err_out3` and `err_out2`.
unfoldable pub start_thread : Machine → (me cpu ti : ℕ) → Kernel → ℤ × Kernel
unfolding k_cpu_raise_ipi
start_thread w me cpu ti k =
    let (r, k1) = k_thread_run k ti cpu in
    let s = k_cpu_raise_ipi w me (thread k1 ti).cpu in
    if is_nonzero r
    then (r, (k_thread_destroy k1 ti).1)
    else if is_nonzero s
    then (s, (k_thread_destroy (k_thread_stop k1 ti).1 ti).1)
    else (to_int (thread k1 ti).tid, k1)

-- From the lock of the idle CPU to its unlock.
unfoldable pub clone_on : Machine → (me : ℕ) → CloneArgs → (cpu : ℕ) → Kernel → Option (ℤ × Kernel)
unfolding fill_thread start_thread
clone_on w me a cpu k = do
  k1 ← k_cpu_lock me k cpu
  (ti, k2) ← k_thread_create me w.context k1
  let (r, k3) =
      if ti == 0 then (enomem, k2) else start_thread w me cpu ti (fill_thread w me a cpu ti k2)
  some (r, k_cpu_unlock k3 cpu)

unfoldable pub k_thread_clone : Machine → (me : ℕ) → CloneArgs → Kernel → Option (ℤ × Kernel)
unfolding lacks_pointer k_smp_lock k_smp_unlock clone_on
k_thread_clone w me a k = if lacks_pointer a then some (efault, k) else do
  k1 ← k_smp_lock me k
  let (r, cpu) = k_smp_find_idle_cpu k1
  let k2 = k_smp_unlock k1
  if is_nonzero r then some (r, k2) else clone_on w me a cpu k2
