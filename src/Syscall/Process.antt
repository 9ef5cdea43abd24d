-- ===== src/Syscall/Process.antt =====
-- The system calls of sys/syscall.c on the process and its threads. Flags,
-- masks and addresses are the bits of the C values.
pub mod Exit
use Prim.Native.Nat.{bit_and}
use baremetal_crt.Common.{
  to_int, ℕ, ◌+◌, ◌-◌, ◌*◌, ◌/◌, ◌%◌, ◌^◌, Bool, true, false, Option, none, some, List, ◌==◌, ltb,
  not, ◌||◌, if◌then◌else◌, ◌>>=◌, is_nonzero, ℤ, pos, negsuc, eq_ℤ, einval, efault, eperm, enosys,
}
use baremetal_crt.Arch.{retval, k_arch_riscv_get_arg}
use baremetal_crt.Kernel.{Kernel, thread, set_thread, cpu_at}
use baremetal_crt.Kernel.Cpu.{k_cpu_lock, k_cpu_unlock}
use baremetal_crt.Kernel.Thread.{k_proc_get_current, k_thread_stop, k_thread_destroy}
use baremetal_crt.Kernel.Clone.{
  Machine, CloneArgs, has_flag, clone_child_cleartid, write_user, k_thread_clone,
}
use baremetal_crt.Kernel.Switch.{k_thread_context_switch_nolock, k_thread_context_switch}
use baremetal_crt.Kernel.Futex.{k_cpu_futex_wake}
use baremetal_crt.Kernel.Futex.Wait.{k_cpu_futex_wait}
use baremetal_crt.Kernel.Power.{PowerDriver, k_cpu_sleep_all}

-- A `uintptr_t` that is returned as `intptr_t`.
unfoldable pub to_intptr : ℕ → ℤ
to_intptr v = if ltb v (2 ^ 63) then pos v else negsuc (2 ^ 64 - 1 - v)

-- The new limits that are asked for are a pointer, and the result is what `*old_lim` becomes, where it is
-- stored: the soft limit and the hard limit. RLIMIT_STACK is 3.
unfoldable pub k_sys_prlimit64 :
    (main_stack_size : ℕ) → (resource : ℤ) → (new_lim old_lim : ℕ) → ℤ × Option (ℕ × ℕ)
k_sys_prlimit64 size resource new_lim old_lim =
    if not (new_lim == 0)
    then (eperm, none)
    else if eq_ℤ resource (pos 3)
    then (pos 0, if old_lim == 0 then none else some (size, 2 ^ 64 - 1))
    else (einval, none)

-- `none` is a NULL that is followed.
unfoldable pub k_sys_getpid : Kernel → Option ℕ
unfolding k_proc_get_current
k_sys_getpid k = if k_proc_get_current k == 0 then none else some k.k_pi.pid

unfoldable pub k_sys_gettid : (me : ℕ) → Kernel → Option ℤ
k_sys_gettid me k =
    let ti = (cpu_at k me).ti in if ti == 0 then none else some (to_int (thread k ti).tid)

-- CSIGNAL is 255; `args` is what the stack holds in the fields that are not written.
unfoldable pub k_sys_clone :
    Machine
    → (me : ℕ) (args : CloneArgs) (flags child_stack ptid tls ctid : ℕ) → Kernel
    → Option (ℤ × Kernel)
k_sys_clone w me args flags child_stack ptid tls ctid k =
    k_thread_clone w me
      (record args {
        flags = flags - flags % 256;
        exit_signal = flags % 256;
        child_stack = child_stack;
        pidfd = ptid;
        ptid = ptid;
        tls = tls;
        ctid = ctid;
      })
      k

-- `none` for `cargs` is NULL; the struct has 88 bytes.
unfoldable pub k_sys_clone3 :
    Machine → (me : ℕ) (cargs : Option CloneArgs) (size : ℕ) → Kernel → Option (ℤ × Kernel)
k_sys_clone3 w me none size k = some (einval, k)
k_sys_clone3 w me (some a) size k =
    if ltb size 88
    then some (einval, k)
    else k_thread_clone w me (record a { child_stack = (a.child_stack + a.stack_size) % 2 ^ 64 }) k

-- FUTEX_BITSET_ANY
abbrev pub bitset_any : ℕ
bitset_any = 2 ^ 32 - 1

-- `op & FUTEX_MASK`, for the bits of `op`: the bits 7 and 8 are cleared.
abbrev pub futex_cmd : (op : ℕ) → ℕ
futex_cmd op = op - bit_and op 384

-- The timeout is only printed. `during` is what happens in the waits of FUTEX_WAIT (0) and
-- FUTEX_WAIT_BITSET (9); FUTEX_WAKE is 1, FUTEX_WAKE_BITSET 10 and FUTEX_REQUEUE 3.
unfoldable pub k_sys_futex64 :
    Machine
    → (me : ℕ) (during : List (Kernel → Kernel)) (uaddr op : ℕ) (val : ℤ) (val3 : ℕ) → Kernel
    → Option (ℤ × Kernel)
k_sys_futex64 w me during uaddr op val val3 k =
    let cmd = futex_cmd op in
    if uaddr == 0
    then some (efault, k)
    else if cmd == 0
    then k_cpu_futex_wait me uaddr val bitset_any during k
    else if cmd == 9
    then k_cpu_futex_wait me uaddr val val3 during k
    else if (cmd == 1) || (cmd == 3)
    then k_cpu_futex_wake w me uaddr val bitset_any k
    else if cmd == 10
    then k_cpu_futex_wake w me uaddr val val3 k
    else some (enosys, k)

-- The timeout that is converted here is only printed.
unfoldable pub k_sys_futex32 :
    Machine
    → (me : ℕ) (during : List (Kernel → Kernel)) (uaddr op : ℕ) (val : ℤ) (val3 : ℕ) → Kernel
    → Option (ℤ × Kernel)
k_sys_futex32 w me during uaddr op val val3 k = k_sys_futex64 w me during uaddr op val val3 k

unfoldable pub k_sys_set_robust_list : (me head len : ℕ) → Kernel → ℤ × Kernel
k_sys_set_robust_list me head len k =
    let ti = (cpu_at k me).ti_task in
    if (len == 0) || (ti == 0)
    then (einval, k)
    else (pos 0, set_thread k ti (record (thread k ti) { robust_list = head; robust_len = len }))

unfoldable pub k_sys_set_tid_address : (me tidptr : ℕ) → Kernel → ℤ × Kernel
k_sys_set_tid_address me tidptr k =
    let ti = (cpu_at k me).ti_task in
    let t = thread k ti in
    if ti == 0 then (einval, k) else (
      to_int t.tid,
      if has_flag clone_child_cleartid t.flags
          then set_thread k ti (record t { ctid = tidptr })
          else k,
    )

unfoldable pub k_sys_context_switch : (me : ℕ) → Kernel → Option (ℤ × Kernel)
unfolding k_thread_context_switch
k_sys_context_switch me k = do
  (r, k1) ← k_thread_context_switch me k
  let v = (k_arch_riscv_get_arg (cpu_at k1 me).regs retval).1
  some (if is_nonzero r then (r, k1) else (to_intptr v, k1))
