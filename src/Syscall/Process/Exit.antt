-- ===== src/Syscall/Process/Exit.antt =====
-- `k_sys_exit` of sys/syscall.c, with `k_fini_leader` of sys/init.c.
pub mod Ended
pub mod Child
use baremetal_crt.Common.{
  ℕ, ◌%◌, Bool, true, false, Option, none, some, ◌==◌, if◌then◌else◌, ◌>>=◌, is_nonzero, ℤ, pos,
  einval,
}
use baremetal_crt.Arch.{retval, k_arch_riscv_get_arg}
use baremetal_crt.Kernel.{Kernel, thread, cpu_at}
use baremetal_crt.Kernel.Cpu.{k_cpu_lock, k_cpu_unlock}
use baremetal_crt.Kernel.Thread.{k_proc_get_current, k_thread_stop, k_thread_destroy}
use baremetal_crt.Kernel.Clone.{Machine, has_flag, clone_child_cleartid, write_user}
use baremetal_crt.Kernel.Switch.{k_thread_context_switch_nolock}
use baremetal_crt.Kernel.Futex.{k_cpu_futex_wake}
use baremetal_crt.Kernel.Power.{PowerDriver, k_cpu_sleep_all}
use baremetal_crt.Syscall.Process.{to_intptr, bitset_any}

-- What the host reads of `struct k_comm_area_header`; `magic` is whether the number is right.
pub record HostArea : Type 0 where
  pub magic : Bool
  pub done : Bool
  pub ret_main : ℕ

-- `fini_args`, less the flushes of the cache.
unfoldable pub fini_args : (st : ℕ) → HostArea → HostArea
fini_args st h = if h.magic then record h { ret_main = st; done = true } else h

-- `status` is the bits of the `int`.
unfoldable pub k_fini_leader :
    PowerDriver → Machine → (me status : ℕ) → Kernel × HostArea → Kernel × HostArea
unfolding fini_args
k_fini_leader p w me status (k, h) = ((k_cpu_sleep_all p w me k).1, fini_args (status % 256) h)

-- `*ti->ctid = 0` where the flag asks for it; `none` is a write through NULL.
unfoldable pub clear_ctid : (ti : ℕ) → Kernel → Option Kernel
clear_ctid ti k =
    if has_flag clone_child_cleartid (thread k ti).flags
    then if (thread k ti).ctid == 0
      then none
      else some (record k { user = write_user (thread k ti).ctid (pos 0) k.user })
    else some k

-- The wake of those who wait for the end of the thread.
unfoldable pub wake_ctid : Machine → (me ti : ℕ) → Kernel → Option Kernel
wake_ctid w me ti k =
    if has_flag clone_child_cleartid (thread k ti).flags
    then (do (_, k1) ← k_cpu_futex_wake w me (thread k ti).ctid (pos 1) bitset_any k; some k1)
    else some k

-- From the stop of the thread on, with the CPU locked.
unfoldable pub exit_locked :
    PowerDriver → Machine → (me status ti : ℕ) → Kernel × HostArea → Option (ℤ × Kernel × HostArea)
unfolding k_fini_leader clear_ctid wake_ctid
exit_locked p w me status ti (k, h) =
    let (r1, k1) = k_thread_stop k ti in
    let (r2, k2) = k_thread_destroy k1 ti in
    if is_nonzero r1
    then some (r1, k_cpu_unlock k1 me, h)
    else if is_nonzero r2
    then some (r2, k_cpu_unlock k2 me, h)
    else (do
      let (k3, h3) = if k2.k_pi.leader == ti then k_fini_leader p w me status (k2, h) else (k2, h)
      k4 ← clear_ctid ti k3
      (r5, k5) ← k_thread_context_switch_nolock me k4
      let k6 = k_cpu_unlock k5 me
      let v = to_intptr (k_arch_riscv_get_arg (cpu_at k5 me).regs retval).1
      (if is_nonzero r5
          then some (r5, k6, h3)
          else (do k7 ← wake_ctid w me ti k6; some (v, k7, h3))))

-- `none` is a wait for a lock that has no end, or a NULL that is followed.
unfoldable pub k_sys_exit :
    PowerDriver → Machine → (me status : ℕ) → Kernel × HostArea → Option (ℤ × Kernel × HostArea)
unfolding exit_locked
k_sys_exit p w me status (k, h) = do
  k1 ← k_cpu_lock me k me
  let ti = (cpu_at k1 me).ti_task
  (if ti == 0
      then some (einval, k_cpu_unlock k1 me, h)
      else if k_proc_get_current k == 0
      then none
      else exit_locked p w me status ti (k1, h))
