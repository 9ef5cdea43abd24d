-- ===== src/Syscall/Process/Exit/Child.antt =====
-- The exit of a thread that is not the leader of the process.
use baremetal_crt.Common.{ℕ, ◌<◌, ◌≡◌, ◌≢◌, refl, ap, ◌∙◌, sym, arith, true, false, some, ◌==◌}
use baremetal_crt.Arch.{retval, k_arch_riscv_get_arg}
use baremetal_crt.Lock.{SpinLock, released, held_by, k_spinlock_unlock}
use baremetal_crt.Lock.Sequential.{lock_free, unlock_held}
use baremetal_crt.Kernel.{Kernel, CpuDevice, thread, cpu_at, set_cpu}
use baremetal_crt.Kernel.Lens
use baremetal_crt.Kernel.Cpu.{k_cpu_lock}
use baremetal_crt.Kernel.Thread.{k_proc_get_current}
use baremetal_crt.Kernel.Clone.{Machine, has_flag, clone_child_cleartid}
use baremetal_crt.Kernel.Power.{PowerDriver}
use baremetal_crt.Syscall.Process.Exit.Ended.{exit_locked-child}
use baremetal_crt.Syscall.Process.{to_intptr}
use baremetal_crt.Syscall.Process.Exit.{HostArea, exit_locked, k_sys_exit}

lock_own :
    (k : Kernel) (me : ℕ)
    → (cpu_at k me).lock ≡ released
    → k_cpu_lock me k me
      ≡ some (set_cpu k me (record (cpu_at k me) { lock = held_by (cpu_at k me).id_phys }))
unfolding k_cpu_lock
lock_own k me free =
    let unheld : (cpu_at k me).lock.val ≡ 0 = ap (λ (l : SpinLock). l.val) free in
    rw (lock_free (cpu_at k me).id_phys (cpu_at k me).lock unheld) refl

has_proc : (k : Kernel) → k.k_pi.avail ≡ true → (k_proc_get_current k == 0) ≡ false
unfolding k_proc_get_current
has_proc k e = rw e (ground arith)

k_sys_exit-locked :
    (p : PowerDriver) (w : Machine) (me status : ℕ) (k : Kernel) (h : HostArea)
    → k.k_pi.avail ≡ true
    → Lens.IsCpu k me
    → (cpu_at k me).lock ≡ released
    → 0 < (cpu_at k me).ti_task
    → k_sys_exit p w me status (k, h)
      ≡ exit_locked p w me status
          (cpu_at k me).ti_task
          (set_cpu k me (record (cpu_at k me) { lock = held_by (cpu_at k me).id_phys }), h)
unfolding k_sys_exit
k_sys_exit-locked p w me status k h here is_cpu free task =
    let c = cpu_at k me in
    let same =
      ap (λ (x : CpuDevice). x.ti_task)
        (Lens.cpu_at-set_same k me (record c { lock = held_by c.id_phys }) is_cpu) in
    let z : (c.ti_task == 0) ≡ false = ground (arith, task) in
    rw (lock_own k me free, same, z, has_proc k here) refl

-- The exit of a thread that is not the leader and has not asked to have its id cleared: its entry of the
-- table is free and not running, the host is told nothing, and the CPU is in its idle thread without a task,
-- with the context saved there, whose result is returned; its lock is free again and nothing else of it has
-- changed. The thread is the task of the CPU, which was not in its idle thread and whose lock was free.
pub k_sys_exit-child :
    (p : PowerDriver) (w : Machine) (me status : ℕ) (k : Kernel) (h : HostArea)
    → k.k_pi.avail ≡ true
    → Lens.IsCpu k me
    → (cpu_at k me).lock ≡ released
    → Lens.IsThread k (cpu_at k me).ti_task
    → (thread k (cpu_at k me).ti_task).cpu ≡ me
    → k.k_pi.leader ≢ (cpu_at k me).ti_task
    → has_flag clone_child_cleartid (thread k (cpu_at k me).ti_task).flags ≡ false
    → 0 < (cpu_at k me).ti_idle
    → (cpu_at k me).ti_idle ≢ (cpu_at k me).ti_task
    → (cpu_at k me).ti ≢ (cpu_at k me).ti_idle
    → (k' : Kernel) × (k_sys_exit p w me status (k, h)
        ≡ some (
          to_intptr (k_arch_riscv_get_arg (thread k (cpu_at k me).ti_idle).regs retval).1,
          k',
          h,
        ))
      × (thread k' (cpu_at k me).ti_task
          ≡ record (thread k (cpu_at k me).ti_task) { avail = false; running = false; cpu = 0 })
      × (cpu_at k' me ≡ record (cpu_at k me) {
        regs = (thread k (cpu_at k me).ti_idle).regs;
        ti = (cpu_at k me).ti_idle;
        ti_task = 0;
      })
k_sys_exit-child p w me status k h here is_cpu free is_thread on not_leader no_flag idle other
      busy =
    let c = cpu_at k me in
    let k1 : Kernel = set_cpu k me (record c { lock = held_by c.id_phys }) in
    let c1 = Lens.cpu_at-set_same k me (record c { lock = held_by c.id_phys }) is_cpu in
    let base : (cpu_at k1 me).ti_idle ≡ c.ti_idle = ap (λ (x : CpuDevice). x.ti_idle) c1 in
    let now : (cpu_at k1 me).ti ≡ c.ti = ap (λ (x : CpuDevice). x.ti) c1 in
    let (k', e, t, c2) =
      exit_locked-child k1 c.ti_task me
        (record { nonnull = is_thread.nonnull; within = is_thread.within })
        (Lens.set_cpu-IsCpu k me _ me is_cpu) on p w status h not_leader no_flag
        (omega (arith, idle, base)) (λ q. other (sym base ∙ q)) (λ q. busy (sym now ∙ q ∙ base)) in
    (
      k',
      k_sys_exit-locked p w me status k h here is_cpu free is_thread.nonnull
          ∙ e
          ∙ ap
              (λ (x : CpuDevice).
                some (to_intptr (k_arch_riscv_get_arg (thread k x.ti_idle).regs retval).1, k', h))
              c1,
      t,
      c2
          ∙ (λ i. record (c1 i) {
            regs = (thread k (c1 i).ti_idle).regs;
            ti = (c1 i).ti_idle;
            ti_task = 0;
            lock = k_spinlock_unlock (c1 i).lock;
          })
          ∙ (λ i. record c {
            regs = (thread k c.ti_idle).regs;
            ti = c.ti_idle;
            ti_task = 0;
            lock = (unlock_held c.id_phys ∙ sym free) i;
          }),
    )
