-- ===== src/Syscall/Process/Exit/Ended.antt =====
-- The exit of a thread that is not the leader, from its stop on.
use baremetal_crt.Common.{
  ℕ, ◌<◌, ◌≡◌, ◌≢◌, refl, ap, ◌∙◌, sym, arith, false, some, length, ◌==◌, pos,
}
use baremetal_crt.Arch.{retval, k_arch_riscv_get_arg}
use baremetal_crt.Lock.{k_spinlock_unlock}
use baremetal_crt.Kernel.{Kernel, ThreadInfo, CpuDevice, thread, cpu_at}
use baremetal_crt.Kernel.Lens
use baremetal_crt.Kernel.Cpu.{k_cpu_unlock, k_cpu_set_thread_task}
use baremetal_crt.Kernel.Thread.{k_thread_stop, k_thread_destroy}
use baremetal_crt.Kernel.Clone.{Machine, has_flag, clone_child_cleartid}
use baremetal_crt.Kernel.Clone.Start.{
  Changed, Changed-trans, Changed-eq, stop-Changed, destroy-Changed, stop-IsThread, stop-IsCpu,
}
use baremetal_crt.Kernel.Switch.Back.{to_idle}
use baremetal_crt.Kernel.Power.{PowerDriver}
use baremetal_crt.Syscall.Process.{to_intptr}
use baremetal_crt.Syscall.Process.Exit.{HostArea, clear_ctid, wake_ctid, exit_locked}

destroy_idle :
    (k : Kernel) (ti : ℕ)
    → 0 < ti
    → (thread k ti).running ≡ false
    → ((k_thread_destroy k ti).0 ≡ pos 0)
      × ((k_thread_destroy k ti).1.cpus ≡ k.cpus)
      × ((k_thread_destroy k ti).1.k_pi ≡ k.k_pi)
unfolding k_thread_destroy
destroy_idle k ti p e =
    let z : (ti == 0) ≡ false = ground (arith, p) in rw (z, e) (refl, refl, refl)

-- The thread has been stopped and destroyed.
module _ (k : Kernel) (ti me : ℕ) (is_thread : Lens.IsThread k ti) (is_cpu : Lens.IsCpu k me)
    (on : (thread k ti).cpu ≡ me) where
  abbrev stopped : Kernel
  stopped = (k_thread_stop k ti).1

  abbrev ended : Kernel
  ended = (k_thread_destroy stopped ti).1

  off : (thread stopped ti).running ≡ false
  off = ap (λ (t : ThreadInfo). t.running) (stop-Changed k ti me is_thread is_cpu on).thread_is

  ended-Changed :
      Changed k ti
        (record (thread k ti) { avail = false; running = false; cpu = 0 })
        me
        (record (cpu_at k me) { ti_task = 0 })
        ended
  ended-Changed =
      let b = stop-Changed k ti me is_thread is_cpu on in
      let th = stop-IsThread k ti me is_thread is_cpu in
      let cp = stop-IsCpu k ti me is_thread is_cpu on in
      Changed-eq (Changed-trans b (destroy-Changed stopped ti me th cp off))
        (ap (λ (t : ThreadInfo). record t { avail = false }) b.thread_is) b.cpu_is

  ended-IsCpu : Lens.IsCpu ended me
  ended-IsCpu =
      let cp = stop-IsCpu k ti me is_thread is_cpu on in
      let (_, same, _) = destroy_idle stopped ti is_thread.nonnull off in
      record { nonnull = cp.nonnull; within = omega (arith, cp.within, ap length same) }

  ended_ok :
      ((k_thread_stop k ti).0 ≡ pos 0)
      × ((k_thread_destroy stopped ti).0 ≡ pos 0)
      × (ended.k_pi.leader ≡ k.k_pi.leader)
  unfolding k_thread_stop k_cpu_set_thread_task
  ended_ok =
      let (r, _, same) = destroy_idle stopped ti is_thread.nonnull off in
      (refl, r, ap (λ pi. pi.leader) same)

  pub exit_locked-child :
      (p : PowerDriver) (w : Machine) (status : ℕ) (h : HostArea)
      → k.k_pi.leader ≢ ti
      → has_flag clone_child_cleartid (thread k ti).flags ≡ false
      → 0 < (cpu_at k me).ti_idle
      → (cpu_at k me).ti_idle ≢ ti
      → (cpu_at k me).ti ≢ (cpu_at k me).ti_idle
      → (k' : Kernel) × (exit_locked p w me status ti (k, h)
          ≡ some (
            to_intptr (k_arch_riscv_get_arg (thread k (cpu_at k me).ti_idle).regs retval).1,
            k',
            h,
          ))
        × (thread k' ti ≡ record (thread k ti) { avail = false; running = false; cpu = 0 })
        × (cpu_at k' me ≡ record (cpu_at k me) {
          regs = (thread k (cpu_at k me).ti_idle).regs;
          ti = (cpu_at k me).ti_idle;
          ti_task = 0;
          lock = k_spinlock_unlock (cpu_at k me).lock;
        })
  unfolding exit_locked clear_ctid wake_ctid k_cpu_unlock
  exit_locked-child p w status h not_leader no_flag idle other busy =
      let a = ended-Changed in
      let (o1, o2, o3) = ended_ok in
      let c = a.cpu_is in
      let at_idle : (cpu_at ended me).ti_idle ≡ (cpu_at k me).ti_idle =
        ap (λ (x : CpuDevice). x.ti_idle) c in
      let in_task : (cpu_at ended me).ti ≡ (cpu_at k me).ti = ap (λ (x : CpuDevice). x.ti) c in
      let (k5, e5, c5, t5, h5) =
        to_idle ended me ended-IsCpu (λ q. busy (sym in_task ∙ q ∙ at_idle))
          (omega (arith, idle, at_idle)) (ap (λ (x : CpuDevice). x.ti_task) c) in
      let f2 : has_flag clone_child_cleartid (thread ended ti).flags ≡ false =
        ap (λ (t : ThreadInfo). has_flag clone_child_cleartid t.flags) a.thread_is ∙ no_flag in
      let f5 : has_flag clone_child_cleartid (thread k5 ti).flags ≡ false =
        ap (λ (t : ThreadInfo). has_flag clone_child_cleartid t.flags) (t5 ti) ∙ f2 in
      let l : (ended.k_pi.leader == ti) ≡ false = ground (arith, o3, not_leader) in
      let regs : (thread ended (cpu_at ended me).ti_idle).regs
          ≡ (thread k (cpu_at k me).ti_idle).regs =
        ap (λ i. (thread ended i).regs) at_idle
        ∙ ap (λ (t : ThreadInfo). t.regs) (a.other_threads (cpu_at k me).ti_idle idle other) in
      let c6 : cpu_at k5 me ≡ record (cpu_at k me) {
        regs = (thread k (cpu_at k me).ti_idle).regs;
        ti = (cpu_at k me).ti_idle;
        ti_task = 0;
      } =
        c5 ∙ (λ i. record (c i) { regs = regs i; ti = at_idle i }) in
      (
        k_cpu_unlock k5 me,
        rw (o1, o2, l, f2, e5, f5)
            (ap
              (λ (x : CpuDevice).
                some (to_intptr (k_arch_riscv_get_arg x.regs retval).1, k_cpu_unlock k5 me, h))
              c6),
        t5 ti ∙ a.thread_is,
        Lens.cpu_at-set_same k5 me _ h5
            ∙ ap (λ (x : CpuDevice). record x { lock = k_spinlock_unlock x.lock }) c6,
      )
