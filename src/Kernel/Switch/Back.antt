-- ===== src/Kernel/Switch/Back.antt =====
-- What a CPU runs after `k_thread_context_switch_nolock` of sys/thread.c.
use baremetal_crt.Common.{
  ℕ, ◌<◌, ◌≡◌, ◌≢◌, refl, ap, ◌∙◌, sym, some, arith, Bool, true, false, ◌||◌, ◌==◌, pos,
}
use baremetal_crt.Kernel.{Kernel, CpuDevice, ThreadInfo, thread, cpu_at}
use baremetal_crt.Kernel.Lens
use baremetal_crt.Kernel.Cpu.{k_cpu_set_thread_task}
use baremetal_crt.Kernel.Switch.{
  save_context, k_thread_context_switch_nolock, load_context-IsCpu, save_context-IsCpu,
}

or_true : (b : Bool) → (b || true) ≡ true
or_true true = refl
or_true false = refl

-- A CPU in its idle thread that has a task goes to it, and the context is kept in the idle thread.
pub to_task :
    (k : Kernel) (me : ℕ)
    → Lens.IsCpu k me
    → Lens.IsThread k (cpu_at k me).ti
    → (cpu_at k me).ti ≡ (cpu_at k me).ti_idle
    → 0 < (cpu_at k me).ti_task
    → (cpu_at k me).ti_task ≢ (cpu_at k me).ti
    → (k' : Kernel) × (k_thread_context_switch_nolock me k ≡ some (pos 0, k'))
      × (cpu_at k' me ≡ record (cpu_at k me) {
        regs = (thread k (cpu_at k me).ti_task).regs;
        ti = (cpu_at k me).ti_task;
      })
      × ((thread k' (cpu_at k me).ti).regs ≡ (cpu_at k me).regs)
      × Lens.IsCpu k' me
unfolding k_thread_context_switch_nolock
to_task k me is_cpu h e p n =
    let (k1, e1, c1, r1, o1, h1) = save_context-IsCpu k me is_cpu h e in
    let (k2, e2, c2, r2, h2) = load_context-IsCpu k1 me h1 (cpu_at k me).ti_task p in
    let z : ((cpu_at k me).ti == 0) ≡ false = ground (arith, h.nonnull) in
    let y : ((cpu_at k me).ti_task == 0) ≡ false = ground (arith, p) in
    (
      k2,
      rw (e1, z, y, e2) refl,
      c2 ∙ (λ i. record (c1 i) {
        regs = (o1 (cpu_at k me).ti_task p n i).regs;
        ti = (cpu_at k me).ti_task;
      }),
      ap (λ (t : ThreadInfo). t.regs) (r2 (cpu_at k me).ti) ∙ r1,
      h2,
    )

-- A CPU in a task that has ended goes to its idle thread.
pub to_idle :
    (k : Kernel) (me : ℕ)
    → Lens.IsCpu k me
    → (cpu_at k me).ti ≢ (cpu_at k me).ti_idle
    → 0 < (cpu_at k me).ti_idle
    → (cpu_at k me).ti_task ≡ 0
    → (k' : Kernel) × (k_thread_context_switch_nolock me k ≡ some (pos 0, k'))
      × (cpu_at k' me ≡ record (cpu_at k me) {
        regs = (thread k (cpu_at k me).ti_idle).regs;
        ti = (cpu_at k me).ti_idle;
      })
      × ((u : ℕ) → thread k' u ≡ thread k u)
      × Lens.IsCpu k' me
unfolding k_thread_context_switch_nolock save_context
to_idle k me is_cpu n p z =
    let (k2, e2, c2, r2, h2) = load_context-IsCpu k me is_cpu (cpu_at k me).ti_idle p in
    let d : ((cpu_at k me).ti == (cpu_at k me).ti_idle) ≡ false = ground (arith, n) in
    let y : ((cpu_at k me).ti_task == 0) ≡ true = ground (arith, z) in
    (k2, rw (d, y, or_true) (rw e2 refl), c2, r2, h2)

-- Going to a task and, when the task has ended, back: the CPU is in its idle thread again, with the context
-- it had before. The CPU was in its idle thread, and the task is another thread.
pub context_switch-back :
    (k : Kernel) (me : ℕ)
    → Lens.IsCpu k me
    → Lens.IsThread k (cpu_at k me).ti
    → (cpu_at k me).ti ≡ (cpu_at k me).ti_idle
    → 0 < (cpu_at k me).ti_task
    → (cpu_at k me).ti_task ≢ (cpu_at k me).ti
    → (k1 k2 : Kernel) × (k_thread_context_switch_nolock me k ≡ some (pos 0, k1))
      × ((cpu_at k1 me).regs ≡ (thread k (cpu_at k me).ti_task).regs)
      × (k_thread_context_switch_nolock me (k_cpu_set_thread_task k1 me 0) ≡ some (pos 0, k2))
      × (cpu_at k2 me ≡ record (cpu_at k me) { ti_task = 0 })
unfolding k_cpu_set_thread_task
context_switch-back k me is_cpu h e p n =
    let (k1, e1, c1, r1, h1) = to_task k me is_cpu h e p n in
    let kd = k_cpu_set_thread_task k1 me 0 in
    let cd : cpu_at kd me ≡ record (cpu_at k me) {
      regs = (thread k (cpu_at k me).ti_task).regs;
      ti = (cpu_at k me).ti_task;
      ti_task = 0;
    } =
      Lens.cpu_at-set_same k1 me _ h1 ∙ ap (λ (c : CpuDevice). record c { ti_task = 0 }) c1 in
    let in_task : (cpu_at kd me).ti ≡ (cpu_at k me).ti_task = ap (λ (c : CpuDevice). c.ti) cd in
    let idle : (cpu_at kd me).ti_idle ≡ (cpu_at k me).ti =
      ap (λ (c : CpuDevice). c.ti_idle) cd ∙ sym e in
    let no_task : (cpu_at kd me).ti_task ≡ 0 = ap (λ (c : CpuDevice). c.ti_task) cd in
    let (k2, e2, c2, _, _) =
      to_idle kd me (Lens.set_cpu-IsCpu k1 me _ me h1) (ground (arith, in_task, idle, n))
        (omega (arith, idle, h.nonnull)) no_task in
    let regs_back : (thread kd (cpu_at kd me).ti_idle).regs ≡ (cpu_at k me).regs =
      ap (λ x. (thread k1 x).regs) idle ∙ r1 in
    (
      k1,
      k2,
      e1,
      ap (λ (c : CpuDevice). c.regs) c1,
      e2,
      c2 ∙ (λ i. record (cd i) { regs = regs_back i; ti = idle i }),
    )
