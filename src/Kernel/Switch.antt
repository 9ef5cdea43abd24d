-- ===== src/Kernel/Switch.antt =====
-- `k_thread_context_switch` of sys/thread.c: a CPU goes from its idle thread to its task and back.
pub mod Back
use baremetal_crt.Common.{
  ℕ, ◌<◌, ◌≡◌, ◌≢◌, refl, ap, ◌∙◌, Bool, true, false, ◌||◌, Option, none, some, arith, ◌==◌,
  if◌then◌else◌, ◌>>=◌, ℤ, pos,
}
use baremetal_crt.Arch.{Regs}
use baremetal_crt.Kernel.{Kernel, ThreadInfo, CpuDevice, thread, set_thread, cpu_at, set_cpu}
use baremetal_crt.Kernel.Lens
use baremetal_crt.Kernel.Cpu.{k_cpu_set_thread, k_cpu_set_thread_task}
use baremetal_crt.Kernel.Clone.{k_smp_lock, k_smp_unlock}

-- The context of the CPU is saved in its thread where that is the idle one; `none` is a NULL that is
-- written through.
unfoldable pub save_context : (me : ℕ) → Kernel → Option Kernel
save_context me k =
    let ti = (cpu_at k me).ti in
    if ti == (cpu_at k me).ti_idle
    then if ti == 0
      then none
      else some (set_thread k ti (record (thread k ti) { regs = (cpu_at k me).regs }))
    else some k

-- The context of thread `ti` becomes the CPU's, and `ti` its thread.
unfoldable pub load_context : (me ti : ℕ) → Kernel → Option Kernel
unfolding k_cpu_set_thread
load_context me ti k =
    if ti == 0
    then none
    else some
        (k_cpu_set_thread (set_cpu k me (record (cpu_at k me) { regs = (thread k ti).regs })) me ti)

unfoldable pub k_thread_context_switch_nolock : (me : ℕ) → Kernel → Option (ℤ × Kernel)
unfolding save_context load_context
k_thread_context_switch_nolock me k = do
  k1 ← save_context me k
  let c = cpu_at k me
  k2 ← load_context me (if (c.ti == 0) || (c.ti_task == 0) then c.ti_idle else c.ti_task) k1
  some (pos 0, k2)

unfoldable pub k_thread_context_switch : (me : ℕ) → Kernel → Option (ℤ × Kernel)
unfolding k_smp_lock k_smp_unlock k_thread_context_switch_nolock
k_thread_context_switch me k = do
  k1 ← k_smp_lock me k
  (r, k2) ← k_thread_context_switch_nolock me k1
  some (r, k_smp_unlock k2)

module _ (k : Kernel) (me : ℕ) (is_cpu : Lens.IsCpu k me) where
  -- A CPU in a thread that is not its idle one, or has a thread to go to, loads thread `ti`.
  load_context-IsCpu :
      (ti : ℕ)
      → 0 < ti
      → (k' : Kernel) × (load_context me ti k ≡ some k')
        × (cpu_at k' me ≡ record (cpu_at k me) { regs = (thread k ti).regs; ti = ti })
        × ((u : ℕ) → thread k' u ≡ thread k u)
        × Lens.IsCpu k' me
  unfolding load_context k_cpu_set_thread
  load_context-IsCpu ti p =
      let k1 = set_cpu k me (record (cpu_at k me) { regs = (thread k ti).regs }) in
      let h1 =
        Lens.set_cpu-IsCpu k me (record (cpu_at k me) { regs = (thread k ti).regs }) me is_cpu in
      (
        k_cpu_set_thread k1 me ti,
        ground arith,
        Lens.cpu_at-set_same k1 me (record (cpu_at k1 me) { ti = ti }) h1
            ∙ ap (λ (c : CpuDevice). record c { ti = ti })
                (Lens.cpu_at-set_same k me (record (cpu_at k me) { regs = (thread k ti).regs })
                  is_cpu),
        λ u. refl,
        Lens.set_cpu-IsCpu k1 me (record (cpu_at k1 me) { ti = ti }) me h1,
      )

  save_context-IsCpu :
      Lens.IsThread k (cpu_at k me).ti
      → (cpu_at k me).ti ≡ (cpu_at k me).ti_idle
      → (k' : Kernel) × (save_context me k ≡ some k')
        × (cpu_at k' me ≡ cpu_at k me)
        × ((thread k' (cpu_at k me).ti).regs ≡ (cpu_at k me).regs)
        × ((u : ℕ) → 0 < u → u ≢ (cpu_at k me).ti → thread k' u ≡ thread k u)
        × Lens.IsCpu k' me
  unfolding save_context
  save_context-IsCpu h e =
      let ti = (cpu_at k me).ti in
      let t = record (thread k ti) { regs = (cpu_at k me).regs } in
      let p : 0 < ti = h.nonnull in
      (
        set_thread k ti t,
        ground arith,
        refl,
        ap (λ (t : ThreadInfo). t.regs) (Lens.thread-set_same k ti t h),
        λ u p n. Lens.thread-set_other k ti t u h p n,
        record { nonnull = is_cpu.nonnull; within = is_cpu.within },
      )
