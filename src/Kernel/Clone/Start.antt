-- ===== src/Kernel/Clone/Start.antt =====
-- The end of `k_thread_clone`: a thread that runs, or all that was done for it taken back.
use baremetal_crt.Common.{
  to_int, ℕ, ◌<◌, ◌≡◌, ◌≢◌, refl, ap, ◌∙◌, ◌⊎◌, inl, inr, true, false, Bool-cases, arith, ◌==◌, pos,
  is_nonzero,
}
use baremetal_crt.Kernel.{Kernel, ThreadInfo, CpuDevice, thread, cpu_at}
use baremetal_crt.Kernel.Lens
use baremetal_crt.Kernel.Cpu.{k_cpu_set_thread_task}
use baremetal_crt.Kernel.Thread.{k_thread_run, k_thread_stop, k_thread_destroy}
use baremetal_crt.Kernel.Clone.{Machine, k_cpu_raise_ipi, start_thread}

-- Thread `ti` is now `t` and CPU `cpu` is `c`; all others are as they were.
pub record Changed (k : Kernel) (ti : ℕ) (t : ThreadInfo) (cpu : ℕ) (c : CpuDevice) (k' : Kernel)
    : Type 0 where
  pub thread_is : thread k' ti ≡ t
  pub cpu_is : cpu_at k' cpu ≡ c
  pub other_threads : (u : ℕ) → 0 < u → u ≢ ti → thread k' u ≡ thread k u
  pub other_cpus : (d : ℕ) → 0 < d → d ≢ cpu → cpu_at k' d ≡ cpu_at k d

pub Changed-trans :
    {k k1 k2 : Kernel} {ti cpu : ℕ} {t t' : ThreadInfo} {c c' : CpuDevice}
    → Changed k ti t cpu c k1
    → Changed k1 ti t' cpu c' k2
    → Changed k ti t' cpu c' k2
Changed-trans a b = record {
  thread_is = b.thread_is;
  cpu_is = b.cpu_is;
  other_threads = λ u p n. b.other_threads u p n ∙ a.other_threads u p n;
  other_cpus = λ d p n. b.other_cpus d p n ∙ a.other_cpus d p n;
}

pub Changed-eq :
    {k k' : Kernel} {ti cpu : ℕ} {t t' : ThreadInfo} {c c' : CpuDevice}
    → Changed k ti t cpu c k'
    → t ≡ t'
    → c ≡ c'
    → Changed k ti t' cpu c' k'
Changed-eq a p q = record {
  thread_is = a.thread_is ∙ p;
  cpu_is = a.cpu_is ∙ q;
  other_threads = a.other_threads;
  other_cpus = a.other_cpus;
}

nonzero : (n : ℕ) → 0 < n → (n == 0) ≡ false
nonzero n h = ground arith

module _ (k : Kernel) (ti cpu : ℕ) (is_thread : Lens.IsThread k ti)
    (is_cpu : Lens.IsCpu k cpu) where
  run-Changed :
      Changed k ti
        (record (thread k ti) { running = true; cpu = cpu })
        cpu
        (record (cpu_at k cpu) { ti_task = ti })
        (k_thread_run k ti cpu).1
  unfolding k_thread_run k_cpu_set_thread_task
  run-Changed = record {
    thread_is = Lens.thread-set_same k ti _ is_thread;
    cpu_is = Lens.cpu_at-set_same k cpu _ is_cpu;
    other_threads = λ u p n. Lens.thread-set_other k ti _ u is_thread p n;
    other_cpus = λ d p n. Lens.cpu_at-set_other k cpu _ d is_cpu p n;
  }

  pub stop-Changed :
      (thread k ti).cpu ≡ cpu
      → Changed k ti
          (record (thread k ti) { running = false; cpu = 0 })
          cpu
          (record (cpu_at k cpu) { ti_task = 0 })
          (k_thread_stop k ti).1
  unfolding k_thread_stop k_cpu_set_thread_task
  stop-Changed e = rw e (record {
    thread_is = Lens.thread-set_same k ti _ is_thread;
    cpu_is = Lens.cpu_at-set_same k cpu _ is_cpu;
    other_threads = λ u p n. Lens.thread-set_other k ti _ u is_thread p n;
    other_cpus = λ d p n. Lens.cpu_at-set_other k cpu _ d is_cpu p n;
  })

  pub destroy-Changed :
      (thread k ti).running ≡ false
      → Changed k ti
          (record (thread k ti) { avail = false })
          cpu
          (cpu_at k cpu)
          (k_thread_destroy k ti).1
  unfolding k_thread_destroy
  destroy-Changed e =
      let z = is_thread.nonnull in
      rw (nonzero ti z) (
        rw e (record {
          thread_is = Lens.thread-set_same k ti _ is_thread;
          cpu_is = refl;
          other_threads = λ u p n. Lens.thread-set_other k ti _ u is_thread p n;
          other_cpus = λ d p n. refl;
        }))

  run_ok : (k_thread_run k ti cpu).0 ≡ pos 0
  unfolding k_thread_run
  run_ok = refl

  run-IsThread : Lens.IsThread (k_thread_run k ti cpu).1 ti
  unfolding k_thread_run k_cpu_set_thread_task
  run-IsThread = record {
    nonnull = is_thread.nonnull;
    within = (Lens.set_thread-IsThread k ti _ ti is_thread).within;
  }

  run-IsCpu : Lens.IsCpu (k_thread_run k ti cpu).1 cpu
  unfolding k_thread_run k_cpu_set_thread_task
  run-IsCpu = record {
    nonnull = is_cpu.nonnull;
    within = (Lens.set_cpu-IsCpu k cpu _ cpu is_cpu).within;
  }

  pub stop-IsThread : Lens.IsThread (k_thread_stop k ti).1 ti
  unfolding k_thread_stop k_cpu_set_thread_task
  stop-IsThread = record {
    nonnull = is_thread.nonnull;
    within = (Lens.set_thread-IsThread k ti _ ti is_thread).within;
  }

  pub stop-IsCpu : (thread k ti).cpu ≡ cpu → Lens.IsCpu (k_thread_stop k ti).1 cpu
  unfolding k_thread_stop k_cpu_set_thread_task
  stop-IsCpu e =
      rw e (record {
        nonnull = is_cpu.nonnull;
        within = (Lens.set_cpu-IsCpu k cpu _ cpu is_cpu).within;
      })

module _ (k : Kernel) (ti cpu : ℕ) (is_thread : Lens.IsThread k ti)
    (is_cpu : Lens.IsCpu k cpu) where
  -- The state after the way back from `err_out3`.
  abbrev back : Kernel
  back = (k_thread_destroy (k_thread_stop (k_thread_run k ti cpu).1 ti).1 ti).1

  back-Changed :
      Changed k ti
        (record (thread k ti) { avail = false; running = false; cpu = 0 })
        cpu
        (record (cpu_at k cpu) { ti_task = 0 })
        back
  back-Changed =
      let a = run-Changed k ti cpu is_thread is_cpu in
      let k1 : Kernel = (k_thread_run k ti cpu).1 in
      let k2 : Kernel = (k_thread_stop k1 ti).1 in
      let on : (thread k1 ti).cpu ≡ cpu = ap (λ (t : ThreadInfo). t.cpu) a.thread_is in
      let th1 = run-IsThread k ti cpu is_thread is_cpu in
      let cp1 = run-IsCpu k ti cpu is_thread is_cpu in
      let b = stop-Changed k1 ti cpu th1 cp1 on in
      let off : (thread k2 ti).running ≡ false = ap (λ (t : ThreadInfo). t.running) b.thread_is in
      let th2 = stop-IsThread k1 ti cpu th1 cp1 in
      let cp2 = stop-IsCpu k1 ti cpu th1 cp1 on in
      Changed-eq (Changed-trans (Changed-trans a b) (destroy-Changed k2 ti cpu th2 cp2 off))
        (ap (λ (t : ThreadInfo). record t { avail = false })
          (b.thread_is
            ∙ ap (λ (t : ThreadInfo). record t { running = false; cpu = 0 }) a.thread_is))
        (b.cpu_is ∙ ap (λ (c : CpuDevice). record c { ti_task = 0 }) a.cpu_is)

  -- What the end of `k_thread_clone` does with a new thread and an idle CPU.
  -- Where the interrupt is raised the thread runs on the CPU, which has it as its task, and its id is the
  -- result. Where it cannot be raised the error is the result, the thread is free again and the CPU has
  -- no task. No other thread and no other CPU changes.
  pub start_thread-outcome :
      (w : Machine) (me : ℕ)
      → ((k' : Kernel) × (is_nonzero (k_cpu_raise_ipi w me cpu) ≡ false)
          × (start_thread w me cpu ti k ≡ (to_int (thread k ti).tid, k'))
          × Changed k ti
              (record (thread k ti) { running = true; cpu = cpu })
              cpu
              (record (cpu_at k cpu) { ti_task = ti })
              k')
        ⊎ ((k' : Kernel) × (is_nonzero (k_cpu_raise_ipi w me cpu) ≡ true)
            × (start_thread w me cpu ti k ≡ (k_cpu_raise_ipi w me cpu, k'))
            × Changed k ti
                (record (thread k ti) { avail = false; running = false; cpu = 0 })
                cpu
                (record (cpu_at k cpu) { ti_task = 0 })
                k')
  unfolding start_thread
  start_thread-outcome w me =
      let k1 : Kernel = (k_thread_run k ti cpu).1 in
      let a = run-Changed k ti cpu is_thread is_cpu in
      let e_cpu : (thread k1 ti).cpu ≡ cpu = ap (λ (t : ThreadInfo). t.cpu) a.thread_is in
      elim (Bool-cases (is_nonzero (k_cpu_raise_ipi w me cpu))) [
        | inl e ↦ inr (back, e, rw (run_ok k ti cpu is_thread is_cpu, e_cpu, e) refl, back-Changed)
        | inr e ↦ inl (
          k1,
          e,
          rw (run_ok k ti cpu is_thread is_cpu, e_cpu, e)
              (rw (ap (λ (t : ThreadInfo). t.tid) a.thread_is) refl),
          a,
        )
      ]
