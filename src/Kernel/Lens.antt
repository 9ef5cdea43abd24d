-- ===== src/Kernel/Lens.antt =====
-- Reading a thread or a CPU after a write.
use baremetal_crt.Common.{
  ℕ, ◌-◌, ◌≤◌, ◌<◌, ◌≡◌, ◌≢◌, ap, ◌∙◌, none, some, arith, length, length-set, get_or-set, ◌==◌,
  if◌then◌else◌,
}
use baremetal_crt.Kernel.{
  Kernel, ThreadInfo, CpuDevice, thread, set_thread, cpu_at, set_cpu, cpu_of, no_thread,
}

-- A pointer to an entry of the table of threads.
pub record IsThread (k : Kernel) (ti : ℕ) : Type 0 where
  pub nonnull : 0 < ti
  pub within : ti ≤ length k.k_ti

-- A pointer to an entry of the table of CPUs.
pub record IsCpu (k : Kernel) (cpu : ℕ) : Type 0 where
  pub nonnull : 0 < cpu
  pub within : cpu ≤ length k.cpus

pred_eq : (a b : ℕ) → 0 < a → 0 < b → (a - 1 == b - 1) ≡ (a == b)
pred_eq a b p q = ground arith

pub thread-set_thread :
    (k : Kernel) (ti : ℕ) (t : ThreadInfo) (u : ℕ)
    → IsThread k ti
    → 0 < u
    → thread (set_thread k ti t) u ≡ (if ti == u then t else thread k u)
thread-set_thread k ti t u h p =
    get_or-set k.k_ti (ti - 1) t no_thread (u - 1) (omega (arith, h.nonnull, h.within))
    ∙ ap (λ b. if b then t else thread k u) (pred_eq ti u h.nonnull p)

pub cpu_at-set_cpu :
    (k : Kernel) (cpu : ℕ) (c : CpuDevice) (d : ℕ)
    → IsCpu k cpu
    → 0 < d
    → cpu_at (set_cpu k cpu c) d ≡ (if cpu == d then c else cpu_at k d)
cpu_at-set_cpu k cpu c d h p =
    ap cpu_of
      (get_or-set k.cpus (cpu - 1) (some c) none (d - 1) (omega (arith, h.nonnull, h.within)))
    ∙ ground (arith, pred_eq cpu d h.nonnull p)

pub thread-set_same :
    (k : Kernel) (ti : ℕ) (t : ThreadInfo) → IsThread k ti → thread (set_thread k ti t) ti ≡ t
thread-set_same k ti t h = ground (arith, thread-set_thread k ti t ti h h.nonnull)

pub thread-set_other :
    (k : Kernel) (ti : ℕ) (t : ThreadInfo) (u : ℕ)
    → IsThread k ti
    → 0 < u
    → u ≢ ti
    → thread (set_thread k ti t) u ≡ thread k u
thread-set_other k ti t u h p d = ground (arith, thread-set_thread k ti t u h p)

pub cpu_at-set_same :
    (k : Kernel) (cpu : ℕ) (c : CpuDevice) → IsCpu k cpu → cpu_at (set_cpu k cpu c) cpu ≡ c
cpu_at-set_same k cpu c h = ground (arith, cpu_at-set_cpu k cpu c cpu h h.nonnull)

pub cpu_at-set_other :
    (k : Kernel) (cpu : ℕ) (c : CpuDevice) (d : ℕ)
    → IsCpu k cpu
    → 0 < d
    → d ≢ cpu
    → cpu_at (set_cpu k cpu c) d ≡ cpu_at k d
cpu_at-set_other k cpu c d h p n = ground (arith, cpu_at-set_cpu k cpu c d h p)

pub set_thread-IsThread :
    (k : Kernel) (ti : ℕ) (t : ThreadInfo) (u : ℕ) → IsThread k u → IsThread (set_thread k ti t) u
set_thread-IsThread k ti t u h = record {
  nonnull = h.nonnull;
  within = omega (arith, h.within, length-set k.k_ti (ti - 1) t);
}

pub set_cpu-IsCpu :
    (k : Kernel) (cpu : ℕ) (c : CpuDevice) (d : ℕ) → IsCpu k d → IsCpu (set_cpu k cpu c) d
set_cpu-IsCpu k cpu c d h = record {
  nonnull = h.nonnull;
  within = omega (arith, h.within, length-set k.cpus (cpu - 1) (some c));
}
