-- ===== src/Kernel/Cpu.antt =====
-- driver/cpu/cpu.c and sys/smp.c: the table of the CPUs, their locks and threads, and the search
-- for a CPU without a task.
use baremetal_crt.Common.{
  ℕ, zero, suc, ◌+◌, ◌-◌, ◌<◌, ◌≤◌, ◌≡◌, refl, inl, inr, Bool-cases, Bool, true, false, ◌||◌,
  Option, none, some, List, [], ◌∷◌, arith, length, get_or, set, leb, ◌==◌, if◌then◌else◌, ◌>>=◌,
  eq_ℤ, ltb_ℤ, pos_part, ℤ, pos, enomem, einval,
}
use native.Mathlib.Nat.{sub_self}
use native.Mathlib.Numerals.{add-one}
use baremetal_crt.Lock.{k_spinlock_lock, k_spinlock_unlock}
use baremetal_crt.Kernel.{Kernel, CpuDevice, cpu_at, set_cpu}

unfoldable pub k_cpu_set_running : Kernel → (cpu : ℕ) → Bool → Kernel
k_cpu_set_running k cpu r = set_cpu k cpu (record (cpu_at k cpu) { running = r })

unfoldable pub k_cpu_set_thread : Kernel → (cpu ti : ℕ) → Kernel
k_cpu_set_thread k cpu ti = set_cpu k cpu (record (cpu_at k cpu) { ti = ti })

unfoldable pub k_cpu_set_thread_task : Kernel → (cpu ti : ℕ) → Kernel
k_cpu_set_thread_task k cpu ti = set_cpu k cpu (record (cpu_at k cpu) { ti_task = ti })

-- The id that the lock stores is that of the CPU that runs.
unfoldable pub k_cpu_lock : (me : ℕ) → Kernel → (cpu : ℕ) → Option Kernel
k_cpu_lock me k cpu = do
  l ← k_spinlock_lock (cpu_at k me).id_phys (cpu_at k cpu).lock
  some (set_cpu k cpu (record (cpu_at k cpu) { lock = l }))

unfoldable pub k_cpu_unlock : Kernel → (cpu : ℕ) → Kernel
k_cpu_unlock k cpu =
    set_cpu k cpu (record (cpu_at k cpu) { lock = k_spinlock_unlock (cpu_at k cpu).lock })

-- The entry of `cpus` as a pointer.
abbrev pub pointer_at : List (Option CpuDevice) → ℕ → ℕ
pointer_at cpus i = elim (get_or cpus i none) [ none ↦ 0 | some _ ↦ i + 1 ]

unfoldable pub k_cpu_get : Kernel → (id : ℤ) → ℕ
k_cpu_get k id =
    if ltb_ℤ id (pos 0) || leb (length k.cpus) (pos_part id)
    then 0
    else pointer_at k.cpus (pos_part id)

unfoldable pub k_cpu_set : Kernel → (id : ℤ) → Option CpuDevice → ℤ × Kernel
k_cpu_set k id none = (einval, k)
k_cpu_set k id (some c) =
    if ltb_ℤ id (pos 0) || leb (length k.cpus) (pos_part id)
    then (einval, k)
    else (pos 0, record k { cpus = set k.cpus (pos_part id) (some c) })

-- The loop of `k_cpu_get_by_physical_id` over the entries from `i` on.
unfoldable pub find_phys : List (Option CpuDevice) → (i : ℕ) → (id_phys : ℤ) → ℕ
find_phys [] i id = 0
find_phys (none ∷ cs) i id = find_phys cs (i + 1) id
find_phys (some c ∷ cs) i id =
    let rest = find_phys cs (i + 1) id in if eq_ℤ c.id_phys id then i + 1 else rest

unfoldable pub k_cpu_get_by_physical_id : Kernel → (id_phys : ℤ) → ℕ
unfolding find_phys
k_cpu_get_by_physical_id k id = find_phys k.cpus 0 id

-- The loop of `k_smp_find_idle_cpu` over the entries from `i` on.
unfoldable pub find_idle : List (Option CpuDevice) → (i : ℕ) → ℕ
find_idle [] i = 0
find_idle (none ∷ cs) i = find_idle cs (i + 1)
find_idle (some c ∷ cs) i =
    let rest = find_idle cs (i + 1) in if c.ti_task == 0 then i + 1 else rest

-- The result, and the CPU that is stored through the pointer (0 where nothing is stored).
unfoldable pub k_smp_find_idle_cpu : Kernel → ℤ × ℕ
unfolding find_idle
k_smp_find_idle_cpu k =
    let cpu = find_idle k.cpus 0 in if cpu == 0 then (enomem, 0) else (pos 0, cpu)

-- An entry with a CPU that has no task.
abbrev pub is_idle : Option CpuDevice → Bool
is_idle none = false
is_idle (some c) = c.ti_task == 0

-- The least idle CPU from entry `i` on, or that there is none.
unfoldable pub FoundIdle : List (Option CpuDevice) → (i cpu : ℕ) → Type 0
FoundIdle cs i zero = (j : ℕ) → is_idle (get_or cs j none) ≡ false
FoundIdle cs i (suc c) =
    (i ≤ c)
    × (is_idle (get_or cs (c - i) none) ≡ true)
    × ((j : ℕ) → j < c - i → is_idle (get_or cs j none) ≡ false)

FoundIdle-cons :
    (c : Option CpuDevice) (cs : List (Option CpuDevice)) (i r : ℕ)
    → is_idle c ≡ false
    → FoundIdle cs (i + 1) r
    → FoundIdle (c ∷ cs) i r
unfolding FoundIdle
FoundIdle-cons c cs i zero e f = go
  where
    go : (j : ℕ) → is_idle (get_or (c ∷ cs) j none) ≡ false
    go zero = e
    go (suc j) = f j
FoundIdle-cons c cs i (suc r) e (a, b, d) = (omega arith, rw q b, go)
  where
    q : r - i ≡ suc (r - (i + 1))
    q = omega arith

    go : (j : ℕ) → j < r - i → is_idle (get_or (c ∷ cs) j none) ≡ false
    go zero l = e
    go (suc j) l = d j (omega arith)

FoundIdle-here :
    (c : Option CpuDevice) (cs : List (Option CpuDevice)) (i : ℕ)
    → is_idle c ≡ true
    → FoundIdle (c ∷ cs) i (i + 1)
unfolding FoundIdle
FoundIdle-here c cs i e = rw add-one (omega arith, rw sub_self e, λ j l. absurd (omega arith))

-- The search gives the first CPU, from the entry it starts at, that has no task, and NULL only where every
-- entry is empty or a CPU with a task.
pub find_idle-FoundIdle : (cs : List (Option CpuDevice)) (i : ℕ) → FoundIdle cs i (find_idle cs i)
unfolding find_idle FoundIdle
find_idle-FoundIdle [] i = λ j. refl
find_idle-FoundIdle (none ∷ cs) i = FoundIdle-cons none cs i _ refl (find_idle-FoundIdle cs (i + 1))
find_idle-FoundIdle (some c ∷ cs) i = elim (Bool-cases (c.ti_task == 0)) [
  | inl e ↦ rw e (FoundIdle-here (some c) cs i e)
  | inr e ↦ rw e (FoundIdle-cons (some c) cs i _ e (find_idle-FoundIdle cs (i + 1)))
]
