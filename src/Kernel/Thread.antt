-- ===== src/Kernel/Thread.antt =====
-- sys/thread.c: the table of threads, and what creates, runs, stops and destroys one.
pub mod Table
use baremetal_crt.Common.{
  ℕ, zero, suc, ◌+◌, ◌-◌, ◌/◌, ◌%◌, ◌^◌, Bool, true, false, ◌||◌, Option, none, some, List, [], ◌∷◌,
  length, leb, ltb, ◌==◌, if◌then◌else◌, ◌>>=◌, ltb_ℤ, pos_part, ℤ, pos, ebusy, einval,
}
use baremetal_crt.Arch.{Regs}
use baremetal_crt.Lock.{k_spinlock_lock, k_spinlock_unlock}
use baremetal_crt.Kernel.{Kernel, ProcInfo, ThreadInfo, thread, set_thread, cpu_at, no_thread}
use baremetal_crt.Kernel.Cpu.{k_cpu_set_thread_task}

-- The new state and the pointer to the process, or NULL.
unfoldable pub k_proc_create : Kernel → ℕ × Kernel
k_proc_create k =
    if k.k_pi.avail then (0, k) else (1, record k { k_pi = record (k.k_pi) { avail = true } })

unfoldable pub k_proc_get_current : Kernel → ℕ
k_proc_get_current k = if k.k_pi.avail then 1 else 0

unfoldable pub k_proc_set_leader : Kernel → (ti : ℕ) → ℤ × Kernel
k_proc_set_leader k ti = (pos 0, record k { k_pi = record (k.k_pi) { leader = ti } })

-- The atomic counter is an `int`, as its 32 bits, and wraps.
unfoldable pub alloc_tid : Kernel → ℕ × Kernel
alloc_tid k = (k.uniq_tid, record k { uniq_tid = (k.uniq_tid + 1) % 2 ^ 32 })

unfoldable pub k_thread_get_raw : Kernel → (n : ℤ) → ℕ
k_thread_get_raw k n =
    if ltb_ℤ n (pos 0) || leb (length k.k_ti) (pos_part n) then 0 else pos_part n + 1

-- The loop of `k_thread_create` over the entries from `i` on: the first one that is not `avail`.
unfoldable pub find_slot : List ThreadInfo → (i : ℕ) → ℕ
find_slot [] i = 0
find_slot (t ∷ ts) i = let rest = find_slot ts (i + 1) in if t.avail then rest else i + 1

-- The loop of `k_thread_get` over the entries from `i` on.
unfoldable pub find_tid : List ThreadInfo → (i tid : ℕ) → ℕ
find_tid [] i tid = 0
find_tid (t ∷ ts) i tid = let rest = find_tid ts (i + 1) tid in if t.tid == tid then i + 1 else rest

unfoldable pub k_thread_get : Kernel → (tid : ℕ) → ℕ
unfolding find_tid
k_thread_get k tid = find_tid k.k_ti 0 tid

-- `status |= 1 << b`
abbrev pub set_bit : (b status : ℕ) → ℕ
set_bit b status = if status / 2 ^ b % 2 == 0 then status + 2 ^ b else status

-- `k_arch_riscv_thread_init` (arch/riscv/thread.c): `ctx` is the context that
-- `k_arch_copy_current_context` copies; of its status (word 32) MPP, bits 11 and 12, becomes M, and
-- MPIE, bit 7, is set.
unfoldable pub k_arch_riscv_thread_init : (ctx : Regs) → Regs
k_arch_riscv_thread_init ctx w =
    if w == 32 then set_bit 7 (set_bit 11 (set_bit 12 (ctx 32))) else ctx w

-- The fields that `k_thread_create` writes.
abbrev pub new_thread : (ctx : Regs) → (tid : ℕ) → ThreadInfo → ThreadInfo
new_thread ctx tid t = record t {
  tid = tid;
  avail = true;
  running = false;
  sp = 0;
  ctid = 0;
  ptid = 0;
  regs = k_arch_riscv_thread_init ctx;
}

-- `k_thread_create` under the lock: NULL where no entry is left.
unfoldable pub create_locked : (ctx : Regs) → Kernel → ℕ × Kernel
unfolding find_slot alloc_tid k_arch_riscv_thread_init
create_locked ctx k =
    let ti = find_slot k.k_ti 0 in
    let (tid, k1) = alloc_tid k in
    if ti == 0 then (0, k) else (ti, set_thread k1 ti (new_thread ctx tid (thread k1 ti)))

unfoldable pub k_thread_create : (me : ℕ) → (ctx : Regs) → Kernel → Option (ℕ × Kernel)
unfolding create_locked
k_thread_create me ctx k = do
  l ← k_spinlock_lock (cpu_at k me).id_phys k.k_pi.lock
  let (ti, k1) = create_locked ctx (record k { k_pi = record (k.k_pi) { lock = l } })
  some (ti, record k1 { k_pi = record (k1.k_pi) { lock = k_spinlock_unlock k1.k_pi.lock } })

unfoldable pub k_thread_destroy : Kernel → (ti : ℕ) → ℤ × Kernel
k_thread_destroy k ti =
    if ti == 0
    then (einval, k)
    else if (thread k ti).running
    then (ebusy, k)
    else (pos 0, set_thread k ti (record (thread k ti) { avail = false }))

unfoldable pub k_thread_run : Kernel → (ti cpu : ℕ) → ℤ × Kernel
unfolding k_cpu_set_thread_task
k_thread_run k ti cpu = (
  pos 0,
  k_cpu_set_thread_task (set_thread k ti (record (thread k ti) { running = true; cpu = cpu })) cpu
      ti,
)

unfoldable pub k_thread_stop : Kernel → (ti : ℕ) → ℤ × Kernel
unfolding k_cpu_set_thread_task
k_thread_stop k ti =
    let k1 = k_cpu_set_thread_task k (thread k ti).cpu 0 in
    (pos 0, set_thread k1 ti (record (thread k1 ti) { cpu = 0; running = false }))
