-- ===== src/Kernel/Power.antt =====
-- driver/cpu/cpu.c: CPUs are woken and put to sleep, one or all of them.
pub mod Running
pub mod All
use baremetal_crt.Common.{
  ℕ, zero, suc, ◌+◌, ◌-◌, Bool, true, false, length, ◌==◌, if◌then◌else◌, is_nonzero, ℤ, pos,
  enomem,
}
use baremetal_crt.Kernel.{Kernel}
use baremetal_crt.Kernel.Cpu.{k_cpu_get, k_cpu_set_running}
use baremetal_crt.Kernel.Clone.{Machine, k_cpu_raise_ipi}

-- What the driver's `wakeup` and `sleep` answer for a CPU; an operation that is missing is as one that
-- answers 0.
pub record PowerDriver : Type 0 where
  pub wakeup : (cpu : ℕ) → ℤ
  pub sleep : (cpu : ℕ) → ℤ

unfoldable pub k_cpu_wakeup : PowerDriver → (cpu : ℕ) → Kernel → ℤ × Kernel
unfolding k_cpu_set_running
k_cpu_wakeup p cpu k = (p.wakeup cpu, k_cpu_set_running k cpu true)

unfoldable pub k_cpu_sleep : PowerDriver → (cpu : ℕ) → Kernel → ℤ × Kernel
unfolding k_cpu_set_running
k_cpu_sleep p cpu k =
    if is_nonzero (p.sleep cpu) then (p.sleep cpu, k) else (pos 0, k_cpu_set_running k cpu false)

-- `if (r) res = r;`
abbrev pub keep_error : (r res : ℤ) → ℤ
keep_error r res = if is_nonzero r then r else res

-- The body of the loop that is common to `k_cpu_wakeup_all` and `k_cpu_sleep_all`, for a call `op`.
unfoldable pub switch_one :
    Machine → (me : ℕ) → (op : ℕ → Kernel → ℤ × Kernel) → (cpu : ℕ) → ℤ × Kernel → ℤ × Kernel
unfolding k_cpu_raise_ipi
switch_one w me op cpu (res, k) =
    let (r, k1) = op cpu k in
    if cpu == 0 then (res, k) else (keep_error (k_cpu_raise_ipi w me cpu) (keep_error r res), k1)

-- The loop over `left` CPUs from number `i` on.
unfoldable pub switch_from :
    Machine → (me : ℕ) → (op : ℕ → Kernel → ℤ × Kernel) → (left i : ℕ) → ℤ × Kernel → ℤ × Kernel
switch_from w me op zero i s = s
switch_from w me op (suc n) i s =
    switch_from w me op n (i + 1) (switch_one w me op (k_cpu_get (s.1) (pos i)) s)

unfoldable pub k_cpu_wakeup_all : PowerDriver → Machine → (me : ℕ) → Kernel → ℤ × Kernel
unfolding switch_from
k_cpu_wakeup_all p w me k =
    let cpu = k_cpu_get k (pos 0) in
    if cpu == 0
    then (enomem, k)
    else switch_from w me (k_cpu_wakeup p) (length k.cpus - 1) 1
        (pos 0, k_cpu_set_running k cpu true)

-- The end of `k_cpu_sleep_all`: CPU 0 is stopped where the table has it.
abbrev pub stop_first : ℤ × Kernel → ℤ × Kernel
stop_first s =
    let cpu = k_cpu_get s.1 (pos 0) in
    if cpu == 0 then (enomem, s.1) else (s.0, k_cpu_set_running s.1 cpu false)

unfoldable pub k_cpu_sleep_all : PowerDriver → Machine → (me : ℕ) → Kernel → ℤ × Kernel
unfolding switch_from
k_cpu_sleep_all p w me k =
    stop_first (switch_from w me (k_cpu_sleep p) (length k.cpus - 1) 1 (pos 0, k))
