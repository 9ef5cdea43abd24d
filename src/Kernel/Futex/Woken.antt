-- ===== src/Kernel/Futex/Woken.antt =====
-- Changes of one CPU of the table, and the CPUs that a wake reaches.
use baremetal_crt.Common.{
  ℕ, zero, suc, ◌+◌, ◌-◌, ◌<◌, ◌≡◌, ◌≢◌, refl, ◌∙◌, Bool, true, false, not, ◌&&◌, List, Option,
  none, some, arith, length, length-set, get_or, ◌==◌, ltb, if◌then◌else◌,
}
use baremetal_crt.Lock.{released}
use baremetal_crt.Kernel.{Kernel, CpuDevice, cpu_at, cpu_of, set_cpu}
use baremetal_crt.Kernel.Lens
use baremetal_crt.Kernel.Futex.{waits, woken}

-- All the CPUs' locks are free.
abbrev pub IsFree : Kernel → Type 0
IsFree k = (d : ℕ) → 0 < d → (cpu_at k d).lock ≡ released

-- CPU `cpu` is now `c`, and all others are as they were.
pub record Only (k : Kernel) (cpu : ℕ) (c : CpuDevice) (k' : Kernel) : Type 0 where
  pub at : cpu_at k' cpu ≡ c
  pub others : (d : ℕ) → 0 < d → d ≢ cpu → cpu_at k' d ≡ cpu_at k d
  pub same_length : length k'.cpus ≡ length k.cpus

pub Only-set_cpu :
    {k k1 : Kernel} {cpu : ℕ} {c : CpuDevice} (c' : CpuDevice)
    → Lens.IsCpu k cpu
    → Only k cpu c k1
    → Only k cpu c' (set_cpu k1 cpu c')
Only-set_cpu {k} {k1} {cpu} c' h o =
    let h1 : Lens.IsCpu k1 cpu = record {
      nonnull = h.nonnull;
      within = omega (arith, h.within, o.same_length);
    } in
    record {
      at = Lens.cpu_at-set_same k1 cpu c' h1;
      others = λ d p n. Lens.cpu_at-set_other k1 cpu c' d h1 p n ∙ o.others d p n;
      same_length = length-set k1.cpus (cpu - 1) (some c') ∙ o.same_length;
    }

-- Entry `i` of the table is a CPU but the waking one, which waits at the address for one of the bits.
abbrev pub is_waiting : (me uaddr bitset i : ℕ) → Option CpuDevice → Bool
is_waiting me uaddr bitset i none = false
is_waiting me uaddr bitset i (some c) = not (i + 1 == me) && waits uaddr bitset c

abbrev pub waiting_at : (me uaddr bitset : ℕ) → List (Option CpuDevice) → (i : ℕ) → Bool
waiting_at me uaddr bitset cpus i = is_waiting me uaddr bitset i (get_or cpus i none)

-- How many of the `n` entries from number `i` on wait.
abbrev pub count_waiting : (me uaddr bitset : ℕ) → List (Option CpuDevice) → (i n : ℕ) → ℕ
count_waiting me uaddr bitset cpus i zero = 0
count_waiting me uaddr bitset cpus i (suc n) =
    (if waiting_at me uaddr bitset cpus i then 1 else 0)
    + count_waiting me uaddr bitset cpus (i + 1) n

-- The entry with the flag set where `b` holds, and as it was otherwise.
abbrev pub woken_if : Bool → Option CpuDevice → Option CpuDevice
woken_if b none = none
woken_if true (some c) = some (woken c)
woken_if false (some c) = some c

-- In `k'` the flag of a CPU is set where it waits and fewer than `v` entries before it do, and nothing else has
-- changed since `k`.
pub record Woken (me uaddr bitset v : ℕ) (k k' : Kernel) : Type 0 where
  pub same_rest : k' ≡ record k { cpus = k'.cpus }
  pub same_length : length k'.cpus ≡ length k.cpus
  pub entries :
      (j : ℕ)
      → get_or k'.cpus j none
        ≡ woken_if
            (waiting_at me uaddr bitset k.cpus j
              && ltb (count_waiting me uaddr bitset k.cpus 0 j) v)
            (get_or k.cpus j none)

pub woken_if-false : (o : Option CpuDevice) → woken_if false o ≡ o
woken_if-false none = refl
woken_if-false (some c) = refl

pub woken_if-lock :
    (b : Bool) (o : Option CpuDevice) → (cpu_of (woken_if b o)).lock ≡ (cpu_of o).lock
woken_if-lock b none = refl
woken_if-lock true (some c) = refl
woken_if-lock false (some c) = refl
