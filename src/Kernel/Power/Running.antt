-- ===== src/Kernel/Power/Running.antt =====
-- Which CPUs run after a call for each CPU from a number on.
use baremetal_crt.Common.{
  ℕ, zero, suc, ◌+◌, ◌-◌, ◌≤◌, ◌<◌, ◌≡◌, refl, ap, sym, subst, ◌∙◌, inl, inr, Bool-cases,
  Option-cases, Bool, true, false, ◌&&◌, Option, none, some, arith, length, get_or, get_or-set, set,
  leb, ltb, ◌==◌, if◌then◌else◌, ℤ, pos,
}
use baremetal_crt.Kernel.{Kernel, CpuDevice, cpu_at}
use baremetal_crt.Kernel.Cpu.{k_cpu_get, k_cpu_set_running}
use baremetal_crt.Kernel.Clone.{Machine}
use baremetal_crt.Kernel.Power.{switch_one, switch_from}

-- Whether entry `j` of the table runs; `d` for one without a CPU.
abbrev pub runs_in : (d : Bool) → Option CpuDevice → Bool
runs_in d none = d
runs_in d (some c) = c.running

abbrev pub runs : (d : Bool) → Kernel → (j : ℕ) → Bool
runs d k j = runs_in d (get_or k.cpus j none)

runs_in-if :
    (d t : Bool) (c : CpuDevice) (o : Option CpuDevice)
    → runs_in d (if t then some c else o) ≡ (if t then c.running else runs_in d o)
runs_in-if d true c o = refl
runs_in-if d false c o = refl

pub set_running-runs :
    (d : Bool) (k : Kernel) (i : ℕ) (b : Bool) (j : ℕ)
    → i < length k.cpus
    → runs d (k_cpu_set_running k (i + 1) b) j ≡ (if i == j then b else runs d k j)
unfolding k_cpu_set_running
set_running-runs d k i b j l =
    let c : CpuDevice = record (cpu_at k (i + 1)) { running = b } in
    let back : i + 1 - 1 ≡ i = omega arith in
    let e : get_or (set k.cpus (i + 1 - 1) (some c)) j none
        ≡ (if i == j then some c else get_or k.cpus j none) =
      subst
        (λ m.
          get_or (set k.cpus m (some c)) j none ≡ (if i == j then some c else get_or k.cpus j none))
        (sym back) (get_or-set k.cpus i (some c) none j l) in
    ap (runs_in d) e ∙ runs_in-if d (i == j) c (get_or k.cpus j none)

pub get_present :
    (k : Kernel) (i : ℕ) (c : CpuDevice)
    → i < length k.cpus
    → get_or k.cpus i none ≡ some c
    → k_cpu_get k (pos i) ≡ i + 1
unfolding k_cpu_get
get_present k i c l e = ground (arith, e)

pub get_missing :
    (k : Kernel) (i : ℕ) → i < length k.cpus → get_or k.cpus i none ≡ none → k_cpu_get k (pos i) ≡ 0
unfolding k_cpu_get
get_missing k i l e = ground (arith, e)

-- A call for each CPU that makes `g i` of whether entry `i` runs.
module _ (w : Machine) (me : ℕ) (d : Bool) (op : ℕ → Kernel → ℤ × Kernel) (g : ℕ → Bool → Bool)
    (same : (j : ℕ) → g j d ≡ d)
    (op_runs : (k : Kernel) (i : ℕ)
      → i < length k.cpus
      → (j : ℕ) → runs d (op (i + 1) k).1 j ≡ (if i == j then g i (runs d k i) else runs d k j))
    (op_length : (k : Kernel) (cpu : ℕ) → length (op cpu k).1.cpus ≡ length k.cpus) where
  kept :
      (k : Kernel) (i j : ℕ)
      → get_or k.cpus i none ≡ none
      → runs d k j ≡ (if i == j then g i (runs d k i) else runs d k j)
  kept k i j n = elim (Bool-cases (i == j)) [
    | inl t ↦ let q : i ≡ j = ground (arith, t) in rw (t, sym q) (rw n (sym (same i)))
    | inr t ↦ rw t refl
  ]

  next : ℤ × Kernel → ℕ → ℤ × Kernel
  next s i = switch_one w me op (k_cpu_get s.1 (pos i)) s

  switch_one-present :
      (s : ℤ × Kernel) (cpu : ℕ)
      → (cpu == 0) ≡ false
      → (switch_one w me op cpu s).1 ≡ (op cpu s.1).1
  unfolding switch_one
  switch_one-present (res, k) cpu e = rw e refl

  switch_one-missing : (s : ℤ × Kernel) → (switch_one w me op 0 s).1 ≡ s.1
  unfolding switch_one
  switch_one-missing (res, k) = refl

  switch_one-length :
      (s : ℤ × Kernel) (cpu : ℕ) → length (switch_one w me op cpu s).1.cpus ≡ length s.1.cpus
  switch_one-length s cpu = elim (Bool-cases (cpu == 0)) [
    | inl e ↦ let q : cpu ≡ 0 = ground (arith, e) in rw (q, switch_one-missing s) refl
    | inr e ↦ rw (switch_one-present s cpu e) (op_length s.1 cpu)
  ]

  next-runs :
      (s : ℤ × Kernel) (i : ℕ)
      → i < length s.1.cpus
      → (j : ℕ) → runs d (next s i).1 j ≡ (if i == j then g i (runs d s.1 i) else runs d s.1 j)
  unfolding next
  next-runs s i l j = elim (Option-cases (get_or s.1.cpus i none)) [
    | inl n ↦ rw (get_missing s.1 i l n, switch_one-missing s) (kept s.1 i j n)
    | inr (c, e) ↦
        rw (get_present s.1 i c l e, switch_one-present s (i + 1) (ground arith))
          (op_runs s.1 i l j)
  ]

  window :
      (r : ℕ → Bool) (i n j : ℕ)
      → (if leb (i + 1) j && ltb j (i + 1 + n)
          then g j (if i == j then g i (r i) else r j)
          else (if i == j then g i (r i) else r j))
        ≡ (if leb i j && ltb j (i + suc n) then g j (r j) else r j)
  window r i n j = elim (Bool-cases (i == j)) [
    | inl t ↦
        let q : j ≡ i = ground (arith, t) in
        let a : (leb (i + 1) j && ltb j (i + 1 + n)) ≡ false = ground (arith, t) in
        let b : (leb i j && ltb j (i + suc n)) ≡ true = ground (arith, t) in rw (a, b, t, q) refl
    | inr t ↦
        let a : (leb (i + 1) j && ltb j (i + 1 + n)) ≡ (leb i j && ltb j (i + suc n)) =
          ground (arith, t) in
        rw (a, t) refl
  ]

  pub switch_from-runs :
      (n i : ℕ) (s : ℤ × Kernel)
      → i + n ≤ length s.1.cpus
      → (j : ℕ)
      → runs d (switch_from w me op n i s).1 j
        ≡ (if leb i j && ltb j (i + n) then g j (runs d s.1 j) else runs d s.1 j)
  unfolding switch_from next
  switch_from-runs zero i s l j =
      let e : (leb i j && ltb j (i + 0)) ≡ false = ground arith in rw e refl
  switch_from-runs (suc n) i s l j =
      let long = switch_one-length s (k_cpu_get s.1 (pos i)) in
      let rest = switch_from-runs n (i + 1) (next s i) (omega (arith, long)) j in
      let now = next-runs s i (omega arith) j in rw (rest, now) (window (runs d s.1) i n j)

  pub length-switch_from :
      (n i : ℕ) (s : ℤ × Kernel) → length (switch_from w me op n i s).1.cpus ≡ length s.1.cpus
  unfolding switch_from
  length-switch_from zero i s = refl
  length-switch_from (suc n) i s =
      length-switch_from n (i + 1) (switch_one w me op (k_cpu_get s.1 (pos i)) s)
      ∙ switch_one-length s (k_cpu_get s.1 (pos i))
