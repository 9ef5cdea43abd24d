-- ===== src/Kernel/Power/All.antt =====
-- Which CPUs run after all of them have been woken or put to sleep.
use baremetal_crt.Common.{
  ℕ, ◌+◌, ◌-◌, ◌<◌, ◌≡◌, refl, sym, ◌∙◌, inl, inr, Bool-cases, Option-cases, Bool, true, false,
  ◌&&◌, none, some, arith, length, length-set, get_or, leb, ltb, ◌==◌, if◌then◌else◌, is_nonzero, ℤ,
  pos,
}
use baremetal_crt.Kernel.{Kernel, CpuDevice, cpu_at}
use baremetal_crt.Kernel.Cpu.{k_cpu_get, k_cpu_set_running}
use baremetal_crt.Kernel.Clone.{Machine}
use baremetal_crt.Kernel.Power.Running.{
  runs, set_running-runs, get_present, get_missing, switch_from-runs, length-switch_from,
}
use baremetal_crt.Kernel.Power.{
  stop_first, PowerDriver, k_cpu_wakeup, k_cpu_sleep, switch_from, k_cpu_wakeup_all,
  k_cpu_sleep_all,
}

length-set_running :
    (k : Kernel) (cpu : ℕ) (b : Bool) → length (k_cpu_set_running k cpu b).cpus ≡ length k.cpus
unfolding k_cpu_set_running
length-set_running k cpu b =
    length-set k.cpus (cpu - 1) (some (record (cpu_at k cpu) { running = b }))

wakeup-runs :
    (p : PowerDriver) (k : Kernel) (i : ℕ)
    → i < length k.cpus
    → (j : ℕ) → runs true (k_cpu_wakeup p (i + 1) k).1 j ≡ (if i == j then true else runs true k j)
unfolding k_cpu_wakeup
wakeup-runs p k i l j = set_running-runs true k i true j l

length-wakeup :
    (p : PowerDriver) (k : Kernel) (cpu : ℕ) → length (k_cpu_wakeup p cpu k).1.cpus ≡ length k.cpus
unfolding k_cpu_wakeup
length-wakeup p k cpu = length-set_running k cpu true

-- Where the table has CPU 0, every CPU of the table runs after `k_cpu_wakeup_all`, whatever the
-- drivers answer.
pub k_cpu_wakeup_all-runs :
    (p : PowerDriver) (w : Machine) (me : ℕ) (k : Kernel) (c : CpuDevice) (j : ℕ)
    → get_or k.cpus 0 none ≡ some c
    → j < length k.cpus
    → runs true (k_cpu_wakeup_all p w me k).1 j ≡ true
unfolding k_cpu_wakeup_all
k_cpu_wakeup_all-runs p w me k c j e l =
    let n = length k.cpus - 1 in
    let k0 = k_cpu_set_running k 1 true in
    let first = set_running-runs true k 0 true j (omega arith) in
    let long = length-set_running k 1 true in
    let all =
      switch_from-runs w me true (k_cpu_wakeup p) (λ _ _. true) (λ _. refl) (wakeup-runs p)
        (length-wakeup p) n 1 (pos 0, k0) (omega (arith, long)) j in
    let here : k_cpu_get k (pos 0) ≡ 1 = get_present k 0 c (omega arith) e in
    let rest : (if leb 1 j && ltb j (1 + n) then true else runs true k0 j) ≡ true =
      elim (Bool-cases (0 == j)) [
        | inl t ↦ rw (first, t) (ground arith)
        | inr t ↦ let q : (leb 1 j && ltb j (1 + n)) ≡ true = ground (arith, t) in rw q refl
      ] in
    rw here (all ∙ rest)

-- What an entry runs once the driver was asked to put it to sleep: it goes on if the driver refuses.
abbrev pub stays : PowerDriver → (j : ℕ) → Bool → Bool
stays p j b = if is_nonzero (p.sleep (j + 1)) then b else false

stays-same : (p : PowerDriver) (j : ℕ) → stays p j false ≡ false
stays-same p j = elim (Bool-cases (is_nonzero (p.sleep (j + 1)))) [
  | inl e ↦ rw e refl
  | inr e ↦ rw e refl
]

sleep-runs :
    (p : PowerDriver) (k : Kernel) (i : ℕ)
    → i < length k.cpus
    → (j : ℕ)
    → runs false (k_cpu_sleep p (i + 1) k).1 j
      ≡ (if i == j then stays p i (runs false k i) else runs false k j)
unfolding k_cpu_sleep
sleep-runs p k i l j = elim (Bool-cases (is_nonzero (p.sleep (i + 1)))) [
  | inl e ↦ rw e (elim (Bool-cases (i == j)) [
    | inl t ↦ let q : i ≡ j = ground (arith, t) in rw (t, q) refl
    | inr t ↦ rw t refl
  ])
  | inr e ↦ rw e (set_running-runs false k i false j l)
]

length-sleep :
    (p : PowerDriver) (k : Kernel) (cpu : ℕ) → length (k_cpu_sleep p cpu k).1.cpus ≡ length k.cpus
unfolding k_cpu_sleep
length-sleep p k cpu = elim (Bool-cases (is_nonzero (p.sleep cpu))) [
  | inl e ↦ rw e refl
  | inr e ↦ rw e (length-set_running k cpu false)
]

stop_first-runs :
    (s : ℤ × Kernel) (j : ℕ)
    → 0 < length s.1.cpus
    → runs false (stop_first s).1 j ≡ (if j == 0 then false else runs false s.1 j)
stop_first-runs s j l = elim (Option-cases (get_or s.1.cpus 0 none)) [
  | inl n ↦ rw (get_missing s.1 0 l n) (elim (Bool-cases (j == 0)) [
    | inl t ↦ let q : j ≡ 0 = ground (arith, t) in rw (q, n) refl
    | inr t ↦ rw t refl
  ])
  | inr (c, e) ↦
      let q : (0 == j) ≡ (j == 0) = ground arith in
      rw (get_present s.1 0 c l e, sym q) (set_running-runs false s.1 0 false j l)
]

-- After `k_cpu_sleep_all` CPU 0 does not run, and any other CPU of the table runs only if it ran before
-- and its driver refused to put it to sleep.
pub k_cpu_sleep_all-runs :
    (p : PowerDriver) (w : Machine) (me : ℕ) (k : Kernel) (j : ℕ)
    → j < length k.cpus
    → runs false (k_cpu_sleep_all p w me k).1 j
      ≡ (if j == 0 then false else stays p j (runs false k j))
unfolding k_cpu_sleep_all
k_cpu_sleep_all-runs p w me k j l =
    let n = length k.cpus - 1 in
    let s = switch_from w me (k_cpu_sleep p) n 1 (pos 0, k) in
    let all =
      switch_from-runs w me false (k_cpu_sleep p) (stays p) (stays-same p) (sleep-runs p)
        (length-sleep p) n 1 (pos 0, k) (omega arith) j in
    let long =
      length-switch_from w me false (k_cpu_sleep p) (stays p) (stays-same p) (sleep-runs p)
        (length-sleep p) n 1 (pos 0, k) in
    stop_first-runs s j (omega (arith, long)) ∙ elim (Bool-cases (j == 0)) [
      | inl t ↦ rw t refl
      | inr t ↦ let q : (leb 1 j && ltb j (1 + n)) ≡ true = ground (arith, t) in rw (t, all, q) refl
    ]
