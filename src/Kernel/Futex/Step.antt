-- ===== src/Kernel/Futex/Step.antt =====
-- The body of the loop of `k_cpu_futex_wake`, on the table of the CPUs.
use baremetal_crt.Common.{
  ℕ, zero, suc, ◌+◌, ◌-◌, ◌<◌, ◌≡◌, ◌≢◌, refl, ap, ◌∙◌, sym, inl, inr, Bool, true, false,
  Bool-cases, ◌&&◌, Option, none, some, arith, length, length-set, List, [], ◌∷◌, get_or, set,
  get_or-set, Option-cases, ◌==◌, leb, ltb, ltb_ℤ, is_nonzero, ◌+ℤ◌, pos, if◌then◌else◌,
}
use baremetal_crt.Lock.{held_by}
use baremetal_crt.Kernel.{Kernel, CpuDevice, cpu_at, cpu_of, set_cpu}
use baremetal_crt.Kernel.Lens
use baremetal_crt.Kernel.Cpu.{k_cpu_unlock, k_cpu_get, pointer_at}
use baremetal_crt.Kernel.Clone.{Machine, k_cpu_raise_ipi}
use baremetal_crt.Kernel.Futex.{waits, woken, wake_one}
use baremetal_crt.Kernel.Futex.Woken.{
  IsFree, waiting_at, is_waiting, count_waiting, woken_if, woken_if-false,
}
use baremetal_crt.Kernel.Futex.Locked.{set_cpu-set_cpu, lock-set_cpu, unlock-set_cpu}

get_or-inside {ℓ} :
    {A : Type ℓ} (xs : List (Option A)) (i : ℕ) (c : A) → get_or xs i none ≡ some c → i < length xs
get_or-inside [] i c e = absurd (cc e)
get_or-inside (x ∷ xs) zero c e = omega arith
get_or-inside (x ∷ xs) (suc i) c e = omega (arith, get_or-inside xs i c e)

add_one : (m : ℕ) → pos m +ℤ pos 1 ≡ pos (m + 1)
unfolding ◌+ℤ◌
add_one m = ground arith

k_cpu_get-some :
    (k : Kernel) (i : ℕ) (c : CpuDevice)
    → get_or k.cpus i none ≡ some c
    → k_cpu_get k (pos i) ≡ i + 1
unfolding k_cpu_get
k_cpu_get-some k i c z =
    let l = get_or-inside k.cpus i c z in
    let e : leb (length k.cpus) i ≡ false = ground (arith, l) in
    let up : ltb_ℤ (pos i) (pos 0) ≡ false = ground arith in
    rw (e, up) (ap (λ (o : Option CpuDevice). elim o [ none ↦ 0 | some _ ↦ i + 1 ]) z)

k_cpu_get-none : (k : Kernel) (i : ℕ) → get_or k.cpus i none ≡ none → k_cpu_get k (pos i) ≡ 0
unfolding k_cpu_get
k_cpu_get-none k i z =
    let p : pointer_at k.cpus i ≡ 0 =
      ap (λ (o : Option CpuDevice). elim o [ none ↦ 0 | some _ ↦ i + 1 ]) z in
    ground (arith, p)

the_index : (i : ℕ) → i + 1 - 1 ≡ i
the_index i = omega arith

differ : (i j : ℕ) → j ≢ i → (i == j) ≡ false
differ i j d = ground arith

woken_if-some : (b : Bool) (c : CpuDevice) → some (if b then woken c else c) ≡ woken_if b (some c)
woken_if-some true c = refl
woken_if-some false c = refl

pub both_false : (a b : Bool) → b ≡ false → false ≡ (a && b)
both_false true b e = sym e
both_false false b e = refl

module _ (me uaddr bitset : ℕ) where
  -- The table after the body of the loop for entry `i`.
  abbrev pub AfterRound : List (Option CpuDevice) → (i : ℕ) → List (Option CpuDevice) → Type 0
  AfterRound cpus i ys =
      (length ys ≡ length cpus)
      × ((j : ℕ)
          → get_or ys j none
            ≡ woken_if ((i == j) && waiting_at me uaddr bitset cpus i) (get_or cpus j none))

  untouched :
      (cpus : List (Option CpuDevice)) (i : ℕ)
      → waiting_at me uaddr bitset cpus i ≡ false
      → AfterRound cpus i cpus
  untouched cpus i z = (
    refl,
    λ j.
        sym (woken_if-false (get_or cpus j none))
        ∙ ap (λ b. woken_if b (get_or cpus j none))
            (both_false (i == j) (waiting_at me uaddr bitset cpus i) z),
  )

  touched :
      (cpus : List (Option CpuDevice)) (i : ℕ) (c : CpuDevice)
      → get_or cpus i none ≡ some c
      → (b : Bool) → waiting_at me uaddr bitset cpus i ≡ b
      → AfterRound cpus i (set cpus i (some (if b then woken c else c)))
  touched cpus i c z b e = (
    length-set cpus i (some (if b then woken c else c)),
    λ j.
        get_or-set cpus i (some (if b then woken c else c)) none j (get_or-inside cpus i c z)
        ∙ elim (Bool-cases (i == j)) [
          | inl q ↦
              let s : i ≡ j = ground (arith, q) in
              let at : get_or cpus j none ≡ some c = ap (λ t. get_or cpus t none) (sym s) ∙ z in
              rw (q, e, at) (woken_if-some b c)
          | inr q ↦ rw (q) (sym (woken_if-false (get_or cpus j none)))
        ],
  )

  pub kept :
      (cpus ys : List (Option CpuDevice)) (i : ℕ)
      → AfterRound cpus i ys
      → (j : ℕ) → j ≢ i
      → get_or ys j none ≡ get_or cpus j none
  kept cpus ys i (len, each) j d =
      each j
      ∙ ap (λ b. woken_if (b && waiting_at me uaddr bitset cpus i) (get_or cpus j none))
          (differ i j d)
      ∙ woken_if-false (get_or cpus j none)

  -- The entries behind `i` are as before its round.
  pub count_after :
      (cpus ys : List (Option CpuDevice)) (i n : ℕ)
      → ((a : ℕ) → get_or ys (i + a) none ≡ get_or cpus (i + a) none)
      → count_waiting me uaddr bitset ys i n ≡ count_waiting me uaddr bitset cpus i n
  count_after cpus ys i zero f = refl
  count_after cpus ys i (suc n) f =
      let first : get_or ys i none ≡ get_or cpus i none =
        ap (λ t. get_or ys t none) (omega arith)
        ∙ f 0
        ∙ ap (λ t. get_or cpus t none) (omega arith) in
      let rest = count_after cpus ys (i + 1) n (λ a.
        ap (λ t. get_or ys t none) (omega arith)
        ∙ f (a + 1)
        ∙ ap (λ t. get_or cpus t none) (omega arith)) in
      rw (rest) (
        ap
          (λ (o : Option CpuDevice).
            (if is_waiting me uaddr bitset i o then 1 else 0)
            + count_waiting me uaddr bitset cpus (i + 1) n)
          first)

  pub in_table :
      (cpus : List (Option CpuDevice)) (j v : ℕ)
      → (waiting_at me uaddr bitset cpus j
          && (ltb j (length cpus) && ltb (0 + count_waiting me uaddr bitset cpus 0 j) v))
        ≡ (waiting_at me uaddr bitset cpus j && ltb (count_waiting me uaddr bitset cpus 0 j) v)
  in_table cpus j v = elim (Option-cases (get_or cpus j none)) [
    | inl z ↦
        let e : waiting_at me uaddr bitset cpus j ≡ false = ap (is_waiting me uaddr bitset j) z in
        rw e refl
    | inr (c, z) ↦
        let l = get_or-inside cpus j c z in
        let e : ltb j (length cpus) ≡ true = ground (arith, l) in rw e (ground arith)
  ]

module _ (w : Machine) (me uaddr bitset : ℕ)
    (raised : (cpu : ℕ) → is_nonzero (k_cpu_raise_ipi w me cpu) ≡ false) where
  -- The body of the loop for another CPU.
  wake_one-set_cpu :
      (cpu m : ℕ) (k : Kernel)
      → IsFree k
      → Lens.IsCpu k cpu
      → (cpu == me) ≡ false
      → let b = waits uaddr bitset (cpu_at k cpu) in
        wake_one w me uaddr bitset cpu (pos m) k
        ≡ some (
          pos (m + (if b then 1 else 0)),
          set_cpu k cpu (if b then woken (cpu_at k cpu) else cpu_at k cpu),
        )
  unfolding wake_one
  wake_one-set_cpu cpu m k free h other =
      let id = (cpu_at k me).id_phys in
      let c = cpu_at k cpu in
      let held = record c { lock = held_by id } in
      let some_cpu : (cpu == 0) ≡ false = ground (arith, h.nonnull) in
      let read : cpu_at (set_cpu k cpu held) cpu ≡ held = Lens.cpu_at-set_same k cpu held h in
      elim (Bool-cases (waits uaddr bitset c)) [
        | inl v ↦
            rw (some_cpu, other, lock-set_cpu me cpu k free h.nonnull, read, v, raised cpu)
              (ap (λ t. some (t, k_cpu_unlock (set_cpu (set_cpu k cpu held) cpu (woken held)) cpu))
                  (add_one m)
                ∙ ap (λ t. some (pos (m + 1), k_cpu_unlock t cpu))
                    (set_cpu-set_cpu k cpu held (woken held))
                ∙ ap (λ t. some (pos (m + 1), t))
                    (unlock-set_cpu id cpu k (woken c) h (free cpu h.nonnull)))
        | inr v ↦
            rw (some_cpu, other, lock-set_cpu me cpu k free h.nonnull, read, v)
              (ap (λ t. some (pos m, t)) (unlock-set_cpu id cpu k c h (free cpu h.nonnull))
                ∙ ap (λ t. some (pos t, set_cpu k cpu c)) (omega arith))
      ]

  pub wake_one-AfterRound :
      (i m : ℕ) (k : Kernel)
      → IsFree k
      → (ys : List (Option CpuDevice)) × (wake_one w me uaddr bitset (k_cpu_get k (pos i)) (pos m) k
          ≡ some (
            pos (m + (if waiting_at me uaddr bitset k.cpus i then 1 else 0)),
            record k { cpus = ys },
          ))
        × AfterRound me uaddr bitset k.cpus i ys
  unfolding wake_one
  wake_one-AfterRound i m k free = elim (Option-cases (get_or k.cpus i none)) [
    | inl z ↦
        let e : waiting_at me uaddr bitset k.cpus i ≡ false = ap (is_waiting me uaddr bitset i) z in
        (
          k.cpus,
          rw (k_cpu_get-none k i z, e) (ap (λ t. some (pos t, k)) (omega arith)),
          untouched me uaddr bitset k.cpus i e,
        )
    | inr (c, z) ↦ elim (Bool-cases (i + 1 == me)) [
      | inl q ↦
          let nonnull : (i + 1 == 0) ≡ false = ground arith in
          let e : waiting_at me uaddr bitset k.cpus i ≡ false =
            ap (is_waiting me uaddr bitset i) z ∙ ground (arith, q) in
          (
            k.cpus,
            rw (k_cpu_get-some k i c z, nonnull, q, e) (ap (λ t. some (pos t, k)) (omega arith)),
            untouched me uaddr bitset k.cpus i e,
          )
      | inr q ↦
          let l = get_or-inside k.cpus i c z in
          let e : waiting_at me uaddr bitset k.cpus i ≡ waits uaddr bitset c =
            ap (is_waiting me uaddr bitset i) z ∙ ground (arith, q) in
          let at : cpu_at k (i + 1) ≡ c =
            ap (λ t. cpu_of (get_or k.cpus t none)) (omega arith) ∙ ap cpu_of z in
          let b = waits uaddr bitset c in
          (
            set k.cpus i (some (if b then woken c else c)),
            rw (k_cpu_get-some k i c z, e)
                (wake_one-set_cpu (i + 1) m k free
                    (record { nonnull = omega arith; within = omega (arith, l) }) q
                  ∙ ap
                      (λ (x : CpuDevice). some (
                        pos (m + (if waits uaddr bitset x then 1 else 0)),
                        set_cpu k (i + 1) (if waits uaddr bitset x then woken x else x),
                      ))
                      at
                  ∙ ap
                      (λ t. some (
                        pos (m + (if b then 1 else 0)),
                        record k { cpus = set k.cpus t (some (if b then woken c else c)) },
                      ))
                      (the_index i)),
            touched me uaddr bitset k.cpus i c z b e,
          )
    ]
  ]
