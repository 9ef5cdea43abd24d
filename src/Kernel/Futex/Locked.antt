-- ===== src/Kernel/Futex/Locked.antt =====
-- A CPU under its lock: taking and releasing it, where it is free.
use baremetal_crt.Common.{
  ℕ, zero, suc, ◌-◌, ◌<◌, ◌≡◌, refl, ap, ◌∙◌, sym, Option, some, List, [], ◌∷◌, set, ℤ,
}
use baremetal_crt.Lock.{released, held_by, SpinLock, k_spinlock_unlock}
use baremetal_crt.Lock.Sequential.{lock_free, unlock_held}
use baremetal_crt.Kernel.{Kernel, CpuDevice, cpu_at, set_cpu}
use baremetal_crt.Kernel.Lens
use baremetal_crt.Kernel.Cpu.{k_cpu_lock, k_cpu_unlock}
use baremetal_crt.Kernel.Futex.Woken.{IsFree, Only, Only-set_cpu}

pub lock-Only :
    (me cpu : ℕ) (k : Kernel)
    → IsFree k
    → Lens.IsCpu k cpu
    → (k1 : Kernel) × (k_cpu_lock me k cpu ≡ some k1)
      × Only k cpu (record (cpu_at k cpu) { lock = held_by (cpu_at k me).id_phys }) k1
unfolding k_cpu_lock
lock-Only me cpu k free h =
    let id = (cpu_at k me).id_phys in
    let unheld : (cpu_at k cpu).lock.val ≡ 0 = ap (λ (l : SpinLock). l.val) (free cpu h.nonnull) in
    (
      set_cpu k cpu (record (cpu_at k cpu) { lock = held_by id }),
      rw (lock_free id (cpu_at k cpu).lock unheld) refl,
      Only-set_cpu (record (cpu_at k cpu) { lock = held_by id }) h
          (record { at = refl; others = λ d p n. refl; same_length = refl }),
    )

pub unlock-Only :
    (id : ℤ) (cpu : ℕ) (k k1 : Kernel) (c : CpuDevice)
    → Lens.IsCpu k cpu
    → Only k cpu (record c { lock = held_by id }) k1
    → Only k cpu (record c { lock = released }) (k_cpu_unlock k1 cpu)
unfolding k_cpu_unlock
unlock-Only id cpu k k1 c h o =
    let u =
      Only-set_cpu (record (cpu_at k1 cpu) { lock = k_spinlock_unlock (cpu_at k1 cpu).lock }) h o in
    record {
      at =
          u.at
          ∙ ap (λ (x : CpuDevice). record x { lock = k_spinlock_unlock x.lock }) o.at
          ∙ (λ i. record c { lock = unlock_held id i });
      others = u.others;
      same_length = u.same_length;
    }

set-set {ℓ} : {A : Type ℓ} (xs : List A) (i : ℕ) (a b : A) → set (set xs i a) i b ≡ set xs i b
set-set [] i a b = refl
set-set (x ∷ xs) zero a b = refl
set-set (x ∷ xs) (suc i) a b = ap (λ ys. x ∷ ys) (set-set xs i a b)

pub set_cpu-set_cpu :
    (k : Kernel) (cpu : ℕ) (a b : CpuDevice) → set_cpu (set_cpu k cpu a) cpu b ≡ set_cpu k cpu b
set_cpu-set_cpu k cpu a b =
    ap (λ (xs : List (Option CpuDevice)). record k { cpus = xs })
      (set-set k.cpus (cpu - 1) (some a) (some b))

pub lock-set_cpu :
    (me cpu : ℕ) (k : Kernel)
    → IsFree k
    → 0 < cpu
    → k_cpu_lock me k cpu
      ≡ some (set_cpu k cpu (record (cpu_at k cpu) { lock = held_by (cpu_at k me).id_phys }))
unfolding k_cpu_lock
lock-set_cpu me cpu k free p =
    let unheld : (cpu_at k cpu).lock.val ≡ 0 = ap (λ (l : SpinLock). l.val) (free cpu p) in
    rw (lock_free (cpu_at k me).id_phys (cpu_at k cpu).lock unheld) refl

pub unlock-set_cpu :
    (id : ℤ) (cpu : ℕ) (k : Kernel) (c : CpuDevice)
    → Lens.IsCpu k cpu
    → c.lock ≡ released
    → k_cpu_unlock (set_cpu k cpu (record c { lock = held_by id })) cpu ≡ set_cpu k cpu c
unfolding k_cpu_unlock
unlock-set_cpu id cpu k c h free =
    set_cpu-set_cpu k cpu _ _
    ∙ ap (λ (x : CpuDevice). set_cpu k cpu (record x { lock = k_spinlock_unlock x.lock }))
        (Lens.cpu_at-set_same k cpu (record c { lock = held_by id }) h)
    ∙ (λ i. set_cpu k cpu (record c { lock = unlock_held id i }))
    ∙ (λ i. set_cpu k cpu (record c { lock = sym free i }))
