-- ===== src/Lock/Race.antt =====
-- Several CPUs at one spin lock, as interleavings of their atomic accesses (sys/lock.c:
-- `k_arch_gen_spinlock_lock` and `k_arch_gen_spinlock_unlock`, each access a step of its own).
use baremetal_crt.Common.{
  ℕ, ◌≡◌, ◌≢◌, refl, ◌⊎◌, inl, inr, Bool, true, false, arith, ◌==◌, Bool-cases, if◌then◌else◌, pos,
  negsuc,
}
use baremetal_crt.Lock.{SpinLock, k_arch_gen_spinlock_trylock, k_arch_gen_spinlock_unlock, released}

-- Where a CPU stands: outside; in the loop of `lock`; past the loop, before the write of `id`; past
-- `lock`; in `unlock`, between the write of `id` and the store of 0.
pub data Phase : Type 0 where
  outside trying taken holding leaving : Phase

-- From the exchange that got 0 to the store of 0.
abbrev pub critical : Phase → Bool
critical outside = false
critical trying = false
critical taken = true
critical holding = true
critical leaving = true

pub record Race : Type 0 where
  pub lock : SpinLock
  pub phase : ℕ → Phase

abbrev pub move : (ℕ → Phase) → ℕ → Phase → ℕ → Phase
move f i p j = if j == i then p else f j

-- The exchange of CPU `i`: out of the loop if the old value was 0.
unfoldable pub exchange : Race → ℕ → Race
unfolding k_arch_gen_spinlock_trylock
exchange s i =
    let (r, l) = k_arch_gen_spinlock_trylock s.lock in
    record { lock = l; phase = move s.phase i (if r == 0 then taken else trying) }

-- The last access of `unlock`.
unfoldable pub store_zero : Race → ℕ → Race
store_zero s i = record { lock = record (s.lock) { val = 0 }; phase = move s.phase i outside }

pub data Step (s : Race) : Race → Type 0 where
  enter : (i : ℕ) → s.phase i ≡ outside → Step s (record s { phase = move s.phase i trying })
  try : (i : ℕ) → s.phase i ≡ trying → Step s (exchange s i)
  sign :
      (i : ℕ)
      → s.phase i ≡ taken
      → Step s (record { lock = record (s.lock) { id = pos i }; phase = move s.phase i holding })
  clear :
      (i : ℕ)
      → s.phase i ≡ holding
      → Step s (record { lock = record (s.lock) { id = negsuc 0 }; phase = move s.phase i leaving })
  free : (i : ℕ) → s.phase i ≡ leaving → Step s (store_zero s i)

pub data Reach (s : Race) : Race → Type 0 where
  here : Reach s s
  next : {t u : Race} → Reach s t → Step t u → Reach s u

-- The start: a free lock, and every CPU outside.
abbrev pub idle : Race
idle = record { lock = released; phase = λ _. outside }

-- At most one CPU is critical, none while the lock is free, and one while it is taken; the CPU that
-- has signed is the one in `id`.
pub record IsSafe (s : Race) : Type 0 where
  pub alone : (i j : ℕ) → critical (s.phase i) ≡ true → critical (s.phase j) ≡ true → i ≡ j
  pub free_none : s.lock.val ≡ 0 → (i : ℕ) → critical (s.phase i) ≡ false
  pub taken_some : (s.lock.val ≡ 0) ⊎ ((i : ℕ) × (critical (s.phase i) ≡ true))
  pub signed : (i : ℕ) → s.phase i ≡ holding → s.lock.id ≡ pos i

idle-IsSafe : IsSafe idle
idle-IsSafe = record {
  alone = λ i j p q. cc;
  free_none = λ _ i. refl;
  taken_some = inl refl;
  signed = λ i p. cc;
}

module _ (s : Race) (v : IsSafe s) (i : ℕ) where
  enter-IsSafe : s.phase i ≡ outside → IsSafe (record s { phase = move s.phase i trying })
  enter-IsSafe p = record {
    alone = λ j k. ground (arith, v.alone j k);
    free_none = λ z j. ground (arith, v.free_none z j);
    taken_some = keep v.taken_some;
    signed = λ j. ground (arith, v.signed j);
  }
    where
      keep :
          (s.lock.val ≡ 0) ⊎ ((k : ℕ) × (critical (s.phase k) ≡ true))
          → (s.lock.val ≡ 0) ⊎ ((k : ℕ) × (critical (move s.phase i trying k) ≡ true))
      keep (inl z) = inl z
      keep (inr (k, c)) = inr (k, ground arith)

  try-IsSafe : s.phase i ≡ trying → IsSafe (exchange s i)
  unfolding exchange
  try-IsSafe p = record {
    alone = λ j k. ground (
      arith,
      v.alone j k,
      λ (z : s.lock.val ≡ 0). v.free_none z j,
      λ (z : s.lock.val ≡ 0). v.free_none z k,
    );
    free_none = λ z j. absurd (omega arith);
    taken_some = inr (keep v.taken_some);
    signed = λ j. ground (arith, v.signed j);
  }
    where
      keep :
          (s.lock.val ≡ 0) ⊎ ((k : ℕ) × (critical (s.phase k) ≡ true))
          → (k : ℕ) × (critical ((exchange s i).phase k) ≡ true)
      keep (inl z) = (i, ground arith)
      keep (inr (k, c)) = (k, ground arith)

  sign-IsSafe :
      s.phase i ≡ taken
      → IsSafe (record { lock = record (s.lock) { id = pos i }; phase = move s.phase i holding })
  sign-IsSafe p = record {
    alone = λ j k. ground (arith, v.alone j k, v.alone i j, v.alone i k);
    free_none = λ z j. ground (arith, v.free_none z j, v.free_none z i);
    taken_some = inr (i, ground arith);
    signed = λ j. ground (arith, v.alone i j);
  }

  clear-IsSafe :
      s.phase i ≡ holding
      → IsSafe (record { lock = record (s.lock) { id = negsuc 0 }; phase = move s.phase i leaving })
  clear-IsSafe p = record {
    alone = λ j k. ground (arith, v.alone j k, v.alone i j, v.alone i k);
    free_none = λ z j. ground (arith, v.free_none z j, v.free_none z i);
    taken_some = inr (i, ground arith);
    signed = λ j. ground (arith, v.alone i j);
  }

  free-IsSafe : s.phase i ≡ leaving → IsSafe (store_zero s i)
  unfolding store_zero
  free-IsSafe p = record {
    alone = λ j k. ground (arith, v.alone j k, v.alone i j, v.alone i k);
    free_none = λ z j. elim (Bool-cases (critical (s.phase j))) [
      | inl c ↦ ground (arith, v.alone i j)
      | inr c ↦ ground arith
    ];
    taken_some = inl refl;
    signed = λ j. ground (arith, v.alone i j);
  }

Step-IsSafe : {s t : Race} → Step s t → IsSafe s → IsSafe t
Step-IsSafe {s} (enter i p) v = enter-IsSafe s v i p
Step-IsSafe {s} (try i p) v = try-IsSafe s v i p
Step-IsSafe {s} (sign i p) v = sign-IsSafe s v i p
Step-IsSafe {s} (clear i p) v = clear-IsSafe s v i p
Step-IsSafe {s} (free i p) v = free-IsSafe s v i p

-- However many CPUs contend and however their accesses interleave from the free lock, at most one is
-- past its exchange and before its store of 0; none is while the lock is free, one is while it is
-- taken, and `id` names the CPU that has signed.
pub Reach-IsSafe : {s : Race} → Reach idle s → IsSafe s
Reach-IsSafe here = idle-IsSafe
Reach-IsSafe (next r st) = Step-IsSafe st (Reach-IsSafe r)

-- The two accesses of `unlock` by a CPU leave what `k_arch_gen_spinlock_unlock` leaves, and after them
-- the next exchange of another CPU that is in the loop succeeds.
pub unlock-passes :
    (s : Race) (i j : ℕ)
    → i ≢ j
    → s.phase j ≡ trying
    → let t =
        store_zero
          (record { lock = record (s.lock) { id = negsuc 0 }; phase = move s.phase i leaving })
          i in
      (t.lock ≡ k_arch_gen_spinlock_unlock s.lock) × ((exchange t j).phase j ≡ taken)
unfolding store_zero exchange k_arch_gen_spinlock_unlock
unlock-passes s i j h p = (ground arith, ground arith)
