-- ===== src/Kernel/Thread/Table.antt =====
-- The table of threads: which entry a new thread takes, and that ids are not given out twice.
use baremetal_crt.Common.{
  ℕ, suc, ◌+◌, ◌-◌, ◌%◌, ◌^◌, ◌≤◌, ◌<◌, ◌≡◌, ◌≢◌, refl, sym, ap, ◌⊎◌, inl, inr, Bool, true, false,
  some, List, [], ◌∷◌, arith, ◌∙◌, not, First, first_from, first_from-cases, length, get_or, set,
  length-set, get_or-set,
}
use baremetal_crt.Arch.{Regs}
use baremetal_crt.Lock.{released, held_by}
use baremetal_crt.Lock.Sequential.{lock_free, unlock_held}
use baremetal_crt.Kernel.{Kernel, ThreadInfo, thread, set_thread, no_thread, cpu_at}
use baremetal_crt.Kernel.Thread.{find_slot, alloc_tid, new_thread, create_locked, k_thread_create}

abbrev is_slot : ThreadInfo → Bool
is_slot t = not t.avail

find_slot-first : (ts : List ThreadInfo) (i : ℕ) → find_slot ts i ≡ first_from is_slot ts i
unfolding find_slot first_from
find_slot-first [] i = refl
find_slot-first (t ∷ ts) i = ground (arith, find_slot-first ts (i + 1))

-- A thread that `k_thread_create` has made: the entry was the first that was free, it has the next id and
-- the other entries are as they were.
pub record Created (k : Kernel) (ctx : Regs) (ti : ℕ) (k' : Kernel) : Type 0 where
  pub inside : (0 < ti) × (ti ≤ length k.k_ti)
  pub was_free : (thread k ti).avail ≡ false
  pub first : (j : ℕ) → suc j < ti → (get_or k.k_ti j no_thread).avail ≡ true
  pub made : thread k' ti ≡ new_thread ctx k.uniq_tid (thread k ti)
  pub others : (j : ℕ) → suc j ≢ ti → get_or k'.k_ti j no_thread ≡ get_or k.k_ti j no_thread
  pub same_length : length k'.k_ti ≡ length k.k_ti
  pub next_tid : k'.uniq_tid ≡ (k.uniq_tid + 1) % 2 ^ 32
  pub lock : k'.k_pi.lock ≡ released

create_locked-cases :
    (ctx : Regs) (k : Kernel)
    → ((create_locked ctx k ≡ (0, k))
        × ((j : ℕ) → j < length k.k_ti → (get_or k.k_ti j no_thread).avail ≡ true))
      ⊎ ((ti : ℕ) × (create_locked ctx k ≡ (
        ti,
        set_thread
            (record k { uniq_tid = (k.uniq_tid + 1) % 2 ^ 32 })
            ti
            (new_thread ctx k.uniq_tid (thread k ti)),
      ))
          × First is_slot no_thread k.k_ti 0 ti)
unfolding create_locked alloc_tid
create_locked-cases ctx k = elim (first_from-cases is_slot no_thread k.k_ti 0) [
  | inl (z, full) ↦ inl (rw (find_slot-first k.k_ti 0 ∙ z), λ j l. ground (arith, full j))
  | inr f ↦
      inr (first_from is_slot k.k_ti 0, rw (find_slot-first k.k_ti 0) (ground (arith, f.inside)), f)
]

index_eq : (p : ℕ) → p - 1 - 0 ≡ p - 1
index_eq p = omega arith

module _ (me : ℕ) (ctx : Regs) (k : Kernel) (free : k.k_pi.lock ≡ released) where
  locked : Kernel
  locked = record k { k_pi = record (k.k_pi) { lock = held_by (cpu_at k me).id_phys } }

  -- `k_thread_create` takes the first free entry for a thread with the next id, of a
  -- counter of 32 bits that wraps, and leaves the other entries as they are; it returns NULL, with nothing changed, only when no entry is free. The lock of the
  -- process is free again. For a lock that is free.
  pub thread_create-Created :
      ((k_thread_create me ctx k ≡ some (0, k))
        × ((j : ℕ) → j < length k.k_ti → (get_or k.k_ti j no_thread).avail ≡ true))
      ⊎ ((ti : ℕ) × (k' : Kernel) × (k_thread_create me ctx k ≡ some (ti, k'))
          × Created k ctx ti k')
  unfolding k_thread_create locked
  thread_create-Created =
      let z : k.k_pi.lock.val ≡ 0 = ground (arith, free) in
      let l = lock_free (cpu_at k me).id_phys k.k_pi.lock z in
      elim (create_locked-cases ctx locked) [
        | inl (e, full) ↦ inl (
          rw (l, e, unlock_held (cpu_at k me).id_phys)
              (ap (λ s. some (0, record k { k_pi = record (k.k_pi) { lock = s } })) (sym free)),
          full,
        )
        | inr (ti, e, f) ↦
            let made = new_thread ctx k.uniq_tid (thread k ti) in
            let at =
              λ (j : ℕ). get_or-set k.k_ti (ti - 1) made no_thread j (omega (arith, f.inside)) in
            inr (
              ti,
              record k {
                k_pi = record (k.k_pi) { lock = released };
                k_ti = set k.k_ti (ti - 1) made;
                uniq_tid = (k.uniq_tid + 1) % 2 ^ 32;
              },
              rw (l, e, unlock_held (cpu_at k me).id_phys),
              record {
                inside = omega (arith, f.inside);
                was_free = ground (arith, f.passes, index_eq ti);
                first = λ j h. ground (arith, f.least j);
                made = ground (arith, at (ti - 1));
                others = λ j h. ground (arith, at j);
                same_length = length-set k.k_ti (ti - 1) made;
                next_tid = refl;
                lock = refl;
              },
            )
      ]

-- The ids of the threads that are there are below the next id, and no two are equal.
pub record HasUniqueTids (k : Kernel) : Type 0 where
  pub below :
      (j : ℕ)
      → j < length k.k_ti
      → (get_or k.k_ti j no_thread).avail ≡ true
      → (get_or k.k_ti j no_thread).tid < k.uniq_tid
  pub distinct :
      (i j : ℕ)
      → i < length k.k_ti
      → j < length k.k_ti
      → (get_or k.k_ti i no_thread).avail ≡ true
      → (get_or k.k_ti j no_thread).avail ≡ true
      → (get_or k.k_ti i no_thread).tid ≡ (get_or k.k_ti j no_thread).tid
      → i ≡ j
