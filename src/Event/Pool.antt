-- ===== src/Event/Pool.antt =====
-- The pool of event handlers.
use baremetal_crt.Common.{
  ℕ, zero, suc, ◌+◌, ◌-◌, ◌≤◌, ◌<◌, ◌≡◌, ◌≢◌, refl, inl, inr, ◌&&◌, Option, none, some, List, [],
  ◌∷◌, arith, length, get_or, set, length-set, get_or-set, list_ext, ltb, leb, ◌==◌, if◌then◌else◌,
  Bool-cases, ℤ, pos, negsuc, enomem,
}
use native.Mathlib.Nat.{sub_self}
use baremetal_crt.Event.{
  first_free, find_entry, give_entry, k_event_alloc_handler, k_event_free_handler,
}

-- The least free entry from `i` on, or that there is none.
FirstFree : List ℕ → (i : ℕ) → Option ℕ → Type 0
FirstFree stat i none = (j : ℕ) → j < length stat → get_or stat j 0 ≢ 0
FirstFree stat i (some k) =
    (i ≤ k)
    × (k < i + length stat)
    × (get_or stat (k - i) 0 ≡ 0)
    × ((j : ℕ) → j < k - i → get_or stat j 0 ≢ 0)

FirstFree-cons :
    (s : ℕ) (stat : List ℕ) (i : ℕ) (r : Option ℕ)
    → s ≢ 0
    → FirstFree stat (i + 1) r
    → FirstFree (s ∷ stat) i r
unfolding FirstFree
FirstFree-cons s stat i none h f = go
  where
    go : (j : ℕ) → j < length (s ∷ stat) → get_or (s ∷ stat) j 0 ≢ 0
    go zero l = h
    go (suc j) l = f j (omega arith)
FirstFree-cons s stat i (some k) h (a, b, c, d) = (omega arith, omega arith, rw e c, go)
  where
    e : k - i ≡ suc (k - (i + 1))
    e = omega arith

    go : (j : ℕ) → j < k - i → get_or (s ∷ stat) j 0 ≢ 0
    go zero l = h
    go (suc j) l = d j (omega arith)

first_free-FirstFree : (stat : List ℕ) (i : ℕ) → FirstFree stat i (first_free stat i)
unfolding first_free FirstFree
first_free-FirstFree [] i = λ j l. absurd (omega arith)
first_free-FirstFree (s ∷ stat) i = elim (Bool-cases (s == 0)) [
  | inl e ↦ rw e (omega arith, omega arith, rw sub_self (ground arith), λ j l. absurd (omega arith))
  | inr e ↦ rw e (FirstFree-cons s stat i _ (ground arith) (first_free-FirstFree stat (i + 1)))
]

find_entry_lem :
    (stat : List ℕ) (i p : ℕ)
    → find_entry stat i p ≡ (if ltb i p && leb p (i + length stat) then some (p - 1) else none)
unfolding find_entry
find_entry_lem [] i p = ground arith
find_entry_lem (s ∷ stat) i p = ground (arith, find_entry_lem stat (i + 1) p)

-- What `k_event_alloc_handler` hands out: the pointer of a free entry, the first one, which is marked.
pub record Given (stat : List ℕ) (p : ℕ) (stat' : List ℕ) : Type 0 where
  pub in_pool : (0 < p) × (p ≤ length stat)
  pub was_free : get_or stat (p - 1) 0 ≡ 0
  pub first : (j : ℕ) → suc j < p → get_or stat j 0 ≢ 0
  pub marked : stat' ≡ set stat (p - 1) 1

-- Either an entry is given out, or all are taken.
unfoldable pub AllocOutcome : List ℕ → ℤ × ℕ × List ℕ → Type 0
AllocOutcome stat (pos r, p, stat') = (r ≡ 0) × Given stat p stat'
AllocOutcome stat (negsuc n, p, stat') =
    (negsuc n ≡ enomem)
    × (p ≡ 0)
    × (stat' ≡ stat)
    × ((j : ℕ) → j < length stat → get_or stat j 0 ≢ 0)

give_entry-outcome :
    (stat : List ℕ) (r : Option ℕ) → FirstFree stat 0 r → AllocOutcome stat (give_entry stat r)
unfolding give_entry AllocOutcome FirstFree
give_entry-outcome stat none f = (refl, refl, refl, f)
give_entry-outcome stat (some i) (a, b, c, d) = (
  refl,
  record {
    in_pool = (omega arith, omega arith);
    was_free = rw (e, ← z) c;
    first = λ j l. d j (omega arith);
    marked = rw e;
  },
)
  where
    e : i + 1 - 1 ≡ i
    e = omega arith

    z : i - 0 ≡ i
    z = omega arith

-- `k_event_alloc_handler` gives out the first free entry of the pool and marks it; it fails with
-- -ENOMEM, and changes nothing, only when every entry is taken.
pub alloc_handler-outcome : (stat : List ℕ) → AllocOutcome stat (k_event_alloc_handler stat)
unfolding k_event_alloc_handler
alloc_handler-outcome stat =
    give_entry-outcome stat (first_free stat 0) (first_free-FirstFree stat 0)

-- Freeing the pointer just given out succeeds and makes the pool as it was.
pub alloc_handler-free :
    (stat : List ℕ) {p : ℕ} {stat' : List ℕ}
    → k_event_alloc_handler stat ≡ (pos 0, p, stat')
    → k_event_free_handler stat' p ≡ (pos 0, stat)
unfolding AllocOutcome k_event_free_handler
alloc_handler-free stat {p} {stat'} e =
    let (_, g) = rw e at (alloc_handler-outcome stat) in
    let len : length stat' ≡ length stat = rw (g.marked, length-set stat (p - 1) 1) in
    let back : set stat' (p - 1) 0 ≡ stat =
      list_ext 0 _ _ (rw (length-set stat' (p - 1) 0, len)) (λ j. ground (
        arith,
        g.marked,
        g.in_pool,
        g.was_free,
        len,
        get_or-set stat' (p - 1) 0 0 j,
        get_or-set stat (p - 1) 1 0 j,
      )) in
    ground (arith, g.in_pool, find_entry_lem stat' 0 p, len, back)
