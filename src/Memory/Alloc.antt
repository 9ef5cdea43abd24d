-- ===== src/Memory/Alloc.antt =====
-- `k_mem_node_alloc_pages_nolock`: which pages an allocation takes, and when it fails.
use baremetal_crt.Common.{
  ℕ, ◌+◌, ◌-◌, ◌%◌, ◌/◌, ◌^◌, ◌≤◌, ◌<◌, ◌≡◌, refl, subst, ap, inl, inr, true, false, Option, none,
  some, arith, length, get_or, ltb, ◌==◌, if◌then◌else◌, Bool-cases, dec_lt, ℤ, pos, negsuc,
}
use baremetal_crt.Memory.{
  MemNode, page_size, size_mod, in_use, find_pages, next_heap_num, pages_for, take_pages,
  finish_alloc, k_mem_node_alloc_pages_nolock,
}
use baremetal_crt.Memory.Find.{Fits, FoundFrom, find_pages-FoundFrom}
use baremetal_crt.Memory.Flags.{Marked, set_flag-Marked, set_flag-none}

-- The counters agree with the array, and no 64-bit sum of page numbers wraps.
pub record IsValid (m : MemNode) : Type 0 where
  pub sized : length m.stat_page ≡ m.page_total
  pub used : m.page_use ≤ m.page_total
  pub small : m.page_total < 2 ^ 52

-- The request needs `req` pages, and the counters say that as many are left.
pub record Request (m : MemNode) (len req : ℕ) : Type 0 where
  pub nonzero : 0 < len
  pub bounded : len ≤ 2 ^ 63
  pub pages : req ≡ (len + 4095) / page_size
  pub enough : req + m.page_use ≤ m.page_total

-- An allocation of `req` pages at page `i`: the result, the counters, and the marks.
pub record Allocated (m : MemNode) (dbg req i : ℕ) (m' : MemNode) (dbg' : ℕ) : Type 0 where
  pub counted : m'.page_use ≡ m.page_use + req
  pub marked : Marked m.stat_page i req (dbg % 256) m'.stat_page
  pub bounds : i + req ≤ m.page_total
  pub kept : m' ≡ record m { stat_page = m'.stat_page; page_use = m'.page_use }
  pub next : dbg' ≡ next_heap_num dbg

module _ (m : MemNode) (dbg len req : ℕ) (v : IsValid m) (q : Request m len req) where
  alloc-find :
      k_mem_node_alloc_pages_nolock m dbg len
      ≡ finish_alloc m dbg req (find_pages (m.page_total + 1) m req 0)
  unfolding k_mem_node_alloc_pages_nolock
  alloc-find =
      let e : pages_for len ≡ req = omega (arith, q.pages, q.bounded) in
      let a : (len == 0) ≡ false = ground (arith, q.nonzero) in
      let b : ltb ((m.page_total + size_mod - m.page_use) % size_mod) (pages_for len) ≡ false =
        ground (arith, q.enough, v.small, v.used, e) in
      rw (a, b, e)

  found : FoundFrom m req 0 (find_pages (m.page_total + 1) m req 0)
  found = find_pages-FoundFrom (m.page_total + 1) m req 0 (omega arith)

  -- What the call does once the search has found the least page `i` that fits.
  take-Allocated :
      (i : ℕ)
      → i + req ≤ m.page_total
      → (m' : MemNode) × (dbg' : ℕ) × (take_pages m dbg req i ≡ some (pos i, m', dbg'))
        × Allocated m dbg req i m' dbg'
  unfolding take_pages
  take-Allocated i h =
      let (st, e, mk) = set_flag-Marked m.stat_page i req dbg (omega (arith, v.sized)) in
      let use' : ℕ = (m.page_use + req) % size_mod in
      (
        record m { stat_page = st; page_use = use' },
        next_heap_num dbg,
        rw e,
        record {
          counted = omega (arith, q.enough, v.small);
          marked = mk;
          bounds = h;
          kept = refl;
          next = refl;
        },
      )

  take-none : (i : ℕ) → m.page_total < i + req → 0 < req → take_pages m dbg req i ≡ none
  unfolding take_pages
  take-none i h p = rw (set_flag-none m.stat_page i req dbg (omega (arith, v.sized)) p)

-- Page `i` is the least one that the loop's test fits.
pub record IsFirstFit (m : MemNode) (req i : ℕ) : Type 0 where
  pub fits : Fits m req i
  pub least : (j : ℕ) → j < i → ¬ Fits m req j

-- What a request with enough pages left comes to: pages at the first fit; -1 and nothing changed where
-- nothing fits; a write past the array (`none`) where the first fit ends one page past the heap.
unfoldable pub Outcome : MemNode → (dbg req : ℕ) → Option (ℤ × MemNode × ℕ) → Type 0
Outcome m dbg req none = (i : ℕ) × IsFirstFit m req i × (m.page_total < i + req)
Outcome m dbg req (some (pos i, m', dbg')) = IsFirstFit m req i × Allocated m dbg req i m' dbg'
Outcome m dbg req (some (negsuc n, m', dbg')) =
    (n ≡ 0) × (m' ≡ m) × (dbg' ≡ dbg) × ((j : ℕ) → ¬ Fits m req j)

module _ (m : MemNode) (dbg len req : ℕ) (v : IsValid m) (q : Request m len req) where
  req_pos : 0 < req
  req_pos = omega (arith, q.pages, q.nonzero)

  take-Outcome : (i : ℕ) → IsFirstFit m req i → Outcome m dbg req (take_pages m dbg req i)
  unfolding Outcome
  take-Outcome i f = elim (dec_lt m.page_total (i + req)) [
    | yes p ↦ rw (take-none m dbg len req v q i p req_pos) (i, f, p)
    | no p ↦ let (m', dbg', e, a) = take-Allocated m dbg len req v q i (omega arith) in rw e (f, a)
  ]

  finish-Outcome :
      (r : Option ℕ) → FoundFrom m req 0 r → Outcome m dbg req (finish_alloc m dbg req r)
  unfolding FoundFrom finish_alloc Outcome
  finish-Outcome none f = (refl, refl, refl, λ j. f j (omega arith))
  finish-Outcome (some i) (p, fit, least) =
      take-Outcome i (record { fits = fit; least = λ j l. least j (omega arith) l })

  -- The allocator gives out pages at the least page that its test fits (the page and the `req - 2` after
  -- it are free), marks and counts exactly `req` pages there, and returns -1 with nothing changed when no
  -- page fits; it writes out of bounds exactly when the first fit ends past the heap. For a node whose
  -- counters are valid and a request for no more pages than they leave.
  pub alloc-Outcome : Outcome m dbg req (k_mem_node_alloc_pages_nolock m dbg len)
  alloc-Outcome =
      rw (alloc-find m dbg len req v q)
        (finish-Outcome (find_pages (m.page_total + 1) m req 0) (found m dbg len req v q))

-- Two pages that both are the first fit are one.
IsFirstFit-unique : (m : MemNode) (req i j : ℕ) → IsFirstFit m req i → IsFirstFit m req j → i ≡ j
IsFirstFit-unique m req i j f g =
    omega (arith, λ (l : i < j). g.least i l f.fits, λ (l : j < i). f.least j l g.fits)

-- The outcome where the first fit is known and does not end past the heap.
Outcome-at :
    (m : MemNode) (dbg req i : ℕ) (r : Option (ℤ × MemNode × ℕ))
    → IsFirstFit m req i
    → i + req ≤ m.page_total
    → Outcome m dbg req r
    → (m' : MemNode) × (dbg' : ℕ) × (r ≡ some (pos i, m', dbg')) × Allocated m dbg req i m' dbg'
unfolding Outcome
Outcome-at m dbg req i none f b (k, g, over) =
    absurd (omega (arith, IsFirstFit-unique m req i k f g))
Outcome-at m dbg req i (some (pos k, m', dbg')) f b (g, a) =
    let e = IsFirstFit-unique m req k i g f in
    (m', dbg', ap (λ x. some (pos x, m', dbg')) e, subst (λ x. Allocated m dbg req x m' dbg') e a)
Outcome-at m dbg req i (some (negsuc n, m', dbg')) f b (_, _, _, no_fit) = absurd (no_fit i f.fits)

-- Where the page just after the run that the test has checked (page `i + req - 1`) is in use, an
-- allocation of two pages or more gives it out once more: it succeeds and overwrites that page's mark.
-- For a valid node, a request that the counters leave room for, and a first fit within the heap.
pub alloc_overlap :
    (m : MemNode) (dbg len req i : ℕ)
    → IsValid m
    → Request m len req
    → IsFirstFit m req i
    → i + req ≤ m.page_total
    → 2 ≤ req
    → in_use m.stat_page (i + (req - 1)) ≡ true
    → (m' : MemNode) × (dbg' : ℕ) × (k_mem_node_alloc_pages_nolock m dbg len
        ≡ some (pos i, m', dbg'))
      × (get_or m'.stat_page (i + (req - 1)) 0 ≡ dbg % 256)
alloc_overlap m dbg len req i v q f b two u =
    let (m', dbg', e, a) = Outcome-at m dbg req i _ f b (alloc-Outcome m dbg len req v q) in
    (m', dbg', e, ground (arith, a.marked.at (i + (req - 1))))

Fits-one : (m : MemNode) (j : ℕ) → j < m.page_total → in_use m.stat_page j ≡ false → Fits m 1 j
Fits-one m j l e = record { inside = l; first = e; run = λ k h. absurd (omega arith) }

-- A request for one page gets the first free page, and every other page keeps its state. For a valid
-- node with a page left by its counter.
pub alloc-one_page :
    (m : MemNode) (dbg len i : ℕ) {m' : MemNode} {dbg' : ℕ}
    → IsValid m
    → 0 < len
    → len ≤ page_size
    → m.page_use < m.page_total
    → k_mem_node_alloc_pages_nolock m dbg len ≡ some (pos i, m', dbg')
    → (in_use m.stat_page i ≡ false)
      × ((j : ℕ) → j < i → in_use m.stat_page j ≡ true)
      × ((j : ℕ) → get_or m'.stat_page j 0 ≡ (if j == i then dbg % 256 else get_or m.stat_page j 0))
      × (m'.page_use ≡ m.page_use + 1)
unfolding Outcome
alloc-one_page m dbg len i v p l u e =
    let q : Request m len 1 = record {
      nonzero = p;
      bounded = omega arith;
      pages = omega arith;
      enough = omega arith;
    } in
    let (f, a) = rw e at (alloc-Outcome m dbg len 1 v q) in
    (
      f.fits.first,
      λ j h. elim (Bool-cases (in_use m.stat_page j)) [
        | inl y ↦ y
        | inr n ↦ absurd (f.least j h (Fits-one m j (omega (arith, f.fits.inside)) n))
      ],
      λ j. ground (arith, a.marked.at j),
      a.counted,
    )

-- On a heap with every page free, an allocation takes the first pages.
pub alloc-fresh :
    (m : MemNode) (dbg len req : ℕ)
    → IsValid m
    → Request m len req
    → ((j : ℕ) → in_use m.stat_page j ≡ false)
    → (m' : MemNode) × (dbg' : ℕ) × (k_mem_node_alloc_pages_nolock m dbg len
        ≡ some (pos 0, m', dbg'))
      × Allocated m dbg req 0 m' dbg'
alloc-fresh m dbg len req v q clear =
    Outcome-at m dbg req 0 _
      (record {
        fits = record {
          inside = omega (arith, req_pos m dbg len req v q, q.enough);
          first = clear 0;
          run = λ j h. (omega (arith, q.enough), clear (0 + j));
        };
        least = λ j h. absurd (omega arith);
      })
      (omega (arith, q.enough)) (alloc-Outcome m dbg len req v q)
