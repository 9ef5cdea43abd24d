-- ===== src/Memory/Release.antt =====
-- `k_mem_node_free_pages_nolock`: which pages a release frees.
use baremetal_crt.Common.{
  ℕ, ◌+◌, ◌-◌, ◌*◌, ◌/◌, ◌%◌, ◌≤◌, ◌<◌, ◌≡◌, refl, sym, ◌∙◌, ap, false, some, arith, length, get_or,
  list_ext, ◌==◌, pos,
}
use baremetal_crt.Memory.{
  MemNode, page_size, size_mod, out_of_node, span_pages, any_free, k_mem_node_set_page_flag,
  k_mem_node_alloc_pages_nolock, k_mem_node_free_pages_nolock,
}
use baremetal_crt.Memory.Flags.{Marked, set_flag-Marked, any_free-some}
use baremetal_crt.Memory.Alloc.{IsValid, Request, Outcome, alloc-Outcome}

-- The start of page `i`, and `len` bytes from it that lie in the heap.
pub record Range (m : MemNode) (i len start : ℕ) : Type 0 where
  pub starts : start ≡ m.vaddr + i * page_size
  pub whole : m.size ≡ m.page_total * page_size
  pub inside : i < m.page_total
  pub fits : i + len / page_size ≤ m.page_total
  pub nonzero : 0 < len

module _ (m : MemNode) (i len start : ℕ) (v : IsValid m) (g : Range m i len start) where
  range_pages :
      (out_of_node m start ≡ false)
      × ((start - m.vaddr) / page_size ≡ i)
      × (span_pages m start len ≡ len / page_size)
  range_pages = (
    ground (arith, g.starts, g.whole, g.inside),
    omega (arith, g.starts),
    ground (arith, g.starts),
  )

  range_inside : i + len / page_size ≤ length m.stat_page
  range_inside = omega (arith, v.sized, g.fits)

  -- A release from the start of a page frees `len / 4096` pages, rounded down, and takes as many from
  -- the counter; it returns 0, also where some of the pages are free already.
  pub free-Marked :
      (m' : MemNode) × (k_mem_node_free_pages_nolock m start len ≡ some (pos 0, m'))
      × Marked m.stat_page i (len / page_size) 0 m'.stat_page
      × (m'.page_use ≡ (m.page_use + size_mod - len / page_size) % size_mod)
      × (m' ≡ record m { stat_page = m'.stat_page; page_use = m'.page_use })
  unfolding k_mem_node_free_pages_nolock
  free-Marked =
      let n : ℕ = len / page_size in
      let (st, e, mk) = set_flag-Marked m.stat_page i n 0 range_inside in
      let (d, r) = any_free-some m.stat_page i n range_inside in
      let (a, b, c) = range_pages in
      let z : (len == 0) ≡ false = ground (arith, g.nonzero) in
      (
        record m { stat_page = st; page_use = (m.page_use + size_mod - n) % size_mod },
        rw (z, a, b, c, r, e),
        mk,
        refl,
        refl,
      )

-- A release of less than a page from the start of a page frees nothing: the node is as before, so the
-- page that an allocation of the same length took stays in use.
pub free-partial_page :
    (m : MemNode) (i len start : ℕ)
    → IsValid m
    → Range m i len start
    → len < page_size
    → k_mem_node_free_pages_nolock m start len ≡ some (pos 0, m)
unfolding k_mem_node_free_pages_nolock any_free k_mem_node_set_page_flag
free-partial_page m i len start v g l =
    let (a, b, c) = range_pages m i len start v g in
    let z : (len == 0) ≡ false = ground (arith, g.nonzero) in
    let n : span_pages m start len ≡ 0 = omega (arith, c) in
    let u : (m.page_use + size_mod - 0) % size_mod ≡ m.page_use = omega (arith, v.used, v.small) in
    rw (z, a, n, u)

-- A release of whole pages undoes the allocation of them, when all of them were free before it: the
-- node is then exactly as it was. For a valid node whose size is its pages.
pub alloc-free :
    (m : MemNode) (dbg k i : ℕ) {m' : MemNode} {dbg' : ℕ}
    → IsValid m
    → Request m (k * page_size) k
    → m.size ≡ m.page_total * page_size
    → k_mem_node_alloc_pages_nolock m dbg (k * page_size) ≡ some (pos i, m', dbg')
    → ((j : ℕ) → i ≤ j → j < i + k → get_or m.stat_page j 0 ≡ 0)
    → k_mem_node_free_pages_nolock m' (m.vaddr + i * page_size) (k * page_size) ≡ some (pos 0, m)
unfolding Outcome
alloc-free m dbg k i {m'} v q w e clear =
    let (f, a) = rw e at (alloc-Outcome m dbg (k * page_size) k v q) in
    let n : k * page_size / page_size ≡ k = omega arith in
    let g : Range m' i (k * page_size) (m.vaddr + i * page_size) = record {
      starts = ap (λ (x : MemNode). x.vaddr + i * page_size) (sym a.kept);
      whole = ground (arith, a.kept, w);
      inside = ground (arith, a.kept, f.fits.inside);
      fits = ground (arith, a.kept, n, a.bounds);
      nonzero = q.nonzero;
    } in
    let v' : IsValid m' = record {
      sized = ground (arith, a.kept, a.marked.same_length, v.sized);
      used = ground (arith, a.kept, a.counted, q.enough);
      small = ground (arith, a.kept, v.small);
    } in
    let (m'', r, mk, u, kept) = free-Marked m' i (k * page_size) (m.vaddr + i * page_size) v' g in
    let st : m''.stat_page ≡ m.stat_page =
      list_ext 0 m''.stat_page m.stat_page (omega (arith, mk.same_length, a.marked.same_length))
        (λ j. ground (arith, mk.at j, a.marked.at j, clear j, n)) in
    let use' : m''.page_use ≡ m.page_use = omega (arith, u, n, a.counted, q.enough, v.small) in
    r ∙ ap (λ x. some (pos 0, x)) (kept ∙ node_eq m' m'' a.kept st use')
  where
    node_eq :
        (m' m'' : MemNode)
        → m' ≡ record m { stat_page = m'.stat_page; page_use = m'.page_use }
        → m''.stat_page ≡ m.stat_page
        → m''.page_use ≡ m.page_use
        → record m' { stat_page = m''.stat_page; page_use = m''.page_use } ≡ m
    node_eq m' m'' kept st use' = ground (arith, kept, st, use')
