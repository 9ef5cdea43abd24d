-- ===== src/Memory.antt =====
-- sys/memory.c with include/bmetal/memory.h: the page allocator of the heap and the brk area.
-- `size_t` and the page counters are 64 bits wide. `none` is an access to `stat_page` out of its
-- bounds. The node is the one that `k_mem_node_head` returns, which is never NULL; debug output is
-- left out. `dbg_heap_num` is an `int` whose overflow (after 2^31 allocations) is not modelled.
pub mod Find
pub mod Flags
pub mod Alloc
pub mod Release
pub mod Heap
use baremetal_crt.Common.{
  ℕ, zero, suc, ◌+◌, ◌-◌, ◌*◌, ◌/◌, ◌%◌, ◌^◌, Bool, true, false, ◌||◌, Option, none, some, List,
  length, get_or, set, replicate, ltb, leb, ◌==◌, if◌then◌else◌, ◌>>=◌, ℤ, pos, negsuc, eperm,
  ebadf, enomem, einval,
}
use baremetal_crt.Lock.{SpinLock, k_spinlock_lock, k_spinlock_unlock}

-- `__PAGE_SIZE`
abbrev pub page_size : ℕ
page_size = 4096

abbrev pub size_mod : ℕ
size_mod = 2 ^ 64

-- `struct k_mem_node`
pub record MemNode : Type 0 where
  pub lock : SpinLock
  pub paddr : ℕ
  pub vaddr : ℕ
  pub size : ℕ
  pub page_total : ℕ
  pub page_use : ℕ
  pub stat_page : List ℕ

-- The static variables of memory.c.
pub record Mem : Type 0 where
  pub node_head : MemNode
  pub dbg_heap_num : ℕ
  pub lock_brk : SpinLock
  pub brk_top : ℕ
  pub brk_cur : ℕ

-- `m->stat_page[i]` as a truth value.
abbrev pub in_use : List ℕ → ℕ → Bool
in_use st i = if get_or st i 0 == 0 then false else true

-- The loop of `k_mem_node_count_cont_pages` over the `k` pages from `i` to `page_total`.
unfoldable pub count_cont : (k : ℕ) → List ℕ → (i r lim : ℕ) → ℕ
count_cont zero st i r lim = r
count_cont (suc k) st i r lim =
    let rest = count_cont k st (i + 1) (r + 1) lim in if in_use st i || leb lim r then r else rest

pub k_mem_node_count_cont_pages : MemNode → (off_page lim_page : ℕ) → ℕ
unfolding count_cont
k_mem_node_count_cont_pages m off lim = count_cont (m.page_total - off) m.stat_page off 1 lim

-- `k_mem_node_set_page_flag`; the flag is a `char`.
unfoldable pub k_mem_node_set_page_flag : List ℕ → (off_page n_page val : ℕ) → Option (List ℕ)
k_mem_node_set_page_flag st i zero v = some st
k_mem_node_set_page_flag st i (suc n) v =
    let rest = k_mem_node_set_page_flag (set st i (v % 256)) (i + 1) n v in
    if ltb i (length st) then rest else none

-- The `while` loop of `k_mem_node_alloc_pages_nolock`, on fuel; `none` when it ends with no page.
unfoldable pub find_pages : (fuel : ℕ) → MemNode → (req i : ℕ) → Option ℕ
unfolding k_mem_node_count_cont_pages
find_pages zero m req i = none
find_pages (suc f) m req i =
    let cnt = k_mem_node_count_cont_pages m i req in
    let next = find_pages f m req (if in_use m.stat_page i then i + 1 else i + cnt) in
    if ltb i m.page_total
    then (if in_use m.stat_page i then next else if leb req cnt then some i else next)
    else none

-- The next value of `dbg_heap_num`: never a multiple of 256.
unfoldable pub next_heap_num : ℕ → ℕ
next_heap_num n = if (n + 1) % 256 == 0 then n + 2 else n + 1

-- `(length + pgsize - 1) / pgsize`
abbrev pub pages_for : ℕ → ℕ
pages_for len = (len + 4095) % size_mod / page_size

-- The pages found are marked and counted, and the heap number moves on.
unfoldable pub take_pages : MemNode → (dbg req i : ℕ) → Option (ℤ × MemNode × ℕ)
unfolding k_mem_node_set_page_flag next_heap_num
take_pages m dbg req i = do
  st ← k_mem_node_set_page_flag m.stat_page i req dbg
  some (
    pos i,
    record m { stat_page = st; page_use = (m.page_use + req) % size_mod },
    next_heap_num dbg,
  )

-- After the loop: the pages are taken, or -1 is returned.
unfoldable pub finish_alloc : MemNode → (dbg req : ℕ) → Option ℕ → Option (ℤ × MemNode × ℕ)
unfolding take_pages
finish_alloc m dbg req (some i) = take_pages m dbg req i
finish_alloc m dbg req none = some (eperm, m, dbg)

unfoldable pub k_mem_node_alloc_pages_nolock : MemNode → (dbg len : ℕ) → Option (ℤ × MemNode × ℕ)
unfolding find_pages finish_alloc
k_mem_node_alloc_pages_nolock m dbg len =
    if len == 0
    then some (einval, m, dbg)
    else if ltb ((m.page_total + size_mod - m.page_use) % size_mod) (pages_for len)
    then some (enomem, m, dbg)
    else finish_alloc m dbg (pages_for len) (find_pages (m.page_total + 1) m (pages_for len) 0)

-- `start < m->vaddr || (m->vaddr + m->size <= start)`
abbrev pub out_of_node : MemNode → ℕ → Bool
out_of_node m start = ltb start m.vaddr || leb (m.vaddr + m.size) start

-- `n_page`, one more where `start` is inside a page.
abbrev pub span_pages : MemNode → (start len : ℕ) → ℕ
span_pages m start len =
    let off = start - m.vaddr in
    if off % page_size == 0 then len / page_size else len / page_size + 1

-- The check loops: whether one of the pages is not in use.
unfoldable pub any_free : List ℕ → (i n : ℕ) → Option Bool
any_free st i zero = some false
any_free st i (suc n) =
    let rest = any_free st (i + 1) n in
    if ltb i (length st)
    then (do failed ← rest; some (if in_use st i then failed else true))
    else none

unfoldable pub k_mem_node_check_pages_nolock : MemNode → (start len : ℕ) → Option ℤ
unfolding any_free
k_mem_node_check_pages_nolock m start len =
    if len == 0 then some einval else if out_of_node m start then some einval else do
      failed ← any_free m.stat_page ((start - m.vaddr) / page_size) (span_pages m start len)
      some (if failed then ebadf else pos 0)

-- A page that is free already is reported, and the pages are freed all the same.
unfoldable pub k_mem_node_free_pages_nolock : MemNode → (start len : ℕ) → Option (ℤ × MemNode)
unfolding any_free k_mem_node_set_page_flag
k_mem_node_free_pages_nolock m start len =
    if len == 0 then some (einval, m) else if out_of_node m start then some (einval, m) else do
      let off_page = (start - m.vaddr) / page_size
      let n_page = span_pages m start len
      need_dump ← any_free m.stat_page off_page n_page
      st ← k_mem_node_set_page_flag m.stat_page off_page n_page 0
      some (
        pos 0,
        record m { stat_page = st; page_use = (m.page_use + size_mod - n_page) % size_mod },
      )
