-- ===== src/Memory/Heap/Defs.antt =====
-- The heap's only node, its lock, `k_mem_init` and the brk area (sys/memory.c, and the locked
-- calls of include/bmetal/memory.h). `none` is an access out of bounds or a wait for a lock with no end.
-- `cpu` is the physical id of the CPU that runs.
use baremetal_crt.Common.{ℕ, ◌+◌, ◌*◌, ◌/◌, Option, some, List, ◌>>=◌, ℤ, pos, negsuc, enomem}
use baremetal_crt.Lock.{k_spinlock_lock, k_spinlock_unlock}
use baremetal_crt.Memory.{
  MemNode, Mem, page_size, k_mem_node_alloc_pages_nolock, k_mem_node_check_pages_nolock,
  k_mem_node_free_pages_nolock,
}

unfoldable pub k_mem_node_lock : ℤ → MemNode → Option MemNode
k_mem_node_lock cpu m = do l ← k_spinlock_lock cpu m.lock; some (record m { lock = l })

unfoldable pub k_mem_node_unlock : MemNode → MemNode
k_mem_node_unlock m = record m { lock = k_spinlock_unlock m.lock }

unfoldable pub k_mem_node_alloc_pages : ℤ → MemNode → (dbg len : ℕ) → Option (ℤ × MemNode × ℕ)
unfolding k_mem_node_lock k_mem_node_unlock
k_mem_node_alloc_pages cpu m dbg len = do
  m1 ← k_mem_node_lock cpu m
  (r, m2, dbg') ← k_mem_node_alloc_pages_nolock m1 dbg len
  some (r, k_mem_node_unlock m2, dbg')

unfoldable pub k_mem_node_check_pages : ℤ → MemNode → (start len : ℕ) → Option (ℤ × MemNode)
unfolding k_mem_node_lock k_mem_node_unlock
k_mem_node_check_pages cpu m start len = do
  m1 ← k_mem_node_lock cpu m
  r ← k_mem_node_check_pages_nolock m1 start len
  some (r, k_mem_node_unlock m1)

unfoldable pub k_mem_node_free_pages : ℤ → MemNode → (start len : ℕ) → Option (ℤ × MemNode)
unfolding k_mem_node_lock k_mem_node_unlock
k_mem_node_free_pages cpu m start len = do
  m1 ← k_mem_node_lock cpu m
  (r, m2) ← k_mem_node_free_pages_nolock m1 start len
  some (r, k_mem_node_unlock m2)

unfoldable pub k_mem_alloc_pages : ℤ → Mem → (len : ℕ) → Option (ℤ × Mem)
unfolding k_mem_node_alloc_pages
k_mem_alloc_pages cpu s len = do
  (r, m, dbg) ← k_mem_node_alloc_pages cpu s.node_head s.dbg_heap_num len
  some (r, record s { node_head = m; dbg_heap_num = dbg })

unfoldable pub k_mem_check_pages : ℤ → Mem → (start len : ℕ) → Option (ℤ × Mem)
unfolding k_mem_node_check_pages
k_mem_check_pages cpu s start len = do
  (r, m) ← k_mem_node_check_pages cpu s.node_head start len
  some (r, record s { node_head = m })

unfoldable pub k_mem_free_pages : ℤ → Mem → (start len : ℕ) → Option (ℤ × Mem)
unfolding k_mem_node_free_pages
k_mem_free_pages cpu s start len = do
  (r, m) ← k_mem_node_free_pages cpu s.node_head start len
  some (r, record s { node_head = m })

abbrev pub k_mem_heap_area_start : Mem → ℕ
k_mem_heap_area_start s = s.node_head.vaddr

abbrev pub k_mem_heap_area_end : Mem → ℕ
k_mem_heap_area_end s = s.node_head.vaddr + s.node_head.size

-- What the build configures, and where the linker puts the heap.
pub record MemConfig : Type 0 where
  pub heap_head_area : ℕ
  pub heap_size : ℕ  -- CONFIG_HEAP_SIZE
  pub brk_size : ℕ  -- CONFIG_BRK_SIZE

abbrev pub k_mem_brk_start : Mem → ℕ
k_mem_brk_start s = s.brk_top

abbrev pub k_mem_brk_end : MemConfig → Mem → ℕ
k_mem_brk_end c s = s.brk_top + c.brk_size

unfoldable pub k_mem_brk_lock : ℤ → Mem → Option Mem
k_mem_brk_lock cpu s = do l ← k_spinlock_lock cpu s.lock_brk; some (record s { lock_brk = l })

unfoldable pub k_mem_brk_unlock : Mem → Mem
k_mem_brk_unlock s = record s { lock_brk = k_spinlock_unlock s.lock_brk }

-- The node that `k_mem_init` sets up; `stat` is the content of `heap_head_stat`.
abbrev pub head_node : MemConfig → List ℕ → MemNode → MemNode
head_node c stat m = record m {
  paddr = c.heap_head_area;
  size = c.heap_size;
  vaddr = c.heap_head_area;
  page_total = c.heap_size / page_size;
  page_use = 0;
  stat_page = stat;
}

-- The end of `k_mem_init`: the brk area begins at the pages that were allocated.
unfoldable pub set_brk : ℤ → Mem → ℤ × Mem
set_brk (pos off) s =
    let top = s.node_head.vaddr + off * page_size in
    (pos 0, record s { brk_top = top; brk_cur = top })
set_brk (negsuc n) s = (enomem, s)

unfoldable pub k_mem_init : ℤ → MemConfig → List ℕ → Mem → Option (ℤ × Mem)
unfolding k_mem_node_alloc_pages set_brk
k_mem_init cpu c stat s = do
  (r, m, dbg) ← k_mem_node_alloc_pages cpu (head_node c stat s.node_head) s.dbg_heap_num c.brk_size
  some (set_brk r (record s { node_head = m; dbg_heap_num = dbg }))
