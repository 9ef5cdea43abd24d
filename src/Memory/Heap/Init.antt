-- ===== src/Memory/Heap/Init.antt =====
-- `k_mem_init` on a heap that nobody uses yet.
use baremetal_crt.Common.{
  ℕ, ◌+◌, ◌*◌, ◌/◌, ◌%◌, ◌^◌, ◌≤◌, ◌<◌, ◌≡◌, refl, ap, ◌∙◌, some, List, length, get_or, arith, ltb,
  if◌then◌else◌, ℤ, pos,
}
use baremetal_crt.Lock.{k_spinlock_unlock, held_by, released}
use baremetal_crt.Lock.Sequential.{lock_free, unlock_held}
use baremetal_crt.Memory.{MemNode, Mem, page_size, k_mem_node_alloc_pages_nolock}
use baremetal_crt.Memory.Alloc.{IsValid, Allocated, alloc-fresh}
use baremetal_crt.Memory.Heap.Defs.{
  MemConfig, head_node, k_mem_node_lock, k_mem_node_unlock, k_mem_init,
}

-- The checks that memory.c makes of the configuration as it is compiled, the range of the sizes, and a brk area
-- above 0 bytes, which memory.c does not check: CONFIG_BRK_SIZE may be 0, where `k_mem_init` fails.
pub record IsConfig (c : MemConfig) : Type 0 where
  pub aligned : c.heap_size % page_size ≡ 0
  pub holds_brk : c.brk_size ≤ c.heap_size
  pub some_brk : 0 < c.brk_size
  pub small : c.heap_size < 2 ^ 63

-- The pages of the brk area.
abbrev pub brk_pages : MemConfig → ℕ
brk_pages c = (c.brk_size + 4095) / page_size

-- What `k_mem_init` leaves: a valid node whose first pages are the brk area's, and an empty brk area.
pub record Ready (c : MemConfig) (dbg : ℕ) (s : Mem) : Type 0 where
  pub valid : IsValid s.node_head
  pub start : s.node_head.vaddr ≡ c.heap_head_area
  pub size : s.node_head.size ≡ s.node_head.page_total * page_size
  pub used : s.node_head.page_use ≡ brk_pages c
  pub states :
      (j : ℕ) → get_or s.node_head.stat_page j 0 ≡ (if ltb j (brk_pages c) then dbg % 256 else 0)
  pub lock : s.node_head.lock ≡ released
  pub top : s.brk_top ≡ c.heap_head_area
  pub cur : s.brk_cur ≡ c.heap_head_area

module _ (cpu : ℤ) (c : MemConfig) (stat : List ℕ) (s : Mem) (conf : IsConfig c)
    (sized : length stat ≡ c.heap_size / page_size) (clear : (j : ℕ) → get_or stat j 0 ≡ 0)
    (free : s.node_head.lock.val ≡ 0) where
  locked : MemNode
  locked = record (head_node c stat s.node_head) { lock = held_by cpu }

  take_brk :
      (m' : MemNode) × (dbg' : ℕ) × (k_mem_node_alloc_pages_nolock locked s.dbg_heap_num c.brk_size
        ≡ some (pos 0, m', dbg'))
      × Allocated locked s.dbg_heap_num (brk_pages c) 0 m' dbg'
  unfolding locked
  take_brk =
      alloc-fresh locked s.dbg_heap_num c.brk_size (brk_pages c)
        (record { sized = sized; used = omega arith; small = omega (arith, conf.small) })
        (record {
          nonzero = conf.some_brk;
          bounded = omega (arith, conf.small, conf.holds_brk);
          pages = refl;
          enough = omega (arith, conf.aligned, conf.holds_brk);
        })
        (λ j. ground (arith, clear j))

  -- `k_mem_init` succeeds: the node is valid, the first pages are the brk area's and all others are free, the
  -- brk area is empty, the lock is free. For a heap of whole pages and less than 2^63 bytes, a brk area
  -- above 0 bytes that is no larger than the heap, a clear table with one entry for each page, and a lock
  -- of the node that is free.
  pub k_mem_init-Ready :
      (s' : Mem) × (k_mem_init cpu c stat s ≡ some (pos 0, s')) × Ready c s.dbg_heap_num s'
  unfolding k_mem_init k_mem_node_lock k_mem_node_unlock locked
  k_mem_init-Ready =
      let (m', dbg', e, a) = take_brk in
      let top = m'.vaddr + 0 * page_size in
      (
        record s {
          node_head = k_mem_node_unlock m';
          dbg_heap_num = dbg';
          brk_top = top;
          brk_cur = top;
        },
        rw (lock_free cpu s.node_head.lock free, e),
        record {
          valid = record {
            sized = ground (arith, a.kept, a.marked.same_length, sized);
            used = ground (arith, a.kept, a.counted, conf.aligned, conf.holds_brk);
            small = ground (arith, a.kept, conf.small);
          };
          start = ground (arith, a.kept);
          size = ground (arith, a.kept, conf.aligned);
          used = omega (arith, a.counted);
          states = λ j. ground (arith, a.marked.at j, clear j);
          lock = ap (λ (x : MemNode). k_spinlock_unlock x.lock) a.kept ∙ unlock_held cpu;
          top = ground (arith, a.kept);
          cur = ground (arith, a.kept);
        },
      )
