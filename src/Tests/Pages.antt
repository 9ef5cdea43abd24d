-- ===== src/Tests/Pages.antt =====
-- The page allocator on heaps of four pages.
use baremetal_crt.Common.{
  ℕ, zero, suc, ◌+◌, ◌*◌, ◌<◌, ◌≡◌, refl, false, some, List, [], ◌∷◌, arith, get_or, pos,
}
use baremetal_crt.Lock.{released}
use baremetal_crt.Memory.{
  MemNode, Mem, page_size, in_use, k_mem_node_alloc_pages_nolock, k_mem_node_free_pages_nolock,
}
use baremetal_crt.Memory.Alloc.{IsValid, Request, IsFirstFit, Outcome, alloc-Outcome, alloc_overlap}
use baremetal_crt.Memory.Release.{Range, alloc-free}
use baremetal_crt.Memory.Heap.{MemConfig, k_mem_init, IsConfig, Ready, k_mem_init-Ready}

abbrev node : (use' : ℕ) → List ℕ → MemNode
node use' stat = record {
  lock = released;
  paddr = 8192;
  vaddr = 8192;
  size = 16384;
  page_total = 4;
  page_use = use';
  stat_page = stat;
}

abbrev all_free : MemNode
all_free = node 0 (0 ∷ 0 ∷ 0 ∷ 0 ∷ [])

abbrev one_used : MemNode
one_used = node 1 (0 ∷ 7 ∷ 0 ∷ 0 ∷ [])

all_free-IsValid : IsValid all_free
all_free-IsValid = record { sized = refl; used = omega arith; small = omega arith }

one_used-IsValid : IsValid one_used
one_used-IsValid = record { sized = refl; used = omega arith; small = omega arith }

two_pages : Request all_free 8192 2
two_pages = record {
  nonzero = omega arith;
  bounded = omega arith;
  pages = refl;
  enough = omega arith;
}

two_more : Request one_used 8192 2
two_more = record {
  nonzero = omega arith;
  bounded = omega arith;
  pages = refl;
  enough = omega arith;
}

all_free-free : (j : ℕ) → get_or all_free.stat_page j 0 ≡ 0
all_free-free zero = refl
all_free-free (suc zero) = refl
all_free-free (suc (suc zero)) = refl
all_free-free (suc (suc (suc zero))) = refl
all_free-free (suc (suc (suc (suc j)))) = refl

all_free-in_use : (j : ℕ) → in_use all_free.stat_page j ≡ false
all_free-in_use j = rw (all_free-free j) refl

first_page : IsFirstFit one_used 2 0
first_page = record {
  fits = record { inside = omega arith; first = refl; run = run };
  least = λ j l. absurd (omega arith);
}
  where
    run : (j : ℕ) → suc j < 2 → (0 + j < 4) × (in_use one_used.stat_page (0 + j) ≡ false)
    run zero l = (omega arith, refl)
    run (suc j) l = absurd (omega arith)

alloc-Outcome_example : Outcome one_used 5 2 (k_mem_node_alloc_pages_nolock one_used 5 8192)
alloc-Outcome_example = alloc-Outcome one_used 5 8192 2 one_used-IsValid two_more

alloc_overlap_example :
    (m' : MemNode) × (dbg' : ℕ) × (k_mem_node_alloc_pages_nolock one_used 5 8192
      ≡ some (pos 0, m', dbg'))
    × (get_or m'.stat_page 1 0 ≡ 5)
alloc_overlap_example =
    alloc_overlap one_used 5 8192 2 0 one_used-IsValid two_more first_page (omega arith)
      (omega arith) refl

one_page_taken :
    k_mem_node_alloc_pages_nolock one_used 5 100 ≡ some (pos 0, node 2 (5 ∷ 7 ∷ 0 ∷ 0 ∷ []), 6)
unfolding k_mem_node_alloc_pages_nolock
one_page_taken = refl

second_page : (len : ℕ) → 0 < len → len < 8192 → Range one_used 1 len 12288
second_page len p l = record {
  starts = refl;
  whole = refl;
  inside = omega arith;
  fits = omega arith;
  nonzero = p;
}

two_pages_taken :
    k_mem_node_alloc_pages_nolock all_free 5 (2 * page_size)
    ≡ some (pos 0, node 2 (5 ∷ 5 ∷ 0 ∷ 0 ∷ []), 6)
unfolding k_mem_node_alloc_pages_nolock
two_pages_taken = refl

alloc-free_example :
    k_mem_node_free_pages_nolock (node 2 (5 ∷ 5 ∷ 0 ∷ 0 ∷ [])) 8192 8192 ≡ some (pos 0, all_free)
alloc-free_example =
    alloc-free all_free 5 2 0 all_free-IsValid two_pages refl two_pages_taken
      (λ j a b. all_free-free j)

abbrev config : MemConfig
config = record { heap_head_area = 8192; heap_size = 16384; brk_size = 5000 }

config-IsConfig : IsConfig config
config-IsConfig = record {
  aligned = refl;
  holds_brk = omega arith;
  some_brk = omega arith;
  small = omega arith;
}

abbrev start : Mem
start = record {
  node_head = node 0 [];
  dbg_heap_num = 1;
  lock_brk = released;
  brk_top = 0;
  brk_cur = 0;
}

k_mem_init-Ready_example :
    (s' : Mem) × (k_mem_init (pos 0) config (0 ∷ 0 ∷ 0 ∷ 0 ∷ []) start ≡ some (pos 0, s'))
    × Ready config 1 s'
k_mem_init-Ready_example =
    k_mem_init-Ready (pos 0) config (0 ∷ 0 ∷ 0 ∷ 0 ∷ []) start config-IsConfig refl all_free-free
      refl
