-- ===== src/Syscall/Vm.antt =====
-- The system calls on memory: `k_sys_brk`, `k_sys_mmap`, `k_sys_munmap`, `k_sys_madvise` and
-- `k_sys_mprotect`. `off_t` and `int` arguments are integers; addresses are below 2^63, so that
-- `PTR_TO_INT` gives them as they are. `none` is an access out of bounds or a wait with no end.
pub mod Brk
pub mod Map
use baremetal_crt.Common.{
  ℕ, suc, ◌+◌, ◌-◌, ◌*◌, ◌/◌, ◌%◌, ◌^◌, Bool, true, false, ◌||◌, not, Option, none, some, ltb, leb,
  ◌==◌, if◌then◌else◌, ◌>>=◌, ◌>>◌, eq_ℤ, is_nonzero, to_u64, ℤ, pos, negsuc, enomem, einval,
}
use baremetal_crt.CString.{Memory, k_memset}
use baremetal_crt.Memory.{Mem, page_size, size_mod}
use baremetal_crt.Memory.Heap.{
  MemConfig, k_mem_alloc_pages, k_mem_check_pages, k_mem_free_pages, k_mem_heap_area_start,
  k_mem_heap_area_end, k_mem_brk_start, k_mem_brk_end, k_mem_brk_lock, k_mem_brk_unlock,
}

-- The allocator's variables and the bytes of the memory.
pub record Vm : Type 0 where
  pub mem : Mem
  pub bytes : Memory

-- `k_sys_brk` under the lock: `cur` is `brk_cur` as it was read before the lock was taken, and
-- `shrink` tells whether CONFIG_BRK_CLEAR_AT_SHRINK is set.
unfoldable pub brk_locked : MemConfig → (shrink : Bool) → (cur addr : ℕ) → Vm → ℤ × Vm
brk_locked c shrink cur addr s =
    if addr == 0
    then (pos cur, s)
    else if ltb addr (k_mem_brk_start s.mem) || ltb (k_mem_brk_end c s.mem) addr
    then (enomem, s)
    else (
      pos addr,
      record {
        mem = record (s.mem) { brk_cur = addr };
        bytes =
            if ltb cur addr
            then k_memset s.bytes cur 0 (addr - cur)
            else if shrink
            then k_memset s.bytes addr 0 (cur - addr)
            else s.bytes;
      },
    )

unfoldable pub k_sys_brk : ℤ → MemConfig → (shrink : Bool) → (addr : ℕ) → Vm → Option (ℤ × Vm)
unfolding brk_locked
k_sys_brk cpu c shrink addr s = do
  m ← k_mem_brk_lock cpu s.mem
  let (r, s') = brk_locked c shrink s.mem.brk_cur addr (record s { mem = m })
  some (r, record s' { mem = k_mem_brk_unlock s'.mem })

-- `flags &= ~MAP_STACK`, bit 17.
abbrev pub clear_map_stack : ℕ → ℕ
clear_map_stack flags = if flags / 2 ^ 17 % 2 == 1 then flags - 2 ^ 17 else flags

-- `(flags & (MAP_PRIVATE | MAP_ANONYMOUS)) == (MAP_PRIVATE | MAP_ANONYMOUS)`: MAP_PRIVATE is 0 here, and
-- MAP_ANONYMOUS is bit 1.
abbrev pub is_anonymous : ℕ → Bool
is_anonymous flags = clear_map_stack flags / 2 % 2 == 1

-- The end of `k_sys_mmap`: `off_page` is a `size_t`, and the test `off_page < 0` stands as written.
unfoldable pub map_pages : (len off_page : ℕ) → Vm → ℤ × Vm
map_pages len off_page s =
    let anon_ptr = (k_mem_heap_area_start s.mem + off_page * page_size) % size_mod in
    if ltb off_page 0
    then (enomem, s)
    else (pos anon_ptr, record s { bytes = k_memset s.bytes anon_ptr 0 len })

unfoldable pub k_sys_mmap :
    ℤ → (addr length prot flags : ℕ) → (fd offset : ℤ) → Vm → Option (ℤ × Vm)
unfolding to_u64 map_pages
k_sys_mmap cpu addr length prot flags fd offset s =
    let len = if length == 0 then 4 else length in
    if not (is_anonymous flags) || not (eq_ℤ fd (negsuc 0)) || not (eq_ℤ offset (pos 0))
    then some (einval, s)
    else do
      (r, m) ← k_mem_alloc_pages cpu s.mem len
      some (map_pages len (to_u64 r) (record s { mem = m }))

-- The result of `k_mem_free_pages` is dropped.
unfoldable pub k_sys_munmap : ℤ → (addr length : ℕ) → Vm → Option (ℤ × Vm)
k_sys_munmap cpu addr length s =
    if ltb addr (k_mem_heap_area_start s.mem)
      || ltb (k_mem_heap_area_end s.mem) ((addr + length) % size_mod)
    then some (einval, s)
    else do (r, m) ← k_mem_free_pages cpu s.mem addr length; some (pos 0, record s { mem = m })

-- MADV_DONTNEED is 4. The fill has its last two arguments as the source gives them.
unfoldable pub k_sys_madvise : ℤ → (addr length advice : ℕ) → Vm → Option (ℤ × Vm)
k_sys_madvise cpu addr length advice s =
    if advice == 4
    then (do
      (r, m) ← k_mem_check_pages cpu s.mem addr length
      let s1 = record s { mem = m }
      some (
          if is_nonzero r
          then (r, s1)
          else (pos 0, record s1 { bytes = k_memset s.bytes addr length 0 })))
    else some (einval, s)

unfoldable pub k_sys_mprotect : (addr length prot : ℕ) → Vm → ℤ × Vm
k_sys_mprotect addr length prot s = (pos 0, s)
