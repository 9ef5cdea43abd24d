-- ===== src/Syscall/Vm/Map.antt =====
-- `k_sys_mmap`, `k_sys_munmap` and `k_sys_madvise`.
use baremetal_crt.Common.{
  ℕ, suc, ◌+◌, ◌-◌, ◌*◌, ◌%◌, ◌<◌, ◌≡◌, refl, true, ◌&&◌, some, arith, ltb, leb, ◌==◌,
  if◌then◌else◌, to_u64, ℤ, pos, negsuc,
}
use baremetal_crt.CString.{k_memset}
use baremetal_crt.CString.Fill.{k_memset-Filled}
use baremetal_crt.Memory.{Mem, page_size, size_mod}
use baremetal_crt.Memory.Heap.{k_mem_alloc_pages}
use baremetal_crt.Syscall.Vm.{Vm, map_pages, is_anonymous, k_sys_mmap, k_sys_madvise}

-- The bytes that `k_sys_mmap` clears.
abbrev pub map_length : ℕ → ℕ
map_length length = if length == 0 then 4 else length

-- What `k_sys_mmap` leaves: the allocator's state, and `len` bytes at `p` that are 0.
pub record Mapped (s : Vm) (m : Mem) (p len : ℕ) (s' : Vm) : Type 0 where
  pub allocator : s'.mem ≡ m
  pub cleared : (x : ℕ) → s'.bytes x ≡ (if leb p x && ltb x (p + len) then 0 else s.bytes x)

module _ (cpu : ℤ) (addr length prot flags : ℕ) (s : Vm) {m : Mem}
    (anonymous : is_anonymous flags ≡ true) where
  -- An anonymous mapping for which the allocator gives page `i` returns the address of that page, with
  -- the length asked for cleared there (4 bytes where it is 0) and no other byte changed. The address
  -- is one of the address space.
  pub k_sys_mmap-Mapped :
      (i : ℕ)
      → k_mem_alloc_pages cpu s.mem (map_length length) ≡ some (pos i, m)
      → m.node_head.vaddr + i * page_size < size_mod
      → (s' : Vm) × (k_sys_mmap cpu addr length prot flags (negsuc 0) (pos 0) s
          ≡ some (pos (m.node_head.vaddr + i * page_size), s'))
        × Mapped s m (m.node_head.vaddr + i * page_size) (map_length length) s'
  unfolding k_sys_mmap to_u64 map_pages
  k_sys_mmap-Mapped i e h =
      let p = m.node_head.vaddr + i * page_size in
      let small : i % size_mod ≡ i = omega arith in
      let same : p % size_mod ≡ p = omega arith in
      (
        record { mem = m; bytes = k_memset s.bytes p 0 (map_length length) },
        rw (anonymous, e, small, same) (ground arith),
        record { allocator = refl; cleared = k_memset-Filled s.bytes p 0 (map_length length) },
      )

  -- Where the allocator fails with the error -(n + 1), `k_sys_mmap` does not fail: it returns the heap's
  -- start plus the error taken as an unsigned page number, and clears the bytes at that address.
  pub k_sys_mmap-error_lost :
      (n : ℕ)
      → k_mem_alloc_pages cpu s.mem (map_length length) ≡ some (negsuc n, m)
      → n < size_mod
      → (s' : Vm) × (k_sys_mmap cpu addr length prot flags (negsuc 0) (pos 0) s
          ≡ some (pos ((m.node_head.vaddr + (size_mod - suc n) * page_size) % size_mod), s'))
        × Mapped s m
            ((m.node_head.vaddr + (size_mod - suc n) * page_size) % size_mod)
            (map_length length)
            s'
  unfolding k_sys_mmap to_u64 map_pages
  k_sys_mmap-error_lost n e h =
      let p = (m.node_head.vaddr + (size_mod - suc n) * page_size) % size_mod in
      let small : n % size_mod ≡ n = omega arith in
      (
        record { mem = m; bytes = k_memset s.bytes p 0 (map_length length) },
        rw (anonymous, e, small) (ground arith),
        record { allocator = refl; cleared = k_memset-Filled s.bytes p 0 (map_length length) },
      )

-- `k_sys_madvise` changes no byte, whatever it is asked: also MADV_DONTNEED on pages in use leaves the
-- contents as they are.
pub k_sys_madvise-keeps_bytes :
    (cpu : ℤ) (addr length advice : ℕ) (s : Vm) {r : ℤ} {s' : Vm}
    → k_sys_madvise cpu addr length advice s ≡ some (r, s')
    → (x : ℕ) → s'.bytes x ≡ s.bytes x
unfolding k_sys_madvise
k_sys_madvise-keeps_bytes cpu addr length advice s e x =
    ground (arith, k_memset-Filled s.bytes addr length 0 x)
