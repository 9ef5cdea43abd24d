-- ===== src/Tests/Calls.antt =====
-- The system calls on memory, and writev to a driver that counts the bytes it takes.
use baremetal_crt.Common.{
  ℕ, ◌+◌, ◌≡◌, refl, false, none, some, List, [], ◌∷◌, arith, ℤ, pos, negsuc,
}
use baremetal_crt.Lock.{released, k_spinlock_lock, k_spinlock_unlock}
use baremetal_crt.CString.{k_memset}
use baremetal_crt.Memory.{k_mem_node_alloc_pages_nolock, k_mem_node_check_pages_nolock}
use baremetal_crt.Memory.Heap.{MemConfig, k_mem_alloc_pages, k_mem_check_pages}
use baremetal_crt.Syscall.Vm.{Vm, k_sys_brk, k_sys_mmap, k_sys_madvise}
use baremetal_crt.Syscall.Vm.Brk.{IsBrk, moved_byte, k_sys_brk_lem}
use baremetal_crt.Syscall.Vm.Map.{Mapped, k_sys_mmap-Mapped}
use baremetal_crt.File
use baremetal_crt.Syscall.File.{IoVec, k_sys_writev}
use baremetal_crt.Syscall.File.Writev.{total, put_all, k_sys_writev-all}

abbrev vm : (use' : ℕ) → List ℕ → Vm
vm use' stat = record {
  mem = record {
    node_head = record {
      lock = released;
      paddr = 8192;
      vaddr = 8192;
      size = 16384;
      page_total = 4;
      page_use = use';
      stat_page = stat;
    };
    dbg_heap_num = 5;
    lock_brk = released;
    brk_top = 8192;
    brk_cur = 8192;
  };
  bytes = λ _. 7;
}

abbrev vm_free : Vm
vm_free = vm 1 (3 ∷ 0 ∷ 0 ∷ 0 ∷ [])

abbrev vm_full : Vm
vm_full = vm 4 (3 ∷ 4 ∷ 5 ∷ 6 ∷ [])

abbrev config : MemConfig
config = record { heap_head_area = 8192; heap_size = 16384; brk_size = 4096 }

k_sys_brk_lem_example :
    (s' : Vm) × (k_sys_brk (pos 0) config false 9000 vm_free ≡ some (pos 9000, s'))
    × IsBrk config s'
    × (s'.mem.brk_cur ≡ 9000)
    × ((x : ℕ) → s'.bytes x ≡ moved_byte false 8192 9000 (λ _. 7) x)
k_sys_brk_lem_example =
    k_sys_brk_lem config false 9000 (pos 0) vm_free
      (record { above = omega arith; below = omega arith; free = refl })

page_given :
    k_mem_alloc_pages (pos 0) vm_free.mem 4096
    ≡ some (
      pos 1,
      record (vm_free.mem) {
        node_head = record (vm_free.mem.node_head) { page_use = 2; stat_page = 3 ∷ 5 ∷ 0 ∷ 0 ∷ [] };
        dbg_heap_num = 6;
      },
    )
unfolding k_mem_alloc_pages k_spinlock_lock k_spinlock_unlock k_mem_node_alloc_pages_nolock
page_given = refl

k_sys_mmap-Mapped_example :
    (s' : Vm) × (k_sys_mmap (pos 0) 0 4096 3 2 (negsuc 0) (pos 0) vm_free ≡ some (pos 12288, s'))
    × Mapped vm_free
        (record (vm_free.mem) {
          node_head = record (vm_free.mem.node_head) {
            page_use = 2;
            stat_page = 3 ∷ 5 ∷ 0 ∷ 0 ∷ [];
          };
          dbg_heap_num = 6;
        })
        12288
        4096
        s'
k_sys_mmap-Mapped_example =
    k_sys_mmap-Mapped (pos 0) 0 4096 3 2 vm_free refl 1 page_given (omega arith)

heap_full : k_mem_alloc_pages (pos 0) vm_full.mem 4096 ≡ some (negsuc 11, vm_full.mem)
unfolding k_mem_alloc_pages k_spinlock_lock k_spinlock_unlock k_mem_node_alloc_pages_nolock
heap_full = refl

advised :
    k_sys_madvise (pos 0) 8192 4096 4 vm_full
    ≡ some (pos 0, record vm_full { bytes = k_memset vm_full.bytes 8192 4096 0 })
unfolding k_sys_madvise k_mem_check_pages k_spinlock_lock k_spinlock_unlock
    k_mem_node_check_pages_nolock
advised = refl

-- The driver keeps the number of bytes it has taken.
abbrev count_bytes : (desc buf count : ℕ) → ℕ → ℤ × ℕ
count_bytes desc buf count w = (pos count, w + count)

abbrev files : File.Files ℕ
files = record {
  fdset = 0 ∷ 1 ∷ [];
  descs =
      record {
        lock = released;
        ops = some (record { read = none; write = some count_bytes; ioctl = none; close = none });
      }
      ∷ [];
  world = 0;
}

abbrev buffers : ℕ → IoVec
buffers i = record { iov_base = 100; iov_len = i }

on_stdout : File.k_file_get_desc files (pos 1) ≡ 1
unfolding File.k_file_get_desc
on_stdout = refl

k_sys_writev-all_example :
    k_sys_writev (pos 0) (pos 1) (some buffers) (pos 4) files
    ≡ some (
      pos (total buffers 4 0),
      record files { world = put_all (λ buf count w. w + count) buffers 4 0 0 },
    )
k_sys_writev-all_example =
    k_sys_writev-all count_bytes (λ buf count w. w + count) 1 (λ buf count w p. refl) buffers
      (λ j h e. absurd (omega (arith, e))) (pos 0) (pos 1) 4 files on_stdout (omega arith)
      (omega arith) refl refl
