-- ===== src/Syscall/Vm/Brk.antt =====
-- `k_sys_brk` moves the end of the brk area, and clears what it adds.
use baremetal_crt.Common.{
  ℕ, ◌+◌, ◌-◌, ◌≤◌, ◌≡◌, refl, ap, ◌∙◌, Bool, true, false, ◌&&◌, ◌||◌, some, arith, ltb, leb, ◌==◌,
  if◌then◌else◌, inl, inr, Bool-cases, ℤ, pos, enomem,
}
use baremetal_crt.CString.{Memory}
use baremetal_crt.CString.Fill.{k_memset-Filled}
use baremetal_crt.Lock.{k_spinlock_unlock, released, held_by}
use baremetal_crt.Lock.Sequential.{lock_free, unlock_held}
use baremetal_crt.Memory.{Mem}
use baremetal_crt.Memory.Heap.{MemConfig, k_mem_brk_lock, k_mem_brk_unlock}
use baremetal_crt.Syscall.Vm.{Vm, brk_locked, k_sys_brk}

-- The break lies in its area.
pub record IsBrk (c : MemConfig) (s : Vm) : Type 0 where
  pub above : s.mem.brk_top ≤ s.mem.brk_cur
  pub below : s.mem.brk_cur ≤ s.mem.brk_top + c.brk_size
  pub free : s.mem.lock_brk ≡ released

-- The call leaves the break where it is: the argument is NULL or out of the area.
abbrev pub stays : MemConfig → Vm → ℕ → Bool
stays c s addr = addr == 0 || ltb addr s.mem.brk_top || ltb (s.mem.brk_top + c.brk_size) addr

-- The byte at `x` after the break has moved from `cur` to `addr`.
abbrev pub moved_byte : Bool → (cur addr : ℕ) → Memory → ℕ → ℕ
moved_byte shrink cur addr m x =
    if leb cur x && ltb x addr then 0 else if shrink && leb addr x && ltb x cur then 0 else m x

module _ (c : MemConfig) (shrink : Bool) (addr : ℕ) where
  locked-stays :
      (s : Vm)
      → stays c s addr ≡ true
      → brk_locked c shrink s.mem.brk_cur addr s
        ≡ ((if addr == 0 then pos s.mem.brk_cur else enomem), s)
  unfolding brk_locked
  locked-stays s h = ground arith

  locked-moves :
      (s : Vm)
      → stays c s addr ≡ false
      → let (r, s') = brk_locked c shrink s.mem.brk_cur addr s in
        (r ≡ pos addr)
        × (s'.mem ≡ record (s.mem) { brk_cur = addr })
        × ((x : ℕ) → s'.bytes x ≡ moved_byte shrink s.mem.brk_cur addr s.bytes x)
  unfolding brk_locked
  locked-moves s h = (
    ground arith,
    ground arith,
    λ x. ground (
      arith,
      k_memset-Filled s.bytes s.mem.brk_cur 0 (addr - s.mem.brk_cur) x,
      k_memset-Filled s.bytes addr 0 (s.mem.brk_cur - addr) x,
    ),
  )

  -- `k_sys_brk` returns the break for NULL, -ENOMEM for an address out of the area, each with nothing
  -- changed; any other address becomes the break and is returned, the bytes between the old break and a
  -- higher new one are 0 (also those given back, if so configured), and no other byte changes. The break
  -- stays in its area and the lock is free again. For a break in its area and a free lock.
  pub k_sys_brk_lem :
      (cpu : ℤ) (s : Vm)
      → IsBrk c s
      → (s' : Vm) × (k_sys_brk cpu c shrink addr s
          ≡ some (
            (if addr == 0 then pos s.mem.brk_cur else if stays c s addr then enomem else pos addr),
            s',
          ))
        × IsBrk c s'
        × (s'.mem.brk_cur ≡ (if stays c s addr then s.mem.brk_cur else addr))
        × ((x : ℕ)
            → s'.bytes x ≡ (
                if stays c s addr
                then s.bytes x
                else moved_byte shrink s.mem.brk_cur addr s.bytes x))
  unfolding k_sys_brk k_mem_brk_lock k_mem_brk_unlock
  k_sys_brk_lem cpu s b =
      let t : Vm = record s { mem = record (s.mem) { lock_brk = held_by cpu } } in
      let free : s.mem.lock_brk.val ≡ 0 = ground (arith, b.free) in
      elim (Bool-cases (stays c s addr)) [
        | inl e ↦ (
          record s { mem = record (s.mem) { lock_brk = released } },
          rw (lock_free cpu s.mem.lock_brk free, locked-stays t e, unlock_held cpu, e)
              (ground arith),
          record { above = b.above; below = b.below; free = refl },
          rw e,
          λ x. rw e,
        )
        | inr e ↦
            let (r, m, f) = locked-moves t e in
            let after = (brk_locked c shrink s.mem.brk_cur addr t).1 in
            (
              record after { mem = k_mem_brk_unlock after.mem },
              rw (lock_free cpu s.mem.lock_brk free, r, e) (ground arith),
              record {
                above = ground (arith, m, e);
                below = ground (arith, m, e);
                free = ap (λ (x : Mem). k_spinlock_unlock x.lock_brk) m ∙ unlock_held cpu;
              },
              rw e (ap (λ (x : Mem). x.brk_cur) m),
              λ x. rw e (f x),
            )
      ]
