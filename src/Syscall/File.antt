-- ===== src/Syscall/File.antt =====
-- The file calls of sys/syscall.c, for a process whose descriptors are `s`; `cpu` is the physical id of the
-- CPU.
pub mod Writev
use baremetal_crt.Common.{
  ℕ, zero, suc, ◌+◌, ◌-◌, Bool, ◌||◌, not, Option, none, some, List, [], ◌∷◌, length, ◌==◌,
  if◌then◌else◌, ◌>>=◌, true, false, pos_part, ltb, ltb_ℤ, to_u64, ◌+ℤ◌, ℤ, pos, einval, ebadf,
  enotty,
}
use baremetal_crt.Lock.{k_spinlock_lock, k_spinlock_unlock}
use baremetal_crt.File

-- `struct iovec`
pub record IoVec : Type 0 where
  pub iov_base : ℕ
  pub iov_len : ℕ

module _ {ℓ} {A : Type ℓ} where
  abbrev missing : Option A → Bool
  missing none = true
  missing (some _) = false

module _ {ℓ} {W : Type ℓ} where
  -- The result of `ops->close`, where there is one.
  unfoldable pub close_desc : (desc : ℕ) → File.Files W → ℤ × File.Files W
  close_desc desc s = elim (File.close_of (File.desc_at s desc)) [
    | none ↦ (pos 0, s)
    | some f ↦ let (r, w) = f desc s.world in (r, record s { world = w })
  ]

  unfoldable pub k_sys_close : (fd : ℤ) → File.Files W → ℤ × File.Files W
  unfolding close_desc
  k_sys_close fd s =
      let desc = File.k_file_get_desc s fd in
      let (ret, s1) = close_desc desc s in
      if desc == 0 then (ebadf, s) else (ret, (File.k_file_set_desc s1 fd 0).1)

  unfoldable pub k_sys_ioctl : (cpu fd : ℤ) (cmd arg : ℕ) → File.Files W → Option (ℤ × File.Files W)
  k_sys_ioctl cpu fd cmd arg s =
      let desc = File.k_file_get_desc s fd in
      if (desc == 0) || missing (File.ioctl_of (File.desc_at s desc))
      then some (enotty, s)
      else File.k_file_ioctl cpu desc cmd arg s

  unfoldable pub k_sys_read :
      (cpu fd : ℤ) (buf count : ℕ) → File.Files W → Option (ℤ × File.Files W)
  k_sys_read cpu fd buf count s =
      let desc = File.k_file_get_desc s fd in
      if (desc == 0) || missing (File.read_of (File.desc_at s desc))
      then some (ebadf, s)
      else File.k_file_read cpu desc buf count s

  unfoldable pub k_sys_write :
      (cpu fd : ℤ) (buf count : ℕ) → File.Files W → Option (ℤ × File.Files W)
  k_sys_write cpu fd buf count s =
      let desc = File.k_file_get_desc s fd in
      if (desc == 0) || missing (File.write_of (File.desc_at s desc))
      then some (ebadf, s)
      else File.k_file_write cpu desc buf count s

  -- The loop of `k_sys_writev` over `left` entries from `iov[i]` on. C compares `wr`, which is negative
  -- or 0 by then, with the length as an unsigned number.
  unfoldable pub writev_loop :
      (desc : ℕ) (iov : ℕ → IoVec) (left i : ℕ) (ret : ℤ) → File.Files W → ℤ × File.Files W
  unfolding to_u64
  writev_loop desc iov zero i ret s = (ret, s)
  writev_loop desc iov (suc left) i ret s =
      let len = (iov i).iov_len in
      let (wr, s1) = File.k_file_write_nolock desc (iov i).iov_base len s in
      let skip = writev_loop desc iov left (i + 1) ret s in
      let more = writev_loop desc iov left (i + 1) (ret +ℤ wr) s1 in
      if len == 0
      then skip
      else if ltb_ℤ (pos 0) wr
      then more
      else if ltb (to_u64 wr) len
      then (ret, s1)
      else (wr, s1)

  -- `iov` is `none` for NULL, and else what the array holds at each index.
  unfoldable pub k_sys_writev :
      (cpu fd : ℤ) (iov : Option (ℕ → IoVec)) (iovcnt : ℤ)
      → File.Files W
      → Option (ℤ × File.Files W)
  unfolding writev_loop
  k_sys_writev cpu fd iov iovcnt s =
      let desc = File.k_file_get_desc s fd in
      if (desc == 0) || missing (File.write_of (File.desc_at s desc))
      then some (ebadf, s)
      else elim iov [
        | none ↦ some (einval, s)
        | some v ↦
            if ltb_ℤ iovcnt (pos 0)
            then some (einval, s)
            else if ltb_ℤ (pos 0) iovcnt
            then File.with_lock cpu desc (writev_loop desc v (pos_part iovcnt) 0 (pos 0)) s
            else some (pos 0, s)
      ]
