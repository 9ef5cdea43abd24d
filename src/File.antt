-- ===== src/File.antt =====
-- sys/file.c: file descriptors and the calls of their drivers.
-- A pointer to a descriptor is its index plus 1, and NULL is 0. `W` is what the drivers work on. A lock
-- that is waited for without end gives `none`.
pub mod Locked
use baremetal_crt.Common.{
  ℕ, ◌+◌, ◌-◌, Bool, true, false, ◌||◌, Option, none, some, List, length, get_or, set, leb, ◌==◌,
  if◌then◌else◌, ◌>>=◌, ltb_ℤ, pos_part, ℤ, pos, einval, ebadf,
}
use baremetal_crt.Lock.{SpinLock, released, k_spinlock_lock, k_spinlock_unlock}

-- `struct k_file_ops`, less `poll`, which nothing calls.
pub record FileOps {ℓ} (W : Type ℓ) : Type ℓ where
  pub read : Option ((desc buf count : ℕ) → W → ℤ × W)
  pub write : Option ((desc buf count : ℕ) → W → ℤ × W)
  pub ioctl : Option ((desc cmd arg : ℕ) → W → ℤ × W)
  pub close : Option ((desc : ℕ) → W → ℤ × W)

-- `struct k_file_desc`, less `priv`.
pub record FileDesc {ℓ} (W : Type ℓ) : Type ℓ where
  pub lock : SpinLock
  pub ops : Option (FileOps W)

-- `fdset` of the process, with CONFIG_MAX_FD entries, the descriptors and the drivers' state.
pub record Files {ℓ} (W : Type ℓ) : Type ℓ where
  pub fdset : List ℕ
  pub descs : List (FileDesc W)
  pub world : W

module _ {ℓ} {W : Type ℓ} where
  abbrev pub no_desc : FileDesc W
  no_desc = record { lock = released; ops = none }

  -- `*desc`
  abbrev pub desc_at : Files W → ℕ → FileDesc W
  desc_at s desc = get_or s.descs (desc - 1) no_desc

  abbrev pub set_lock : Files W → ℕ → SpinLock → Files W
  set_lock s desc l = record s {
    descs = set s.descs (desc - 1) (record (desc_at s desc) { lock = l });
  }

  -- The function of the driver, where `desc->ops` and it are there.
  abbrev pub read_of : FileDesc W → Option ((desc buf count : ℕ) → W → ℤ × W)
  read_of d = do o ← d.ops; o.read

  abbrev pub write_of : FileDesc W → Option ((desc buf count : ℕ) → W → ℤ × W)
  write_of d = do o ← d.ops; o.write

  abbrev pub ioctl_of : FileDesc W → Option ((desc cmd arg : ℕ) → W → ℤ × W)
  ioctl_of d = do o ← d.ops; o.ioctl

  abbrev pub close_of : FileDesc W → Option ((desc : ℕ) → W → ℤ × W)
  close_of d = do o ← d.ops; o.close

  abbrev pub bad_fd : Files W → ℤ → Bool
  bad_fd s fd = ltb_ℤ fd (pos 0) || leb (length s.fdset) (pos_part fd)

  unfoldable pub k_file_get_desc : Files W → (fd : ℤ) → ℕ
  k_file_get_desc s fd = if bad_fd s fd then 0 else get_or s.fdset (pos_part fd) 0

  -- The old pointer and the new state.
  unfoldable pub k_file_set_desc : Files W → (fd : ℤ) → (desc : ℕ) → ℕ × Files W
  k_file_set_desc s fd desc =
      if bad_fd s fd
      then (0, s)
      else (get_or s.fdset (pos_part fd) 0, record s { fdset = set s.fdset (pos_part fd) desc })

  unfoldable pub k_file_ioctl_nolock : (desc cmd arg : ℕ) → Files W → ℤ × Files W
  k_file_ioctl_nolock desc cmd arg s = elim (ioctl_of (desc_at s desc)) [
    | none ↦ (ebadf, s)
    | some f ↦ let (r, w) = f desc cmd arg s.world in (r, record s { world = w })
  ]

  unfoldable pub k_file_read_nolock : (desc buf count : ℕ) → Files W → ℤ × Files W
  k_file_read_nolock desc buf count s =
      if (buf == 0) || (count == 0) then (einval, s) else elim (read_of (desc_at s desc)) [
        | none ↦ (pos 0, s)
        | some f ↦ let (r, w) = f desc buf count s.world in (r, record s { world = w })
      ]

  unfoldable pub k_file_write_nolock : (desc buf count : ℕ) → Files W → ℤ × Files W
  k_file_write_nolock desc buf count s =
      if buf == 0
      then (einval, s)
      else if count == 0
      then (pos 0, s)
      else elim (write_of (desc_at s desc)) [
        | none ↦ (pos 0, s)
        | some f ↦ let (r, w) = f desc buf count s.world in (r, record s { world = w })
      ]

  -- What a call does under the descriptor's lock, `cpu` being the physical id of the CPU.
  unfoldable pub with_lock :
      (cpu : ℤ) (desc : ℕ) → (Files W → ℤ × Files W) → Files W → Option (ℤ × Files W)
  with_lock cpu desc f s = do
    l ← k_spinlock_lock cpu (desc_at s desc).lock
    let (r, s1) = f (set_lock s desc l)
    some (r, set_lock s1 desc (k_spinlock_unlock (desc_at s1 desc).lock))

  unfoldable pub k_file_ioctl : (cpu : ℤ) (desc cmd arg : ℕ) → Files W → Option (ℤ × Files W)
  unfolding with_lock
  k_file_ioctl cpu desc cmd arg s = with_lock cpu desc (k_file_ioctl_nolock desc cmd arg) s

  unfoldable pub k_file_read : (cpu : ℤ) (desc buf count : ℕ) → Files W → Option (ℤ × Files W)
  unfolding with_lock
  k_file_read cpu desc buf count s = with_lock cpu desc (k_file_read_nolock desc buf count) s

  unfoldable pub k_file_write : (cpu : ℤ) (desc buf count : ℕ) → Files W → Option (ℤ × Files W)
  unfolding with_lock
  k_file_write cpu desc buf count s = with_lock cpu desc (k_file_write_nolock desc buf count) s
