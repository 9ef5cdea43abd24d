-- ===== src/Syscall/Machine.antt =====
-- The calls of sys/syscall.c that reach the machine as a whole, with sys/fini.c, and those on files that only
-- fail. A polled descriptor is what the array `fds` holds at an index.
use baremetal_crt.Common.{
  ℕ, zero, suc, ◌+◌, Bool, true, false, not, ◌||◌, Option, none, some, ◌==◌, if◌then◌else◌, ℤ, pos,
  einval, ebadf, efault, enotsup, count_up,
}
use baremetal_crt.CString.{Memory, store_byte}
use baremetal_crt.File

-- `buf` is 0 for NULL.
unfoldable pub k_sys_getrandom : (buf buflen : ℕ) → Memory → ℤ × Memory
unfolding count_up
k_sys_getrandom buf buflen m =
    if (buf == 0) || (buflen == 0)
    then (einval, m)
    else (pos 0, count_up (λ i n. store_byte n (buf + i) i) buflen 0 m)

unfoldable pub k_sys_openat : (dirfd : ℤ) → (pathname : ℕ) → (flags : ℤ) → (mode : ℕ) → ℤ
k_sys_openat dirfd pathname flags mode = enotsup

-- `has_poll` is whether the operations of a descriptor have a `poll`.
module _ {ℓ} {W : Type ℓ} (has_poll : (desc : ℕ) → Bool) (s : File.Files W) where
  -- The loop of `k_sys_poll` from entry `i` on: whether all descriptors can be polled.
  unfoldable pub can_poll : (fds : ℕ → ℤ) → (left i : ℕ) → Bool
  can_poll fds zero i = true
  can_poll fds (suc n) i =
      let rest = can_poll fds n (i + 1) in
      let desc = File.k_file_get_desc s (fds i) in
      if (desc == 0) || not (has_poll desc) then false else rest

  -- `fds` is `none` for NULL.
  unfoldable pub k_sys_poll : Option (ℕ → ℤ) → (nfds : ℕ) → ℤ
  unfolding can_poll
  k_sys_poll none nfds = efault
  k_sys_poll (some fds) nfds = if can_poll fds nfds 0 then enotsup else ebadf

-- The driver of the system's reset, less `shutdown`, with `none` for a function that it has not.
pub record ResetOps {ℓ} (W : Type ℓ) : Type ℓ where
  pub reboot : Option (W → ℤ × W)
  pub power_off : Option (W → ℤ × W)

module _ {ℓ} {W : Type ℓ} where
  -- The call of a function of the driver.
  unfoldable pub call_reset : Option (W → ℤ × W) → W → ℤ × W
  call_reset none w = (pos 0, w)
  call_reset (some f) w = f w

  -- `none` where `k_reset_get_system` is NULL.
  unfoldable pub k_fini_reboot : Option (ResetOps W) → W → ℤ × W
  unfolding call_reset
  k_fini_reboot none w = (enotsup, w)
  k_fini_reboot (some ops) w = call_reset ops.reboot w

  unfoldable pub k_fini_power_off : Option (ResetOps W) → W → ℤ × W
  unfolding call_reset
  k_fini_power_off none w = (enotsup, w)
  k_fini_power_off (some ops) w = call_reset ops.power_off w

  -- What `k_fini_reboot` and `k_fini_power_off` return is not looked at. The arguments are words of 32 bits.
  unfoldable pub k_sys_reboot : Option (ResetOps W) → (magic1 magic2 cmd : ℕ) → W → ℤ × W
  unfolding k_fini_reboot k_fini_power_off
  k_sys_reboot rst magic1 magic2 cmd w =
      if not (magic1 == 0xfee1dead) || not (magic2 == 672274793)
      then (einval, w)
      else if cmd == 0x01234567
      then (pos 0, (k_fini_reboot rst w).1)
      else if cmd == 0x4321fedc
      then (pos 0, (k_fini_power_off rst w).1)
      else (einval, w)
