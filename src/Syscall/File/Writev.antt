-- ===== src/Syscall/File/Writev.antt =====
-- `k_sys_writev` of sys/syscall.c over a driver that takes all it is given.
use baremetal_crt.Common.{
  ℕ, zero, suc, ◌+◌, ◌≤◌, ◌<◌, ◌≡◌, ◌≢◌, refl, ap, ◌∙◌, true, false, Bool-cases, inl, inr, some,
  arith, length, ◌==◌, if◌then◌else◌, ltb_ℤ, ◌+ℤ◌, ℤ, pos,
}
use baremetal_crt.Lock.{released}
use baremetal_crt.File
use baremetal_crt.File.Locked
use baremetal_crt.Syscall.File.{IoVec, writev_loop, k_sys_writev}

-- The bytes of `left` entries from the one at `i` on.
unfoldable pub total : (iov : ℕ → IoVec) (left i : ℕ) → ℕ
total iov zero i = 0
total iov (suc n) i = (iov i).iov_len + total iov n (i + 1)

module _ {ℓ} {W : Type ℓ} (put : (buf count : ℕ) → W → W) where
  -- The buffers written one after the other, in order, those of length 0 left out.
  unfoldable pub put_all : (iov : ℕ → IoVec) (left i : ℕ) → W → W
  put_all iov zero i w = w
  put_all iov (suc n) i w =
      put_all iov n (i + 1)
        (if (iov i).iov_len == 0 then w else put (iov i).iov_base (iov i).iov_len w)

positive : (n : ℕ) → 0 < n → ltb_ℤ (pos 0) (pos n) ≡ true
positive n h = ground arith

nonnegative : (n : ℕ) → ltb_ℤ (pos n) (pos 0) ≡ false
nonnegative n = ground arith

add_pos : (a b : ℕ) → pos a +ℤ pos b ≡ pos (a + b)
unfolding ◌+ℤ◌
add_pos a b = ground arith

module _ {ℓ} {W : Type ℓ} (f : (desc buf count : ℕ) → W → ℤ × W) (put : (buf count : ℕ) → W → W)
    (desc : ℕ)
    (complete : (buf count : ℕ) (w : W)
      → 0 < count
      → f desc buf count w ≡ (pos count, put buf count w))
    (iov : ℕ → IoVec) (nonnull : (j : ℕ) → (iov j).iov_len ≢ 0 → (iov j).iov_base ≢ 0) where
  write-all :
      (buf count : ℕ) (s : File.Files W)
      → File.write_of (File.desc_at s desc) ≡ some f
      → buf ≢ 0
      → 0 < count
      → File.k_file_write_nolock desc buf count s
        ≡ (pos count, record s { world = put buf count s.world })
  unfolding File.k_file_write_nolock
  write-all buf count s e b c =
      let eb : (buf == 0) ≡ false = ground (arith, b) in
      let ec : (count == 0) ≡ false = ground (arith, c) in
      rw (eb, ec, e, complete buf count s.world c) refl

  writev_loop-all :
      (left i ret : ℕ) (s : File.Files W)
      → File.write_of (File.desc_at s desc) ≡ some f
      → writev_loop desc iov left i (pos ret) s
        ≡ (pos (ret + total iov left i), record s { world = put_all put iov left i s.world })
  unfolding writev_loop total put_all
  writev_loop-all zero i ret s e = ground arith
  writev_loop-all (suc n) i ret s e = elim (Bool-cases ((iov i).iov_len == 0)) [
    | inl z ↦
        let len : (iov i).iov_len ≡ 0 = ground (arith, z) in
        let sum : ret + total iov n (i + 1) ≡ ret + ((iov i).iov_len + total iov n (i + 1)) =
          omega (arith, len) in
        rw z (
          writev_loop-all n (i + 1) ret s e
          ∙ ap (λ m. (pos m, record s { world = put_all put iov n (i + 1) s.world })) sum)
    | inr z ↦
        let len : 0 < (iov i).iov_len = ground (arith, z) in
        let sum : ret + (iov i).iov_len + total iov n (i + 1)
            ≡ ret + ((iov i).iov_len + total iov n (i + 1)) =
          omega arith in
        let w = put (iov i).iov_base (iov i).iov_len s.world in
        rw
          (
            z,
            write-all (iov i).iov_base (iov i).iov_len s e (nonnull i (ground (arith, len))) len,
            positive (iov i).iov_len len,
            add_pos ret (iov i).iov_len,
          )
          (writev_loop-all n (i + 1) (ret + (iov i).iov_len) (record s { world = w }) e
            ∙ ap (λ m. (pos m, record s { world = put_all put iov n (i + 1) w })) sum)
  ]

  -- A writev to a descriptor that is free and whose driver takes all it is given: the result is the number
  -- of bytes of all the buffers, the driver got them in order (less those of length 0), and the descriptors
  -- and their locks are as before. No buffer that has bytes is NULL.
  pub k_sys_writev-all :
      (cpu fd : ℤ) (n : ℕ) (s : File.Files W)
      → File.k_file_get_desc s fd ≡ desc
      → 0 < desc
      → desc ≤ length s.descs
      → (File.desc_at s desc).lock ≡ released
      → File.write_of (File.desc_at s desc) ≡ some f
      → k_sys_writev cpu fd (some iov) (pos n) s
        ≡ some (pos (total iov n 0), record s { world = put_all put iov n 0 s.world })
  unfolding k_sys_writev total put_all
  k_sys_writev-all cpu fd zero s at p q free e =
      let z : (desc == 0) ≡ false = ground (arith, p) in rw (at, z, e) refl
  k_sys_writev-all cpu fd (suc n) s at p q free e =
      let z : (desc == 0) ≡ false = ground (arith, p) in
      let sum : 0 + total iov (suc n) 0 ≡ total iov (suc n) 0 = omega arith in
      let same : File.write_of (File.desc_at (Locked.in_call cpu desc s) desc) ≡ some f =
        ap File.write_of (Locked.in_call-desc cpu desc s p q) ∙ e in
      rw (at, z, e, positive (suc n) (omega arith), nonnegative (suc n))
        (Locked.with_lock-world cpu desc s (writev_loop desc iov (suc n) 0 (pos 0)) _ _ p q free
            (writev_loop-all (suc n) 0 0 (Locked.in_call cpu desc s) same)
          ∙ ap (λ m. some (pos m, record s { world = put_all put iov (suc n) 0 s.world })) sum)
