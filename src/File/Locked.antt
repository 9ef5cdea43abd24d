-- ===== src/File/Locked.antt =====
-- A call under the lock of a descriptor (`with_lock` of sys/file.c's calls) gives the lock back.
use baremetal_crt.Common.{
  ℕ, ◌-◌, ◌≤◌, ◌<◌, ◌≡◌, ap, ◌∙◌, sym, some, List, arith, length, length-set, get_or, set,
  get_or-set, list_ext, ℤ,
}
use baremetal_crt.Lock.{SpinLock, k_spinlock_unlock, released, held_by}
use baremetal_crt.Lock.Sequential.{lock_free, unlock_held}
use baremetal_crt.File.{FileDesc, Files, no_desc, desc_at, set_lock, with_lock}

module _ {ℓ} {A : Type ℓ} where
  -- A write that a second write takes back.
  pub set-back :
      (d : A) (xs : List A) (i : ℕ) (x : A)
      → i < length xs
      → set (set xs i x) i (get_or xs i d) ≡ xs
  set-back d xs i x h =
      list_ext d (set (set xs i x) i (get_or xs i d)) xs
        (length-set (set xs i x) i (get_or xs i d) ∙ length-set xs i x)
        (λ j. ground (
          arith,
          get_or-set (set xs i x) i (get_or xs i d) d j,
          get_or-set xs i x d j,
          length-set xs i x,
        ))

module _ {ℓ} {W : Type ℓ} (cpu : ℤ) (desc : ℕ) (s : Files W) where
  -- The state while the descriptor's lock is held.
  abbrev pub in_call : Files W
  in_call = set_lock s desc (held_by cpu)

  pub in_call-desc :
      0 < desc
      → desc ≤ length s.descs
      → desc_at in_call desc ≡ record (desc_at s desc) { lock = held_by cpu }
  in_call-desc p q = ground (
    arith,
    get_or-set s.descs (desc - 1) (record (desc_at s desc) { lock = held_by cpu }) no_desc
        (desc - 1) (omega arith),
  )

  -- The unlock brings the descriptors back to what they were.
  unlocked :
      0 < desc
      → desc ≤ length s.descs
      → (desc_at s desc).lock ≡ released
      → (set_lock in_call desc (k_spinlock_unlock (desc_at in_call desc).lock)).descs ≡ s.descs
  unlocked p q free =
      let y : record (desc_at in_call desc) { lock = k_spinlock_unlock (desc_at in_call desc).lock }
          ≡ desc_at s desc =
        ap (λ (d : FileDesc W). record d { lock = k_spinlock_unlock d.lock }) (in_call-desc p q)
        ∙ (λ i. record (desc_at s desc) { lock = (unlock_held cpu ∙ sym free) i }) in
      ap (λ d. set in_call.descs (desc - 1) d) y
      ∙ set-back no_desc s.descs (desc - 1) _ (omega arith)

  -- A call that changes only the drivers' state leaves the descriptors as they were.
  pub with_lock-world :
      (f : Files W → ℤ × Files W) (r : ℤ) (w : W)
      → 0 < desc
      → desc ≤ length s.descs
      → (desc_at s desc).lock ≡ released
      → f in_call ≡ (r, record in_call { world = w })
      → with_lock cpu desc f s ≡ some (r, record s { world = w })
  unfolding with_lock
  with_lock-world f r w p q free e =
      rw (lock_free cpu (desc_at s desc).lock (ap (λ (l : SpinLock). l.val) free), e)
        (ap (λ ds. some (r, record s { descs = ds; world = w })) (unlocked p q free))
