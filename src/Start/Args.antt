-- ===== src/Start/Args.antt =====
-- The array of the arguments: every write is inside it, and what it holds in the end.
use baremetal_crt.Common.{
  ℕ, ◌+◌, ◌<◌, ◌≡◌, leb, ltb, refl, ap, true, false, some, List, [], ◌∷◌, ◌++◌, length,
  length-append, set, pos, arith,
}
use baremetal_crt.Start.{ArgArea, write_slot, max_argv, add_argv}

set_append :
    (xs : List ℕ) (y v : ℕ) (ys : List ℕ) → set (xs ++ y ∷ ys) (length xs) v ≡ (xs ++ v ∷ []) ++ ys
set_append [] y v ys = refl
set_append (x ∷ xs) y v ys = ap (λ zs. x ∷ zs) (set_append xs y v ys)

pub append_move : (xs : List ℕ) (y : ℕ) (ys : List ℕ) → xs ++ y ∷ ys ≡ (xs ++ y ∷ []) ++ ys
append_move [] y ys = refl
append_move (x ∷ xs) y ys = ap (λ zs. x ∷ zs) (append_move xs y ys)

module _ (max_args max_envs : ℕ) where
  -- The slots before `index_argv` hold `done`.
  pub record Filled (done : List ℕ) (s : ArgArea) : Type 0 where
    pub rest : List ℕ
    pub argv_is : s.argv ≡ done ++ rest
    pub index_is : s.index_argv ≡ length done
    pub total : length done + length rest ≡ max_argv max_args max_envs

  -- One more slot in use, whose old content is `y`.
  pub passed :
      (done : List ℕ) (y : ℕ) (rest : List ℕ)
      → length done + length (y ∷ rest) ≡ max_argv max_args max_envs
      → (v : ℕ)
      → Filled
          (done ++ v ∷ [])
          (record { argv = (done ++ v ∷ []) ++ rest; index_argv = length done + 1 })
  passed done y rest t v = record {
    rest = rest;
    argv_is = refl;
    index_is = omega (arith, length-append done (v ∷ []));
    total = omega (arith, t, length-append done (v ∷ []));
  }

  pub write_slot-end :
      (done : List ℕ) (y v : ℕ) (rest : List ℕ)
      → write_slot (length done) v (done ++ y ∷ rest) ≡ some ((done ++ v ∷ []) ++ rest)
  unfolding write_slot
  write_slot-end done y v rest =
      let inside : ltb (length done) (length (done ++ y ∷ rest)) ≡ true =
        ground (arith, length-append done (y ∷ rest)) in
      rw inside (ap some (set_append done y v rest))

  slot_step :
      (p : ℕ) (done rest : List ℕ)
      → length done + length rest ≡ max_argv max_args max_envs
      → length done < max_argv max_args max_envs
      → (s' : ArgArea) × (add_argv max_args max_envs p
            (record { argv = done ++ rest; index_argv = length done })
          ≡ some (pos 0, s'))
        × Filled (done ++ p ∷ []) s'
  unfolding add_argv
  slot_step p done [] t l = absurd (omega (arith, t, l))
  slot_step p done (y ∷ rest) t l =
      let room : leb (max_argv max_args max_envs) (length done) ≡ false = ground (arith, l) in
      (_, rw (room, write_slot-end done y p rest), passed done y rest t p)

  pub add_argv-Filled :
      (p : ℕ) (done : List ℕ) (s : ArgArea)
      → Filled done s
      → length done < max_argv max_args max_envs
      → (s' : ArgArea) × (add_argv max_args max_envs p s ≡ some (pos 0, s'))
        × Filled (done ++ p ∷ []) s'
  add_argv-Filled p done s h l = rw (h.argv_is, h.index_is) (slot_step p done h.rest h.total l)
