-- ===== src/Start/Program.antt =====
-- What `init_args` leaves for the program, all of it together.
use baremetal_crt.Common.{
  ℕ, zero, suc, ◌+◌, ◌≤◌, ◌<◌, ◌≡◌, ◌==◌, refl, sym, ap, subst, inl, inr, Bool-cases, false, some,
  List, [], ◌∷◌, ◌++◌, length, length-append, if◌then◌else◌, arith,
}
use baremetal_crt.Start.{
  ArgArea, AuxData, CommArea, max_argv, align8, read_args, default_arg, init_args,
}
use baremetal_crt.Start.Args.{append_move, Filled, write_slot-end}
use baremetal_crt.Start.Layout.{arg_addresses, tail_words, map_argv-Filled, add_auxvs-Filled}

-- The arguments of the communication area.
abbrev pub given_args : CommArea → List ℕ
given_args h = if h.magic then arg_addresses h.size_at h.num_args (h.address + 16) else []

abbrev pub or_default : (default_name : ℕ) → List ℕ → List ℕ
or_default name [] = name ∷ []
or_default name (x ∷ xs) = x ∷ xs

module _ (max_args max_envs : ℕ) where
  length-given : (size_at : ℕ → ℕ) (n buf : ℕ) → length (arg_addresses size_at n buf) ≡ n
  length-given size_at zero buf = refl
  length-given size_at (suc n) buf =
      ap suc (length-given size_at n (align8 (buf + 16 + size_at buf)))

  length-or_default :
      (name : ℕ) (xs : List ℕ)
      → length xs ≤ max_args
      → 1 ≤ max_args
      → length (or_default name xs) ≤ max_args
  length-or_default name [] l m = m
  length-or_default name (x ∷ xs) l m = l

  read_args-Filled :
      (h : CommArea) (stack : List ℕ)
      → length stack ≡ max_argv max_args max_envs
      → h.num_args ≤ max_args
      → (s' : ArgArea) × (read_args max_args max_envs h (record { argv = stack; index_argv = 0 })
          ≡ some s')
        × Filled max_args max_envs (given_args h) s'
        × (length (given_args h) ≤ max_args)
  unfolding read_args
  read_args-Filled h stack t l =
      let start : Filled max_args max_envs [] (record { argv = stack; index_argv = 0 }) = record {
        rest = stack;
        argv_is = refl;
        index_is = refl;
        total = omega (arith, t);
      } in
      elim (Bool-cases h.magic) [
        | inl on ↦
            let (s', e, f) =
              map_argv-Filled max_args max_envs h.size_at h.num_args (h.address + 16) []
                (record { argv = stack; index_argv = 0 }) start (omega (arith, l)) in
            (
              s',
              rw on e,
              rw on f,
              rw on (omega (arith, l, length-given h.size_at h.num_args (h.address + 16))),
            )
        | inr off ↦
            (record { argv = stack; index_argv = 0 }, rw off, rw off start, rw off (omega arith))
      ]

  default_step :
      (name : ℕ) (rest : List ℕ)
      → length rest ≡ max_argv max_args max_envs
      → (s' : ArgArea) × (default_arg max_args max_envs name
            (record { argv = rest; index_argv = 0 })
          ≡ some s')
        × Filled max_args max_envs (name ∷ []) s'
  unfolding default_arg
  default_step name [] t = absurd (omega (arith, t))
  default_step name (y ∷ rest) t = (
    record { argv = name ∷ rest; index_argv = 1 },
    rw (write_slot-end max_args max_envs [] y name rest),
    record { rest = rest; argv_is = refl; index_is = refl; total = omega (arith, t) },
  )

  default_arg-Filled :
      (name : ℕ) (done : List ℕ) (s : ArgArea)
      → Filled max_args max_envs done s
      → (s' : ArgArea) × (default_arg max_args max_envs name s ≡ some s')
        × Filled max_args max_envs (or_default name done) s'
  unfolding default_arg
  default_arg-Filled name (x ∷ xs) s h =
      let some_args : (s.index_argv == 0) ≡ false = ground (arith, h.index_is) in
      (s, rw some_args, h)
  default_arg-Filled name [] s h =
      rw (h.argv_is, h.index_is) (default_step name h.rest (omega (arith, h.total)))

  skip_step :
      (done rest : List ℕ)
      → length done + length rest ≡ max_argv max_args max_envs
      → length done < max_argv max_args max_envs
      → (o : ℕ) × Filled max_args max_envs
          (done ++ o ∷ [])
          (record { argv = done ++ rest; index_argv = length done + 1 })
  skip_step done [] t l = absurd (omega (arith, t, l))
  skip_step done (y ∷ rest) t l = (
    y,
    record {
      rest = rest;
      argv_is = append_move done y rest;
      index_is = omega (arith, length-append done (y ∷ []));
      total = omega (arith, t, length-append done (y ∷ []));
    },
  )

  -- The slot behind the arguments is left as it is.
  skip_slot :
      (done : List ℕ) (s : ArgArea)
      → Filled max_args max_envs done s
      → length done < max_argv max_args max_envs
      → (o : ℕ) × Filled max_args max_envs
          (done ++ o ∷ [])
          (record s { index_argv = s.index_argv + 1 })
  skip_slot done s h l = rw (h.argv_is, h.index_is) (skip_step done h.rest h.total l)

  -- With no more arguments than CONFIG_COMM_MAX_ARGS, which is 1 or more, and CONFIG_COMM_MAX_ENVS 2 or more,
  -- `init_args` succeeds: `*argc` is the number of the arguments, which come first in the array (the default
  -- name where there are none); then, behind one slot of any content, the NULL that ends the environment and
  -- all the auxiliary vectors with their end.
  pub init_args-Filled :
      (h : CommArea) (default_name at_random : ℕ) (a : AuxData) (stack : List ℕ)
      → length stack ≡ max_argv max_args max_envs
      → h.num_args ≤ max_args
      → 1 ≤ max_args
      → 2 ≤ max_envs
      → (s : ArgArea) × (o : ℕ) × (init_args max_args max_envs h default_name at_random a stack
          ≡ some (length (or_default default_name (given_args h)), s))
        × Filled max_args max_envs
            (or_default default_name (given_args h) ++ o ∷ tail_words at_random a)
            s
  unfolding init_args
  init_args-Filled h name at_random a stack t l m v =
      let names = or_default name (given_args h) in
      let (s1, e1, h1, l1) = read_args-Filled h stack t l in
      let (s2, e2, h2) = default_arg-Filled name (given_args h) s1 h1 in
      let l2 : length names ≤ max_args = length-or_default name (given_args h) l1 m in
      let (o, h3) = skip_slot names s2 h2 (omega (arith, l2)) in
      let (s4, e4, h4) =
        add_auxvs-Filled max_args max_envs at_random a (names ++ o ∷ [])
          (record s2 { index_argv = s2.index_argv + 1 }) h3
          (omega (arith, l2, v, length-append names (o ∷ []))) in
      (
        s4,
        o,
        rw (e1, e2, e4) (ap (λ (n : ℕ). some (n, s4)) h2.index_is),
        subst (λ xs. Filled max_args max_envs xs s4)
            (sym (append_move names o (tail_words at_random a))) h4,
      )
