-- ===== src/Start/Room.antt =====
-- The array of the arguments is never written out of its bounds, whatever the host asks for.
use baremetal_crt.Common.{
  ℕ, zero, suc, ◌+◌, ◌-◌, ◌<◌, ◌≡◌, ◌==◌, leb, ltb, refl, ◌∙◌, inl, inr, Bool-cases, true, some,
  List, length, length-set, set, ℤ, pos, enomem, arith,
}
use baremetal_crt.Start.{
  ArgArea, write_slot, AuxData, CommArea, max_argv, add_argv, add_env, add_aux, align8, map_argv,
  read_args, default_arg, add_headers, add_auxvs, init_args,
}

module _ (max_args max_envs : ℕ) where
  -- The array has room for MAX_ARGV pointers.
  abbrev pub HasRoom : ArgArea → Type 0
  HasRoom s = length s.argv ≡ max_argv max_args max_envs

  write_slot-inside :
      (i p : ℕ) (argv : List ℕ) → i < length argv → write_slot i p argv ≡ some (set argv i p)
  unfolding write_slot
  write_slot-inside i p argv l =
      let inside : ltb i (length argv) ≡ true = ground (arith, l) in rw inside

  add_argv-HasRoom :
      (p : ℕ) (s : ArgArea)
      → HasRoom s
      → (r : ℤ) × (s' : ArgArea) × (add_argv max_args max_envs p s ≡ some (r, s')) × HasRoom s'
  unfolding add_argv
  add_argv-HasRoom p s h = elim (Bool-cases (leb (max_argv max_args max_envs) s.index_argv)) [
    | inl full ↦ (enomem, s, rw full, h)
    | inr free ↦ (
      pos 0,
      record { argv = set s.argv s.index_argv p; index_argv = s.index_argv + 1 },
      rw (free, write_slot-inside s.index_argv p s.argv (ground (arith, h, free))),
      length-set s.argv s.index_argv p ∙ h,
    )
  ]

  add_aux-HasRoom :
      (typ p : ℕ) (s : ArgArea)
      → HasRoom s
      → (r : ℤ) × (s' : ArgArea) × (add_aux max_args max_envs typ p s ≡ some (r, s')) × HasRoom s'
  unfolding add_aux
  add_aux-HasRoom typ p s h =
      elim (Bool-cases (leb (max_argv max_args max_envs - 1) s.index_argv)) [
        | inl full ↦ (enomem, s, rw full, h)
        | inr free ↦
            let i = s.index_argv in
            let first = set s.argv i typ in
            (
              pos 0,
              record { argv = set first (i + 1) p; index_argv = i + 2 },
              rw (
                free,
                write_slot-inside i typ s.argv (ground (arith, h, free)),
                write_slot-inside (i + 1) p first
                    (ground (arith, h, free, length-set s.argv i typ)),
              ),
              length-set first (i + 1) p ∙ length-set s.argv i typ ∙ h,
            )
      ]

  map_argv-HasRoom :
      (size_at : ℕ → ℕ) (n buf : ℕ) (s : ArgArea)
      → HasRoom s
      → (s' : ArgArea) × (map_argv max_args max_envs size_at n buf s ≡ some s') × HasRoom s'
  unfolding map_argv
  map_argv-HasRoom size_at zero buf s h = (s, refl, h)
  map_argv-HasRoom size_at (suc n) buf s h =
      let (r, s1, e, g) = add_argv-HasRoom (buf + 16) s h in
      let (s2, f, k) = map_argv-HasRoom size_at n (align8 (buf + 16 + size_at buf)) s1 g in
      (s2, rw e f, k)

  read_args-HasRoom :
      (h : CommArea) (s : ArgArea)
      → HasRoom s
      → (s' : ArgArea) × (read_args max_args max_envs h s ≡ some s') × HasRoom s'
  unfolding read_args
  read_args-HasRoom h s g = elim (Bool-cases h.magic) [
    | inl on ↦
        let (s', e, k) = map_argv-HasRoom h.size_at h.num_args (h.address + 16) s g in
        (s', rw on e, k)
    | inr off ↦ (s, rw off, g)
  ]

  default_arg-HasRoom :
      (name : ℕ) (s : ArgArea)
      → HasRoom s
      → (s' : ArgArea) × (default_arg max_args max_envs name s ≡ some s') × HasRoom s'
  unfolding default_arg
  default_arg-HasRoom name s h = elim (Bool-cases (s.index_argv == 0)) [
    | inl empty ↦ (
      record { argv = set s.argv 0 name; index_argv = 1 },
      rw (empty, write_slot-inside 0 name s.argv (omega (arith, h))),
      length-set s.argv 0 name ∙ h,
    )
    | inr given ↦ (s, rw given, h)
  ]

  add_headers-HasRoom :
      (a : AuxData) (s : ArgArea)
      → HasRoom s
      → (s' : ArgArea) × (add_headers max_args max_envs a s ≡ some s') × HasRoom s'
  unfolding add_headers
  add_headers-HasRoom a s h = elim (Bool-cases a.valid) [
    | inr off ↦ (s, rw off, h)
    | inl on ↦
        let (r1, s1, e1, h1) = add_aux-HasRoom 4 a.phent s h in
        let (r2, s2, e2, h2) = add_aux-HasRoom 5 a.phnum s1 h1 in
        let (r3, s3, e3, h3) = add_aux-HasRoom 3 a.phdr s2 h2 in (s3, rw (on, e1, e2, e3), h3)
  ]

  add_auxvs-HasRoom :
      (at_random : ℕ) (a : AuxData) (s : ArgArea)
      → HasRoom s
      → (s' : ArgArea) × (add_auxvs max_args max_envs at_random a s ≡ some s') × HasRoom s'
  unfolding add_auxvs add_env
  add_auxvs-HasRoom at_random a s h =
      let (r1, s1, e1, h1) = add_argv-HasRoom 0 s h in
      let (r2, s2, e2, h2) = add_aux-HasRoom 25 at_random s1 h1 in
      let (r3, s3, e3, h3) = add_aux-HasRoom 6 4096 s2 h2 in
      let (s4, e4, h4) = add_headers-HasRoom a s3 h3 in
      let (r5, s5, e5, h5) = add_aux-HasRoom 0 0 s4 h4 in (s5, rw (e1, e2, e3, e4, e5), h5)

  -- For an array of MAX_ARGV pointers `init_args` never writes outside it, whatever number of arguments the
  -- communication area tells, and whatever their sizes.
  pub init_args-HasRoom :
      (h : CommArea) (default_name at_random : ℕ) (a : AuxData) (stack : List ℕ)
      → length stack ≡ max_argv max_args max_envs
      → (argc : ℕ) × (s : ArgArea) × (init_args max_args max_envs h default_name at_random a stack
          ≡ some (argc, s))
        × HasRoom s
  unfolding init_args
  init_args-HasRoom h name at_random a stack t =
      let (s1, e1, h1) = read_args-HasRoom h (record { argv = stack; index_argv = 0 }) t in
      let (s2, e2, h2) = default_arg-HasRoom name s1 h1 in
      let (s3, e3, h3) =
        add_auxvs-HasRoom at_random a (record s2 { index_argv = s2.index_argv + 1 }) h2 in
      (s2.index_argv, s3, rw (e1, e2, e3), h3)
