-- ===== src/Start/Layout.antt =====
-- What `init_args` leaves for the program: its arguments, the environment and the auxiliary vectors.
use baremetal_crt.Common.{
  ℕ, zero, suc, ◌+◌, ◌-◌, ◌≤◌, ◌<◌, ◌≡◌, leb, refl, sym, subst, inl, inr, Bool-cases, false, some,
  List, [], ◌∷◌, ◌++◌, length, length-append, if◌then◌else◌, pos, arith,
}
use mathlib.Core.List.{append-nil, append_assoc}
use baremetal_crt.Start.{
  ArgArea, AuxData, write_slot, max_argv, add_env, add_aux, align8, map_argv, add_headers,
  add_auxvs,
}
use baremetal_crt.Start.Args.{append_move, Filled, passed, write_slot-end, add_argv-Filled}

-- The addresses of the next `left` arguments, whose headers start at `buf`.
abbrev pub arg_addresses : (size_at : ℕ → ℕ) → (left buf : ℕ) → List ℕ
arg_addresses size_at zero buf = []
arg_addresses size_at (suc n) buf =
    (buf + 16) ∷ arg_addresses size_at n (align8 (buf + 16 + size_at buf))

-- The words for the program headers.
abbrev pub header_words : AuxData → List ℕ
header_words a = if a.valid then 4 ∷ a.phent ∷ 5 ∷ a.phnum ∷ 3 ∷ a.phdr ∷ [] else []

-- The NULL that ends the environment, and the auxiliary vectors.
abbrev pub tail_words : (at_random : ℕ) → AuxData → List ℕ
tail_words at_random a = 0 ∷ 25 ∷ at_random ∷ 6 ∷ 4096 ∷ header_words a ++ 0 ∷ 0 ∷ []

module _ (max_args max_envs : ℕ) where
  aux_step :
      (typ p : ℕ) (done rest : List ℕ)
      → length done + length rest ≡ max_argv max_args max_envs
      → length done + 1 < max_argv max_args max_envs
      → (s' : ArgArea) × (add_aux max_args max_envs typ p
            (record { argv = done ++ rest; index_argv = length done })
          ≡ some (pos 0, s'))
        × Filled max_args max_envs ((done ++ typ ∷ []) ++ p ∷ []) s'
  unfolding add_aux
  aux_step typ p done [] t l = absurd (omega (arith, t, l))
  aux_step typ p done (x ∷ []) t l = absurd (omega (arith, t, l))
  aux_step typ p done (x ∷ y ∷ rest) t l =
      let room : leb (max_argv max_args max_envs - 1) (length done) ≡ false = ground (arith, l) in
      let more : length (done ++ typ ∷ []) ≡ length done + 1 =
        omega (arith, length-append done (typ ∷ [])) in
      let second : write_slot (length done + 1) p ((done ++ typ ∷ []) ++ y ∷ rest)
          ≡ some (((done ++ typ ∷ []) ++ p ∷ []) ++ rest) =
        subst
          (λ n.
            write_slot n p ((done ++ typ ∷ []) ++ y ∷ rest)
            ≡ some (((done ++ typ ∷ []) ++ p ∷ []) ++ rest))
          more (write_slot-end max_args max_envs (done ++ typ ∷ []) y p rest) in
      let f = passed max_args max_envs (done ++ typ ∷ []) y rest (omega (arith, t, more)) p in
      (
        record { argv = ((done ++ typ ∷ []) ++ p ∷ []) ++ rest; index_argv = length done + 2 },
        rw (room, write_slot-end max_args max_envs done x typ (y ∷ rest), second),
        record {
          rest = f.rest;
          argv_is = f.argv_is;
          index_is = omega (arith, f.index_is, more);
          total = f.total;
        },
      )

  add_aux-Filled :
      (typ p : ℕ) (done : List ℕ) (s : ArgArea)
      → Filled max_args max_envs done s
      → length done + 1 < max_argv max_args max_envs
      → (s' : ArgArea) × (add_aux max_args max_envs typ p s ≡ some (pos 0, s'))
        × Filled max_args max_envs (done ++ typ ∷ p ∷ []) s'
  add_aux-Filled typ p done s h l =
      rw (h.argv_is, h.index_is, append_move done typ (p ∷ []))
        (aux_step typ p done h.rest h.total l)

  pub map_argv-Filled :
      (size_at : ℕ → ℕ) (n buf : ℕ) (done : List ℕ) (s : ArgArea)
      → Filled max_args max_envs done s
      → length done + n ≤ max_argv max_args max_envs
      → (s' : ArgArea) × (map_argv max_args max_envs size_at n buf s ≡ some s')
        × Filled max_args max_envs (done ++ arg_addresses size_at n buf) s'
  unfolding map_argv
  map_argv-Filled size_at zero buf done s h l = (s, refl, rw append-nil h)
  map_argv-Filled size_at (suc n) buf done s h l =
      let (s1, e, g) = add_argv-Filled max_args max_envs (buf + 16) done s h (omega (arith, l)) in
      let (s2, f, k) =
        map_argv-Filled size_at n (align8 (buf + 16 + size_at buf)) (done ++ (buf + 16) ∷ []) s1 g
          (omega (arith, l, length-append done ((buf + 16) ∷ []))) in
      (
        s2,
        rw e f,
        subst (λ xs. Filled max_args max_envs xs s2)
            (sym (
              append_move done (buf + 16)
                (arg_addresses size_at n (align8 (buf + 16 + size_at buf)))))
            k,
      )

  add_headers-Filled :
      (a : AuxData) (done : List ℕ) (s : ArgArea)
      → Filled max_args max_envs done s
      → length done + 6 ≤ max_argv max_args max_envs
      → (s' : ArgArea) × (add_headers max_args max_envs a s ≡ some s')
        × Filled max_args max_envs (done ++ header_words a) s'
  unfolding add_headers
  add_headers-Filled a done s h l = elim (Bool-cases a.valid) [
    | inr off ↦ (s, rw off, rw (off, append-nil) h)
    | inl on ↦
        let d1 = done ++ 4 ∷ a.phent ∷ [] in
        let d2 = d1 ++ 5 ∷ a.phnum ∷ [] in
        let l1 : length d1 ≡ length done + 2 =
          omega (arith, length-append done (4 ∷ a.phent ∷ [])) in
        let l2 : length d2 ≡ length done + 4 =
          omega (arith, l1, length-append d1 (5 ∷ a.phnum ∷ [])) in
        let (s1, e1, h1) = add_aux-Filled 4 a.phent done s h (omega (arith, l)) in
        let (s2, e2, h2) = add_aux-Filled 5 a.phnum d1 s1 h1 (omega (arith, l, l1)) in
        let (s3, e3, h3) = add_aux-Filled 3 a.phdr d2 s2 h2 (omega (arith, l, l2)) in
        (
          s3,
          rw (on, e1, e2, e3),
          subst (λ xs. Filled max_args max_envs xs s3) (rw on (simp append_assoc)) h3,
        )
  ]

  pub add_auxvs-Filled :
      (at_random : ℕ) (a : AuxData) (done : List ℕ) (s : ArgArea)
      → Filled max_args max_envs done s
      → length done + 13 ≤ max_argv max_args max_envs
      → (s' : ArgArea) × (add_auxvs max_args max_envs at_random a s ≡ some s')
        × Filled max_args max_envs (done ++ tail_words at_random a) s'
  unfolding add_auxvs add_env
  add_auxvs-Filled at_random a done s h l =
      let d1 = done ++ 0 ∷ [] in
      let d2 = d1 ++ 25 ∷ at_random ∷ [] in
      let d3 = d2 ++ 6 ∷ 4096 ∷ [] in
      let l1 : length d1 ≡ length done + 1 = omega (arith, length-append done (0 ∷ [])) in
      let l2 : length d2 ≡ length done + 3 =
        omega (arith, l1, length-append d1 (25 ∷ at_random ∷ [])) in
      let l3 : length d3 ≡ length done + 5 = omega (arith, l2, length-append d2 (6 ∷ 4096 ∷ [])) in
      let hw : length (header_words a) ≤ 6 = ground arith in
      let (s1, e1, h1) = add_argv-Filled max_args max_envs 0 done s h (omega (arith, l)) in
      let (s2, e2, h2) = add_aux-Filled 25 at_random d1 s1 h1 (omega (arith, l, l1)) in
      let (s3, e3, h3) = add_aux-Filled 6 4096 d2 s2 h2 (omega (arith, l, l2)) in
      let (s4, e4, h4) = add_headers-Filled a d3 s3 h3 (omega (arith, l, l3)) in
      let (s5, e5, h5) =
        add_aux-Filled 0 0 (d3 ++ header_words a) s4 h4
          (omega (arith, l, l3, hw, length-append d3 (header_words a))) in
      (
        s5,
        rw (e1, e2, e3, e4, e5),
        subst (λ xs. Filled max_args max_envs xs s5) (simp append_assoc) h5,
      )
