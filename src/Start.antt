-- ===== src/Start.antt =====
-- sys/init.c: the arguments of the program, and the start of the drivers.
pub mod Args
pub mod Room
pub mod Layout
pub mod Program
pub mod Rounds
use baremetal_crt.Common.{
  ℕ, zero, suc, ◌+◌, ◌-◌, ◌*◌, ◌/◌, ◌%◌, ◌==◌, ltb, leb, Bool, true, false, Option, none, some,
  List, [], ◌∷◌, length, set, if◌then◌else◌, ◌>>=◌, ℤ, pos, eq_ℤ, is_nonzero, enomem, eagain,
}
use baremetal_crt.Device.{Tree, is_error, k_device_set_probe_all_enabled}

-- `argv`, an array on the main thread's stack, and `index_argv`.
pub record ArgArea : Type 0 where
  pub argv : List ℕ
  pub index_argv : ℕ

-- `argv[i] = p`; `none` is a write out of the array.
unfoldable pub write_slot : (i p : ℕ) → List ℕ → Option (List ℕ)
write_slot i p argv = if ltb i (length argv) then some (set argv i p) else none

-- `k_aux_start`, and the address of the program headers.
pub record AuxData : Type 0 where
  pub valid : Bool
  pub phent : ℕ
  pub phnum : ℕ
  pub phdr : ℕ

-- `k_comm_area`: whether its magic number is right, the number of arguments and its address. The sizes in
-- the headers of the arguments are read by `size_at`.
pub record CommArea : Type 0 where
  pub magic : Bool
  pub num_args : ℕ
  pub address : ℕ
  pub size_at : ℕ → ℕ

-- `ALIGN_OF(x, 8)`
abbrev pub align8 : ℕ → ℕ
align8 x = if x % 8 == 0 then x else (x / 8 + 1) * 8

-- CONFIG_COMM_MAX_ARGS and CONFIG_COMM_MAX_ENVS
module _ (max_args max_envs : ℕ) where
  -- MAX_ARGV
  abbrev pub max_argv : ℕ
  max_argv = max_args + 1 + max_envs + 1 + 10

  unfoldable pub add_argv : (p : ℕ) → ArgArea → Option (ℤ × ArgArea)
  unfolding write_slot
  add_argv p s = if leb max_argv s.index_argv then some (enomem, s) else (do
    argv ← write_slot s.index_argv p s.argv
    some (pos 0, record { argv = argv; index_argv = s.index_argv + 1 }))

  unfoldable pub add_env : (p : ℕ) → ArgArea → Option (ℤ × ArgArea)
  add_env p s = add_argv p s

  unfoldable pub add_aux : (typ p : ℕ) → ArgArea → Option (ℤ × ArgArea)
  unfolding write_slot
  add_aux typ p s = if leb (max_argv - 1) s.index_argv then some (enomem, s) else (do
    argv ← write_slot s.index_argv typ s.argv
    argv' ← write_slot (s.index_argv + 1) p argv
    some (pos 0, record { argv = argv'; index_argv = s.index_argv + 2 }))

  -- The loop of `map_argv` with `left` rounds to go. `sizeof(struct k_comm_arg_header)` is 16, and the area
  -- does not wrap round the address space; the results in the loop are only printed.
  unfoldable pub map_argv : (size_at : ℕ → ℕ) → (left buf : ℕ) → ArgArea → Option ArgArea
  map_argv size_at zero buf s = some s
  map_argv size_at (suc n) buf s = do
    (_, s') ← add_argv (buf + 16) s
    map_argv size_at n (align8 (buf + 16 + size_at buf)) s'

  -- The arguments of the communication area, which lie behind its header of 16 bytes.
  unfoldable pub read_args : CommArea → ArgArea → Option ArgArea
  read_args h s = if h.magic then map_argv h.size_at h.num_args (h.address + 16) s else some s

  -- `if (index_argv == 0) { ... }`
  unfoldable pub default_arg : (name : ℕ) → ArgArea → Option ArgArea
  unfolding write_slot
  default_arg name s =
      if s.index_argv == 0
      then (do argv ← write_slot 0 name s.argv; some (record { argv = argv; index_argv = 1 }))
      else some s

  -- AT_PHENT, AT_PHNUM and AT_PHDR are 4, 5 and 3.
  unfoldable pub add_headers : AuxData → ArgArea → Option ArgArea
  add_headers a s =
      if a.valid
      then (do
        (_, s1) ← add_aux 4 a.phent s
        (_, s2) ← add_aux 5 a.phnum s1
        (_, s3) ← add_aux 3 a.phdr s2
        some s3)
      else some s

  -- From the environment on; AT_RANDOM is 25 and AT_PAGESZ is 6, and the page size is 4096.
  unfoldable pub add_auxvs : (at_random : ℕ) → AuxData → ArgArea → Option ArgArea
  add_auxvs at_random a s = do
    (_, s1) ← add_env 0 s
    (_, s2) ← add_aux 25 at_random s1
    (_, s3) ← add_aux 6 4096 s2
    s4 ← add_headers a s3
    (_, s5) ← add_aux 0 0 s4
    some s5

  -- The result is `*argc` and the array; `stack` is what it holds before.
  unfoldable pub init_args :
      CommArea → (default_name at_random : ℕ) → AuxData → (stack : List ℕ) → Option (ℕ × ArgArea)
  init_args h default_name at_random a stack = do
    s1 ← read_args h (record { argv = stack; index_argv = 0 })
    s2 ← default_arg default_name s1
    s3 ← add_auxvs at_random a (record s2 { index_argv = s2.index_argv + 1 })
    some (s2.index_argv, s3)

-- The start of the drivers; `probe_all` is `k_device_probe_all`.
module _ {W : Type 0} (probe_all : Tree → W → Option (ℤ × Tree × W)) where
  -- The calls from `k_initcall_start` on.
  unfoldable pub run_initcalls :
      List (Tree → W → Option (ℤ × Tree × W)) → (res : ℤ) → Tree → W → Option (ℤ × Tree × W)
  run_initcalls [] res t w = some (res, t, w)
  run_initcalls (call ∷ calls) res t w = do
    (r, t', w') ← call t w
    run_initcalls calls (if is_nonzero r then r else res) t' w'

  -- The loop that probes until nothing is left for the next time.
  unfoldable pub probe_rounds : (fuel : ℕ) → (res : ℤ) → Tree → W → Option (ℤ × Tree × W)
  probe_rounds zero res t w = none
  probe_rounds (suc f) res t w = do
    (r, t', w') ← probe_all t w
    let again = probe_rounds f res t' w'
    if is_error r then some (r, t', w') else if eq_ℤ r eagain then again else some (res, t', w')

  unfoldable pub init_drivers :
      (fuel : ℕ) → List (Tree → W → Option (ℤ × Tree × W)) → Tree → W → Option (ℤ × Tree × W)
  unfolding run_initcalls probe_rounds k_device_set_probe_all_enabled
  init_drivers f calls t w = do
    (res, t1, w1) ← run_initcalls calls (pos 0) (k_device_set_probe_all_enabled false t).1 w
    probe_rounds f res (k_device_set_probe_all_enabled true t1).1 w1
