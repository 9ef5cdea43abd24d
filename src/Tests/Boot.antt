-- ===== src/Tests/Boot.antt =====
-- The start: the arguments that the host gives, and the rounds of probes over the tree of the devices.
use baremetal_crt.Common.{
  ℕ, zero, suc, ◌≡◌, refl, true, Option, none, some, List, [], ◌∷◌, ◌++◌, ℤ, pos, arith, length,
}
use baremetal_crt.Device.{Tree, dev_root, set_device, set_bus}
use baremetal_crt.Device.Probe.{at_device, k_device_probe_all, probe, mark_device, mark_bus}
use baremetal_crt.Device.Probe.Kept.{Extends}
use baremetal_crt.Device.Probe.Reach.{AllProbed}
use baremetal_crt.Start.{ArgArea, AuxData, CommArea, init_args, probe_rounds}
use baremetal_crt.Start.Layout.{tail_words}
use baremetal_crt.Start.Program.{given_args, or_default, init_args-Filled}
use baremetal_crt.Start.Args.{Filled}
use baremetal_crt.Start.Room.{HasRoom, init_args-HasRoom}
use baremetal_crt.Start.Rounds.{probe_rounds-AllProbed}
use baremetal_crt.Tests.Devices.{tree_of, count_add, no_add, tree_of-Ends, tree_of-DriversEnd}

abbrev zeros : ℕ → List ℕ
zeros zero = []
zeros (suc n) = 0 ∷ zeros n

-- An argument of 5 bytes.
abbrev comm : (num_args : ℕ) → CommArea
comm n = record { magic = true; num_args = n; address = 4096; size_at = λ _. 5 }

abbrev aux : AuxData
aux = record { valid = true; phent = 56; phnum = 4; phdr = 64 }

init_args-Filled_example :
    (s : ArgArea) × (o : ℕ) × (init_args 1 2 (comm 1) 77 88 aux (zeros 15)
      ≡ some (length (or_default 77 (given_args (comm 1))), s))
    × Filled 1 2 (or_default 77 (given_args (comm 1)) ++ o ∷ tail_words 88 aux) s
init_args-Filled_example =
    init_args-Filled 1 2 (comm 1) 77 88 aux (zeros 15) refl (omega arith) (omega arith)
      (omega arith)

init_args-HasRoom_example :
    (argc : ℕ) × (s : ArgArea) × (init_args 1 2 (comm 1000) 77 88 aux (zeros 15) ≡ some (argc, s))
    × HasRoom 1 2 s
init_args-HasRoom_example = init_args-HasRoom 1 2 (comm 1000) 77 88 aux (zeros 15) refl

abbrev rounds : Option (ℤ × Tree × ℕ)
rounds = probe_rounds (k_device_probe_all count_add no_add 6 6) 1 (pos 0) (tree_of true) 0

abbrev tree_in : Option (ℤ × Tree × ℕ) → Tree
tree_in none = tree_of true
tree_in (some (r, t, w)) = t

rounds_end : rounds ≡ some (pos 0, tree_in rounds, 3)
unfolding probe_rounds k_device_probe_all probe set_device set_bus mark_device mark_bus
rounds_end = refl

probe_rounds-AllProbed_example :
    AllProbed (tree_in rounds) (at_device dev_root)
    × (pos 0 ≡ pos 0)
    × Extends (tree_of true) (tree_in rounds)
probe_rounds-AllProbed_example =
    probe_rounds-AllProbed count_add no_add 6 1 (pos 0) (tree_of true) 0 (tree_in rounds) 3
      tree_of-Ends tree_of-DriversEnd rounds_end
