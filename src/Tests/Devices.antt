-- ===== src/Tests/Devices.antt =====
-- A tree of the root device, the root bus and two devices on it, and the arguments of a program.
use baremetal_crt.Common.{
  ℕ, ◌+◌, ◌==◌, ◌≡◌, inl, inr, refl, Bool, true, false, Option, none, some, List, [], ◌∷◌,
  if◌then◌else◌, ℤ, pos, eq_ℤ, arith,
}
use baremetal_crt.CString.{CString}
use baremetal_crt.Device.{Device, Bus, Tree, Conf, head, dev_root}
use baremetal_crt.Device.Probe.{at_device, k_device_probe_all}
use baremetal_crt.Device.Probe.Kept.{Extends, DriversEnd}
use baremetal_crt.Device.Probe.Reach.{Ends, AllProbed}
use baremetal_crt.Device.Probe.All.{k_device_probe_all-AllProbed}
use baremetal_crt.Device.Find.{k_bus_find_device}
use baremetal_crt.Device.Find.Found.{first_named, k_bus_find_device-first_named}

abbrev uart_conf : List Conf
uart_conf =
    record { name = b'r' ∷ b'e' ∷ b'g' ∷ []; count = pos 2; values = 4096 ∷ 256 ∷ [] }
    ∷ record { name = b'i' ∷ b'r' ∷ b'q' ∷ []; count = pos 1; values = 10 ∷ [] }
    ∷ []

abbrev device_of : (name : CString) → (parent child next : ℕ) → Device
device_of name parent child next = record {
  name = some name;
  type_vendor = b'n' ∷ [];
  type_device = name;
  conf = some uart_conf;
  drv = 1;
  bus_parent = parent;
  bus_child = child;
  dev_next = next;
  probed = false;
  failed = false;
}

abbrev bus_of : (first : ℕ) → Bus
bus_of first = record {
  name = some (b'b' ∷ []);
  type_vendor = b'n' ∷ [];
  type_device = b'b' ∷ [];
  drv = 1;
  dev_parent = 1;
  dev_child = first;
  bus_next = 0;
  probed = false;
  failed = false;
}

-- Device 1 is the root, 2 and 3 stand on the root bus, and 4 is on none.
abbrev pub tree_of : (enabled : Bool) → Tree
tree_of enabled = record {
  devices = λ x.
      if x == 1
      then device_of (b'r' ∷ []) 0 1 0
      else if x == 2
      then device_of (b'u' ∷ []) 1 0 3
      else if x == 3
      then device_of (b't' ∷ []) 1 0 0
      else device_of (b'g' ∷ []) 0 0 0;
  buses = λ x. bus_of 2;
  drivers = λ x. record { type_vendor = some []; type_device = some []; drv_next = 0 };
  probe_all_enabled = enabled;
}

-- A driver that counts the devices that it is given, and none for the buses.
abbrev pub count_add : (drv dev : ℕ) → Option (Tree → ℕ → ℤ × ℕ)
count_add drv dev = some (λ t w. (pos 0, w + 1))

abbrev pub no_add : (drv bus : ℕ) → Option (Tree → ℕ → ℤ × ℕ)
no_add drv bus = none

pub tree_of-Ends : Ends 6 (tree_of true) (at_device dev_root)
tree_of-Ends = inr (inr (inl refl, λ r. inr (inl refl, λ r'. inl refl)))

pub tree_of-DriversEnd : DriversEnd 6 ((tree_of true).drivers) head
tree_of-DriversEnd = inr ((λ h. cc h), (λ h. cc h), inl refl)

k_device_probe_all-AllProbed_example :
    (r : ℤ) × (u : Tree) × (v : ℕ) × (k_device_probe_all count_add no_add 6 6 (tree_of true) 0
      ≡ some (r, u, v))
    × Extends (tree_of true) u
    × (if eq_ℤ r (pos 0) then AllProbed u (at_device dev_root) else Unit {0})
k_device_probe_all-AllProbed_example =
    k_device_probe_all-AllProbed count_add no_add 6 6 (tree_of true) 0 tree_of-Ends
      tree_of-DriversEnd

k_bus_find_device-first_named_example :
    k_bus_find_device 4 (tree_of false) 1 (some (b'T' ∷ []))
    ≡ some (first_named (tree_of false) (b'T' ∷ []) (2 ∷ 3 ∷ []))
k_bus_find_device-first_named_example =
    k_bus_find_device-first_named 4 (tree_of false) 1 (b'T' ∷ []) (2 ∷ 3 ∷ []) (omega arith)
      (refl, omega arith, (refl, omega arith, refl)) ((_, refl), refl, ((_, refl), refl, tt))
      (omega arith)
