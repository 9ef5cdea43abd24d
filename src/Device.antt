-- ===== src/Device.antt =====
-- driver/device.c with include/bmetal/device.h: the tree of devices and buses, and their drivers.
-- A pointer is a number and NULL is 0; devices, buses and drivers each have pointers of their own. The
-- fields `id`, `io_base` and `priv` are left to the drivers.
pub mod Config
pub mod Probe
pub mod Add
pub mod Find
use baremetal_crt.Common.{
  ℕ, ◌==◌, Bool, true, false, ◌&&◌, Option, none, some, List, if◌then◌else◌, ◌>>=◌, ℤ, pos, eq_ℤ,
  is_nonzero, not, eagain,
}
use baremetal_crt.CString.{CString, k_strcmp}

-- `struct k_device_config`; `values` is the array `val`.
pub record Conf : Type 0 where
  pub name : CString
  pub count : ℤ
  pub values : List ℕ

-- `conf` is an array that ends at an entry without a name, or NULL.
pub record Device : Type 0 where
  pub name : Option CString
  pub type_vendor : CString
  pub type_device : CString
  pub conf : Option (List Conf)
  pub drv : ℕ
  pub bus_parent : ℕ
  pub bus_child : ℕ
  pub dev_next : ℕ
  pub probed : Bool
  pub failed : Bool

pub record Bus : Type 0 where
  pub name : Option CString
  pub type_vendor : CString
  pub type_device : CString
  pub drv : ℕ
  pub dev_parent : ℕ
  pub dev_child : ℕ
  pub bus_next : ℕ
  pub probed : Bool
  pub failed : Bool

pub record Driver : Type 0 where
  pub type_vendor : Option CString
  pub type_device : Option CString
  pub drv_next : ℕ

pub record Tree : Type 0 where
  pub devices : ℕ → Device
  pub buses : ℕ → Bus
  pub drivers : ℕ → Driver
  pub probe_all_enabled : Bool

-- The addresses of `dev_root`, `bus_root` and of the driver `head`.
abbrev pub dev_root : ℕ
dev_root = 1

abbrev pub bus_root : ℕ
bus_root = 1

abbrev pub head : ℕ
head = 1

unfoldable pub set_device : Tree → (dev : ℕ) → Device → Tree
set_device t dev d = record t { devices = λ x. if x == dev then d else t.devices x }

unfoldable pub set_bus : Tree → (bus : ℕ) → Bus → Tree
set_bus t bus b = record t { buses = λ x. if x == bus then b else t.buses x }

unfoldable pub k_device_get_probe_all_enabled : Tree → Bool
k_device_get_probe_all_enabled t = t.probe_all_enabled

unfoldable pub k_device_set_probe_all_enabled : (en : Bool) → Tree → ℤ × Tree
k_device_set_probe_all_enabled en t = (pos 0, record t { probe_all_enabled = en })

-- `IS_ERROR(r)`
abbrev pub is_error : ℤ → Bool
is_error r = is_nonzero r && not (eq_ℤ r eagain)

-- The test of both types in the loops over the drivers; a NULL type faults.
unfoldable pub same_types : Driver → (vendor device : CString) → Option Bool
same_types d vendor device = do
  v ← d.type_vendor
  t ← d.type_device
  some (eq_ℤ (k_strcmp false v vendor) (pos 0) && eq_ℤ (k_strcmp false t device) (pos 0))
