-- ===== src/Device/Add.antt =====
-- driver/device.c: drivers, devices and buses are added, and the tree is probed after each.
pub mod Append
use baremetal_crt.Common.{
  ℕ, zero, suc, ◌==◌, Bool, true, false, ◌||◌, Option, none, some, if◌then◌else◌, ◌>>=◌, ℤ, pos,
  enotsup, einval,
}
use baremetal_crt.Common.Chain.{last_link}
use baremetal_crt.CString.{CString}
use baremetal_crt.Device.{
  Device, Bus, Driver, Tree, head, dev_root, bus_root, set_device, set_bus, same_types,
  k_device_set_probe_all_enabled,
}
use baremetal_crt.Device.Probe.{k_device_probe_all}

-- `d->dev_next`, `b->bus_next` and `d->drv_next`
abbrev pub next_device : Tree → ℕ → ℕ
next_device t d = (t.devices d).dev_next

abbrev pub next_bus : Tree → ℕ → ℕ
next_bus t b = (t.buses b).bus_next

abbrev pub next_driver : Tree → ℕ → ℕ
next_driver t d = (t.drivers d).drv_next

-- The loop of `k_driver_add` from `p` on: the driver of the same types, or else 0 and the last driver.
unfoldable pub find_same_driver :
    (fuel : ℕ) → (drivers : ℕ → Driver) → (vendor device : CString) → (p last : ℕ) → Option (ℕ × ℕ)
find_same_driver zero ds v x p last = none
find_same_driver (suc f) ds v x p last =
    let rest = find_same_driver f ds v x ((ds p).drv_next) p in
    if p == 0
    then some (0, last)
    else same_types (ds p) v x >>= λ b. if b then some (p, last) else rest

-- `drv->drv_next = driver`
unfoldable pub link_driver : Tree → (last driver : ℕ) → Tree
link_driver t last driver = record t {
  drivers = λ x. if x == last then record (t.drivers x) { drv_next = driver } else t.drivers x;
}

-- `dev->bus_parent = parent`
abbrev pub set_parent : Tree → (dev parent : ℕ) → Tree
set_parent t dev parent = set_device t dev (record (t.devices dev) { bus_parent = parent })

-- The links that `k_device_add` makes: as the first child, or behind the last one.
unfoldable pub link_device : (fuel : ℕ) → Tree → (dev parent : ℕ) → Option Tree
link_device f t dev parent = do
  t1 ←
      if (t.buses parent).dev_child == 0
      then some (set_bus t parent (record (t.buses parent) { dev_child = dev }))
      else (do
        d ← last_link f (next_device t) ((t.buses parent).dev_child) 0
        some (set_device t d (record (t.devices d) { dev_next = dev })))
  some (set_parent t1 dev parent)

unfoldable pub link_bus : (fuel : ℕ) → Tree → (bus parent : ℕ) → Option Tree
link_bus f t bus parent = do
  t1 ←
      if (t.devices parent).bus_child == 0
      then some (set_device t parent (record (t.devices parent) { bus_child = bus }))
      else (do
        b ← last_link f (next_bus t) ((t.devices parent).bus_child) 0
        some (set_bus t b (record (t.buses b) { bus_next = bus })))
  some (set_bus t1 bus (record (t1.buses bus) { dev_parent = parent }))

abbrev pub is_null_name {ℓ} : {A : Type ℓ} → Option A → Bool
is_null_name none = true
is_null_name (some x) = false

module _ {W : Type 0} (add_device : (drv dev : ℕ) → Option (Tree → W → ℤ × W))
    (add_bus : (drv bus : ℕ) → Option (Tree → W → ℤ × W)) (fuel : ℕ) where
  -- The probe after an addition; its result is only printed.
  unfoldable pub probe_added : Tree → W → Option (ℤ × Tree × W)
  probe_added t w = do
    (_, t', w') ← k_device_probe_all add_device add_bus fuel fuel t w
    some (pos 0, t', w')

  unfoldable pub k_driver_add : (driver : ℕ) → Tree → W → Option (ℤ × Tree × W)
  k_driver_add driver t w = elim ((t.drivers driver).type_vendor) [
    | none ↦ some (einval, t, w)
    | some v ↦ elim ((t.drivers driver).type_device) [
      | none ↦ some (einval, t, w)
      | some x ↦ (do
        (same, last) ← find_same_driver fuel t.drivers v x head 0
        if same == 0 then probe_added (link_driver t last driver) w else some (einval, t, w))
    ]
  ]

  unfoldable pub k_device_add : (dev parent : ℕ) → Tree → W → Option (ℤ × Tree × W)
  k_device_add dev parent t w =
      if (dev == 0) || (parent == 0)
      then some (einval, t, w)
      else if is_null_name (t.devices dev).name
      then some (einval, t, w)
      else if (t.devices dev).bus_parent == 0
      then (do t' ← link_device fuel t dev parent; probe_added t' w)
      else some (einval, t, w)

  unfoldable pub k_bus_add : (bus parent : ℕ) → Tree → W → Option (ℤ × Tree × W)
  k_bus_add bus parent t w =
      if (bus == 0) || (parent == 0)
      then some (einval, t, w)
      else if is_null_name (t.buses bus).name
      then some (einval, t, w)
      else if (t.buses bus).dev_parent == 0
      then (do t' ← link_bus fuel t bus parent; probe_added t' w)
      else some (einval, t, w)

  -- `drv_root_bus` and `drv_root_dev` have the addresses 2 and 3.
  unfoldable pub bus_init : Tree → W → Option (ℤ × Tree × W)
  bus_init t w = do
    (_, t1, w1) ← k_driver_add 2 t w
    (_, t2, w2) ← k_bus_add bus_root dev_root t1 w1
    (_, t3, w3) ← k_driver_add 3 t2 w2
    some (pos 0, t3, w3)

unfoldable pub k_driver_remove : (driver : ℕ) → ℤ
k_driver_remove driver = enotsup

unfoldable pub k_device_remove : (dev : ℕ) → ℤ
k_device_remove dev = if dev == 0 then einval else enotsup

unfoldable pub k_bus_remove : (bus : ℕ) → ℤ
k_bus_remove bus = if bus == 0 then einval else enotsup
