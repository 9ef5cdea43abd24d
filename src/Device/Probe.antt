-- ===== src/Device/Probe.antt =====
-- driver/device.c: drivers are attached to the devices and the buses of the tree, which are probed from
-- the root on. Walks and the recursion take fuel, and `none` is one that does not end with it.
pub mod Kept
pub mod Reach
pub mod All
use baremetal_crt.Common.{
  ℕ, zero, suc, ◌==◌, Bool, true, false, Option, none, some, if◌then◌else◌, ◌>>=◌, ℤ, pos, eq_ℤ,
  is_nonzero, eagain, einval,
}
use baremetal_crt.CString.{CString}
use baremetal_crt.Device.{
  Device, Bus, Driver, Tree, head, dev_root, set_device, set_bus, is_error, same_types,
}

-- The loop over the drivers from `p` on: the first of the types, or 0.
unfoldable pub find_driver :
    (fuel : ℕ) → (drivers : ℕ → Driver) → (vendor device : CString) → (p : ℕ) → Option ℕ
find_driver zero ds vendor device p = none
find_driver (suc f) ds vendor device p =
    let rest = find_driver f ds vendor device ((ds p).drv_next) in
    if p == 0 then some 0 else same_types (ds p) vendor device >>= λ b. if b then some p else rest

-- `drv == &head || !drv`
abbrev pub none_but_head : ℕ → Bool
none_but_head d = if d == head then true else d == 0

unfoldable pub bus_attach_driver : (fuel : ℕ) → Tree → (bus : ℕ) → Option (ℤ × Tree)
bus_attach_driver f t bus = do
  d ← find_driver f t.drivers (t.buses bus).type_vendor (t.buses bus).type_device head
  some (
      if none_but_head d
      then (eagain, t)
      else (pos 0, set_bus t bus (record (t.buses bus) { drv = d })))

unfoldable pub device_attach_driver : (fuel : ℕ) → Tree → (dev : ℕ) → Option (ℤ × Tree)
device_attach_driver f t dev = do
  d ← find_driver f t.drivers (t.devices dev).type_vendor (t.devices dev).type_device head
  some (
      if none_but_head d
      then (eagain, t)
      else (pos 0, set_device t dev (record (t.devices dev) { drv = d })))

-- What `add` returned decides the flags.
unfoldable pub mark_device : Tree → (dev : ℕ) → (r : ℤ) → Tree
mark_device t dev r =
    if eq_ℤ r (pos 0)
    then set_device t dev (record (t.devices dev) { probed = true })
    else if eq_ℤ r eagain
    then t
    else set_device t dev (record (t.devices dev) { failed = true })

unfoldable pub mark_bus : Tree → (bus : ℕ) → (r : ℤ) → Tree
mark_bus t bus r =
    if eq_ℤ r (pos 0)
    then set_bus t bus (record (t.buses bus) { probed = true })
    else if eq_ℤ r eagain
    then t
    else set_bus t bus (record (t.buses bus) { failed = true })

-- Where a probe stands: a device, a bus, or the devices from `dev` on of a bus whose result is `r` so far.
pub data Job : Type 0 where
  at_device : (dev : ℕ) → Job
  at_bus : (bus : ℕ) → Job
  at_siblings : (dev : ℕ) → (r : ℤ) → Job

-- The drivers act on a state `W`; `add` of one without the operation is `none`. They read the tree and do
-- not change it. `df` is the fuel for the walks over the drivers.
module _ {W : Type 0} (add_device : (drv dev : ℕ) → Option (Tree → W → ℤ × W))
    (add_bus : (drv bus : ℕ) → Option (Tree → W → ℤ × W)) (df : ℕ) where
  -- `if (!dev->drv) device_attach_driver(dev);`
  unfoldable pub attach_device_if : Tree → (dev : ℕ) → Option Tree
  attach_device_if t dev =
      if (t.devices dev).drv == 0
      then (do (_, t') ← device_attach_driver df t dev; some t')
      else some t

  unfoldable pub attach_bus_if : Tree → (bus : ℕ) → Option Tree
  attach_bus_if t bus =
      if (t.buses bus).drv == 0 then (do (_, t') ← bus_attach_driver df t bus; some t') else some t

  -- `if (dev->drv && !dev->probed) { ... }`
  unfoldable pub run_add_device : Tree → (dev : ℕ) → W → ℤ × Tree × W
  run_add_device t dev w =
      if (t.devices dev).probed
      then (pos 0, t, w)
      else elim (add_device ((t.devices dev).drv) dev) [
        | none ↦ (pos 0, mark_device t dev (pos 0), w)
        | some add ↦ let (r, w') = add t w in (r, mark_device t dev r, w')
      ]

  unfoldable pub run_add_bus : Tree → (bus : ℕ) → W → ℤ × Tree × W
  run_add_bus t bus w =
      if ((t.buses bus).drv == 0)
      then (pos 0, t, w)
      else if (t.buses bus).probed
      then (pos 0, t, w)
      else elim (add_bus ((t.buses bus).drv) bus) [
        | none ↦ (pos 0, mark_bus t bus (pos 0), w)
        | some add ↦ let (r, w') = add t w in (r, mark_bus t bus r, w')
      ]

  abbrev pub Probing : Type 0
  Probing = Option (ℤ × Tree × W)

  -- The end of `device_probe`, given the probe of its bus.
  unfoldable pub device_children :
      (deeper : Job → Tree → W → Probing) → (dev : ℕ) → ℤ × Tree × W → Probing
  device_children deeper dev (r, t, w) =
      if is_nonzero r
      then some (r, t, w)
      else if (t.devices dev).probed
      then (if (t.devices dev).bus_child == 0
          then some (pos 0, t, w)
          else deeper (at_bus ((t.devices dev).bus_child)) t w)
      else some (pos 0, t, w)

  unfoldable pub device_probe : (deeper : Job → Tree → W → Probing) → (dev : ℕ) → Tree → W → Probing
  unfolding attach_device_if run_add_device device_children
  device_probe deeper dev t w = if dev == 0 then some (einval, t, w) else (do
    t1 ← attach_device_if t dev
    if (t1.devices dev).drv == 0
        then some (eagain, t1, w)
        else device_children deeper dev (run_add_device t1 dev w))

  unfoldable pub bus_children :
      (deeper : Job → Tree → W → Probing) → (bus : ℕ) → ℤ × Tree × W → Probing
  bus_children deeper bus (r, t, w) =
      if is_nonzero r
      then some (r, t, w)
      else deeper (at_siblings ((t.buses bus).dev_child) (pos 0)) t w

  unfoldable pub bus_probe : (deeper : Job → Tree → W → Probing) → (bus : ℕ) → Tree → W → Probing
  unfolding attach_bus_if run_add_bus bus_children
  bus_probe deeper bus t w =
      if bus == 0
      then some (einval, t, w)
      else (do t1 ← attach_bus_if t bus; bus_children deeper bus (run_add_bus t1 bus w))

  -- One round of the loop over the devices of a bus.
  unfoldable pub probe_siblings :
      (deeper : Job → Tree → W → Probing) → (dev : ℕ) → (r : ℤ) → Tree → W → Probing
  probe_siblings deeper dev r t w = if dev == 0 then some (r, t, w) else (do
    (s, t', w') ← deeper (at_device dev) t w
    if is_error s
        then some (s, t', w')
        else deeper (at_siblings ((t'.devices dev).dev_next) (if eq_ℤ s eagain then eagain else r))
            t' w')

  -- The recursion of `device_probe` and `bus_probe`.
  unfoldable pub probe : (fuel : ℕ) → Job → Tree → W → Probing
  unfolding device_probe bus_probe probe_siblings
  probe zero j t w = none
  probe (suc f) (at_device dev) t w = device_probe (probe f) dev t w
  probe (suc f) (at_bus bus) t w = bus_probe (probe f) bus t w
  probe (suc f) (at_siblings dev r) t w = probe_siblings (probe f) dev r t w

  unfoldable pub k_device_probe_all : (fuel : ℕ) → Tree → W → Probing
  unfolding probe
  k_device_probe_all f t w =
      if t.probe_all_enabled then probe f (at_device dev_root) t w else some (eagain, t, w)
