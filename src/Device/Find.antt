-- ===== src/Device/Find.antt =====
-- driver/device.c: the search for a device by its name.
pub mod Found
use baremetal_crt.Common.{
  ℕ, zero, suc, ◌==◌, Bool, true, false, ◌&&◌, not, Option, none, some, if◌then◌else◌, ◌>>=◌, ℤ,
  pos, eq_ℤ, eagain, einval, enodev,
}
use baremetal_crt.CString.{CString, k_strcasecmp}
use baremetal_crt.Device.{Tree, Bus, Device}

-- `tmp->probed && tmp->bus_child`
abbrev pub has_bus : Device → Bool
has_bus d = d.probed && not (d.bus_child == 0)

-- The loop of `k_bus_find_device` from the device `p` on, with its recursion, which does not come back to
-- the loop. The device is returned as 0 where none is stored; a name that is NULL faults.
unfoldable pub find_device_from : (fuel : ℕ) → Tree → (name : CString) → (p : ℕ) → Option (ℤ × ℕ)
find_device_from zero t name p = none
find_device_from (suc f) t name p =
    let below = find_device_from f t name ((t.buses ((t.devices p).bus_child)).dev_child) in
    let next = find_device_from f t name ((t.devices p).dev_next) in
    if p == 0
    then some (enodev, 0)
    else (t.devices p).name >>= λ n.
        if eq_ℤ (k_strcasecmp false name n) (pos 0)
        then (if (t.devices p).probed then some (pos 0, p) else some (eagain, 0))
        else if has_bus (t.devices p)
        then below
        else next

-- `name` is `none` for NULL; `dev` is not NULL.
unfoldable pub k_bus_find_device :
    (fuel : ℕ) → Tree → (bus : ℕ) → (name : Option CString) → Option (ℤ × ℕ)
unfolding find_device_from
k_bus_find_device f t bus none = some (einval, 0)
k_bus_find_device f t bus (some name) =
    if bus == 0 then some (einval, 0) else find_device_from f t name ((t.buses bus).dev_child)
