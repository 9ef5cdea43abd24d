-- ===== src/Device/Config.antt =====
-- driver/device.c: the properties of a device's configuration.
pub mod Lookup
use baremetal_crt.Common.{
  ℕ, zero, suc, ◌+◌, ◌%◌, ◌^◌, Bool, true, false, Option, none, some, List, [], ◌∷◌, if◌then◌else◌,
  ◌>>=◌, ℤ, pos, negsuc, eq_ℤ, ltb_ℤ, einval, get_elem?,
}
use baremetal_crt.CString.{CString, k_strcasecmp}
use baremetal_crt.Device.{Conf, Device}

-- The loop of `device_find_conf` over the entries from `i` on.
unfoldable pub find_conf_from : List Conf → (name : CString) → (i : ℕ) → ℤ
find_conf_from [] name i = negsuc 0
find_conf_from (c ∷ cs) name i =
    let rest = find_conf_from cs name (i + 1) in
    if eq_ℤ (k_strcasecmp false name c.name) (pos 0) then pos i else rest

-- A NULL device, configuration or name is `none`.
unfoldable pub device_find_conf : Option Device → (name : Option CString) → ℤ
unfolding find_conf_from
device_find_conf none name = einval
device_find_conf (some dev) none = einval
device_find_conf (some dev) (some name) = elim (dev.conf) [
  | none ↦ einval
  | some cs ↦ find_conf_from cs name 0
]

-- `dev->conf[i]`; `none` is an access out of bounds.
unfoldable pub conf_at : Option Device → (i : ℤ) → Option Conf
conf_at none i = none
conf_at (some dev) (pos i) = dev.conf >>= λ cs. get_elem? cs i
conf_at (some dev) (negsuc i) = none

-- `conf[i].val[index]`
unfoldable pub value_at : List ℕ → (index : ℤ) → Option ℕ
value_at vs (pos i) = get_elem? vs i
value_at vs (negsuc i) = none

-- The result, and what is stored through `len`, which may be NULL.
unfoldable pub k_device_get_conf_length :
    Option Device → (name : Option CString) → (len : Bool) → Option (ℤ × Option ℤ)
k_device_get_conf_length dev name len =
    let i = device_find_conf dev name in
    if ltb_ℤ i (pos 0)
    then some (einval, none)
    else (do c ← conf_at dev i; some (pos 0, if len then some c.count else none))

-- The common body of the functions that read a value: `ptr` tells whether the pointer is not NULL, and
-- `bits` is the width of what it points to.
unfoldable pub read_conf :
    (bits : ℕ)
    → Option Device
    → (name : Option CString) → (ptr : Bool) → (index : ℤ) → Option (ℤ × Option ℕ)
read_conf bits dev name ptr index =
    let i = device_find_conf dev name in
    if ltb_ℤ i (pos 0) then some (einval, none) else (do
      c ← conf_at dev i
      if ltb_ℤ index c.count
          then (if ptr
              then (do v ← value_at c.values index; some (pos 0, some (v % 2 ^ bits)))
              else some (pos 0, none))
          else some (einval, none))

unfoldable pub k_device_read_conf_u32 :
    Option Device → (name : Option CString) → (ptr : Bool) → (index : ℤ) → Option (ℤ × Option ℕ)
unfolding read_conf
k_device_read_conf_u32 = read_conf 32

unfoldable pub k_device_read_conf_u64 :
    Option Device → (name : Option CString) → (ptr : Bool) → (index : ℤ) → Option (ℤ × Option ℕ)
unfolding read_conf
k_device_read_conf_u64 = read_conf 64

-- The value is the pointer to the string.
unfoldable pub k_device_read_conf_str :
    Option Device → (name : Option CString) → (ptr : Bool) → (index : ℤ) → Option (ℤ × Option ℕ)
unfolding read_conf
k_device_read_conf_str = read_conf 64
