-- ===== src/Device/Config/Lookup.antt =====
-- A value of the configuration is that of the first property of the name.
use baremetal_crt.Common.{
  ℕ, suc, ◌+◌, ◌%◌, ◌^◌, ◌≡◌, ◌⊎◌, inl, inr, refl, ap, ◌∙◌, Bool-cases, true, false, Option, none,
  some, List, [], ◌∷◌, if◌then◌else◌, ◌>>=◌, ℤ, pos, negsuc, eq_ℤ, ltb_ℤ, einval, get_elem?, arith,
}
use baremetal_crt.CString.{CString, k_strcasecmp}
use baremetal_crt.Device.{Conf, Device}
use baremetal_crt.Device.Config.{find_conf_from, device_find_conf, conf_at, value_at, read_conf}

-- The first property of the name, up to case.
abbrev pub lookup_conf : List Conf → (name : CString) → Option Conf
lookup_conf [] name = none
lookup_conf (c ∷ cs) name =
    if eq_ℤ (k_strcasecmp false name c.name) (pos 0) then some c else lookup_conf cs name

-- The value at an index below the count; `none` is an access out of bounds.
abbrev pub read_value : (bits : ℕ) → Option Conf → (index : ℤ) → Option (ℤ × Option ℕ)
read_value bits none index = some (einval, none)
read_value bits (some c) index =
    if ltb_ℤ index c.count
    then (do v ← value_at c.values index; some (pos 0, some (v % 2 ^ bits)))
    else some (einval, none)

find_conf_from-lookup :
    (cs : List Conf) (name : CString) (i : ℕ)
    → ((find_conf_from cs name i ≡ negsuc 0) × (lookup_conf cs name ≡ none))
      ⊎ ((j : ℕ) × (c : Conf) × (find_conf_from cs name i ≡ pos (i + j))
          × (get_elem? cs j ≡ some c)
          × (lookup_conf cs name ≡ some c))
unfolding find_conf_from
find_conf_from-lookup [] name i = inl (refl, refl)
find_conf_from-lookup (c ∷ cs) name i =
    elim (Bool-cases (eq_ℤ (k_strcasecmp false name c.name) (pos 0))) [
      | inl y ↦ inr (0, c, rw y (ap pos (omega arith)), refl, rw y)
      | inr y ↦ elim (find_conf_from-lookup cs name (i + 1)) [
        | inl (a, b) ↦ inl (rw y a, rw y b)
        | inr (j, d, a, g, b) ↦ inr (suc j, d, rw y (a ∙ ap pos (omega arith)), g, rw y b)
      ]
    ]

-- A value that is read from a device's configuration, by a pointer that is not NULL, is that of the first
-- property of the name, up to case, at the index, cut to the width of the pointer: an index from the count on
-- and a missing property are -EINVAL, and an index below 0 is an access out of bounds.
pub read_conf-lookup :
    (bits : ℕ) (dev : Device) (cs : List Conf) (name : CString) (index : ℤ)
    → dev.conf ≡ some cs
    → read_conf bits (some dev) (some name) true index ≡ read_value bits (lookup_conf cs name) index
unfolding read_conf device_find_conf conf_at
read_conf-lookup bits dev cs name index h = elim (find_conf_from-lookup cs name 0) [
  | inl (a, b) ↦ rw (h, a, b)
  | inr (j, c, a, g, b) ↦
      let at : find_conf_from cs name 0 ≡ pos j = a ∙ ap pos (omega arith) in
      let found : ltb_ℤ (pos j) (pos 0) ≡ false = ground arith in rw (h, at, found, g, b)
]
