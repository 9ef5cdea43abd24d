-- ===== src/Device/Find/Found.antt =====
-- What the search for a device finds.
use baremetal_crt.Common.{
  ℕ, zero, suc, ◌<◌, ◌==◌, ◌≡◌, ◌≢◌, ap, subst, inl, inr, Bool-cases, Option-cases, Bool, true,
  false, Option, none, some, List, [], ◌∷◌, length, if◌then◌else◌, ℤ, pos, eq_ℤ, eagain, enodev,
  arith,
}
use baremetal_crt.Common.Chain.{IsChain}
use baremetal_crt.CString.{CString, k_strcasecmp}
use baremetal_crt.Device.{Tree}
use baremetal_crt.Device.Add.{next_device}
use baremetal_crt.Device.Find.{has_bus, find_device_from, k_bus_find_device}

-- The device `q` is among those from `p` on, or below a probed one of them.
pub data Below (t : Tree) : ℕ → ℕ → Type 0 where
  here : (p : ℕ) → p ≢ 0 → Below t p p
  later : (p q : ℕ) → p ≢ 0 → Below t ((t.devices p).dev_next) q → Below t p q
  deeper :
      (p q : ℕ)
      → p ≢ 0
      → has_bus (t.devices p) ≡ true
      → Below t ((t.buses ((t.devices p).bus_child)).dev_child) q
      → Below t p q

pub record IsFound (t : Tree) (name : CString) (p q : ℕ) : Type 0 where
  pub is_probed : (t.devices q).probed ≡ true
  pub name_is : (n : CString) × ((t.devices q).name ≡ some n) × (k_strcasecmp false name n ≡ pos 0)
  pub below : Below t p q

zero_of_test : (r : ℤ) → eq_ℤ r (pos 0) ≡ true → r ≡ pos 0
zero_of_test r h = ground (arith, h)

find_device_from-IsFound :
    (f : ℕ) (t : Tree) (name : CString) (p q : ℕ)
    → find_device_from f t name p ≡ some (pos 0, q)
    → IsFound t name p q
unfolding find_device_from
find_device_from-IsFound zero t name p q e = cc
find_device_from-IsFound (suc f) t name p q e = elim (Bool-cases (p == 0)) [
  | inl z ↦ let g = rw z at e in cc g
  | inr z ↦ elim (Option-cases (t.devices p).name) [
    | inl o ↦ let g = rw (z, o) at e in cc g
    | inr (n, o) ↦ elim (Bool-cases (eq_ℤ (k_strcasecmp false name n) (pos 0))) [
      | inl m ↦ elim (Bool-cases (t.devices p).probed) [
        | inl b ↦
            let g = rw (z, o, m, b) at e in
            let same : p ≡ q = cc g in
            subst (λ x. IsFound t name p x) same
              (record {
                is_probed = b;
                name_is = (n, o, zero_of_test (k_strcasecmp false name n) m);
                below = here p (λ y. absurd (ground (arith, y)));
              })
        | inr b ↦ let g = rw (z, o, m, b) at e in cc g
      ]
      | inr m ↦ elim (Bool-cases (has_bus (t.devices p))) [
        | inl b ↦
            let g = rw (z, o, m, b) at e in
            let h =
              find_device_from-IsFound f t name ((t.buses ((t.devices p).bus_child)).dev_child) q
                g in
            record {
              is_probed = h.is_probed;
              name_is = h.name_is;
              below = deeper p q (λ y. absurd (ground (arith, y))) b h.below;
            }
        | inr b ↦
            let g = rw (z, o, m, b) at e in
            let h = find_device_from-IsFound f t name ((t.devices p).dev_next) q g in
            record {
              is_probed = h.is_probed;
              name_is = h.name_is;
              below = later p q (λ y. absurd (ground (arith, y))) h.below;
            }
      ]
    ]
  ]
]

-- A device that `k_bus_find_device` returns with 0 has been probed, has the name that is looked for, up to
-- case, and stands on the bus or below a probed device of it.
pub k_bus_find_device-IsFound :
    (f : ℕ) (t : Tree) (bus : ℕ) (name : CString) (q : ℕ)
    → k_bus_find_device f t bus (some name) ≡ some (pos 0, q)
    → IsFound t name ((t.buses bus).dev_child) q
unfolding k_bus_find_device
k_bus_find_device-IsFound f t bus name q e = elim (Bool-cases (bus == 0)) [
  | inl z ↦ let g = rw z at e in cc g
  | inr z ↦ let g = rw z at e in find_device_from-IsFound f t name ((t.buses bus).dev_child) q g
]

-- Devices with names and without buses of their own that have been probed.
abbrev pub IsPlain : Tree → List ℕ → Type 0
IsPlain t [] = Unit {0}
IsPlain t (d ∷ ds) =
    ((n : CString) × ((t.devices d).name ≡ some n)) × (has_bus (t.devices d) ≡ false) × IsPlain t ds

abbrev pub is_called : (name : CString) → Option CString → Bool
is_called name none = false
is_called name (some n) = eq_ℤ (k_strcasecmp false name n) (pos 0)

-- The first device of the name: found if it has been probed, and to be tried again otherwise.
abbrev pub first_named : Tree → (name : CString) → List ℕ → ℤ × ℕ
first_named t name [] = (enodev, 0)
first_named t name (d ∷ ds) =
    if is_called name (t.devices d).name
    then (if (t.devices d).probed then (pos 0, d) else (eagain, 0))
    else first_named t name ds

find_device_from-first_named :
    (f : ℕ) (t : Tree) (name : CString) (p : ℕ) (ds : List ℕ)
    → IsChain (next_device t) p ds
    → IsPlain t ds
    → length ds < f
    → find_device_from f t name p ≡ some (first_named t name ds)
unfolding find_device_from
find_device_from-first_named zero t name p ds c h l = absurd (omega arith)
find_device_from-first_named (suc f) t name p [] c h l = rw c
find_device_from-first_named (suc f) t name p (d ∷ ds) (c, z, k) ((n, o), b, h) l =
    let nz : (d == 0) ≡ false = ground (arith, z) in
    let rest =
      find_device_from-first_named f t name ((t.devices d).dev_next) ds k h (omega (arith, l)) in
    let called : is_called name (t.devices d).name ≡ eq_ℤ (k_strcasecmp false name n) (pos 0) =
      ap (is_called name) o in
    elim (Bool-cases (eq_ℤ (k_strcasecmp false name n) (pos 0))) [
      | inl y ↦ elim (Bool-cases (t.devices d).probed) [
        | inl q ↦ rw (called, c, nz, o, y, q)
        | inr q ↦ rw (called, c, nz, o, y, q)
      ]
      | inr y ↦ rw (called, c, nz, o, y, b) rest
    ]

-- On a bus whose devices have names and no buses of their own that have been probed, the search gives the
-- first device of the name, up to case, if it has been probed, -EAGAIN if it has not, and -ENODEV if no
-- device has the name. For fuel beyond the number of devices.
pub k_bus_find_device-first_named :
    (f : ℕ) (t : Tree) (bus : ℕ) (name : CString) (ds : List ℕ)
    → bus ≢ 0
    → IsChain (next_device t) ((t.buses bus).dev_child) ds
    → IsPlain t ds
    → length ds < f
    → k_bus_find_device f t bus (some name) ≡ some (first_named t name ds)
unfolding k_bus_find_device
k_bus_find_device-first_named f t bus name ds nz c h l =
    let z : (bus == 0) ≡ false = ground (arith, nz) in
    rw z (find_device_from-first_named f t name ((t.buses bus).dev_child) ds c h l)
