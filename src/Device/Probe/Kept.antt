-- ===== src/Device/Probe/Kept.antt =====
-- What a probe leaves as it is: the links of the tree, the drivers, and what has been probed.
use baremetal_crt.Common.{
  ℕ, zero, suc, ◌==◌, ◌≡◌, ◌≢◌, ◌⊎◌, inl, inr, refl, ◌∙◌, Bool, true, false, Option, none, some, ℤ,
  pos, eq_ℤ, eagain, arith, Bool-cases, Option-cases, List, ◌&&◌,
}
use baremetal_crt.CString.{k_strcmp}
use baremetal_crt.Device.{Device, Bus, Driver, Tree, head, set_device, set_bus, same_types}
use baremetal_crt.Device.Probe.{
  find_driver, none_but_head, bus_attach_driver, device_attach_driver, mark_device, mark_bus,
  attach_device_if, attach_bus_if,
}

-- From the tree `t` to the tree `u`.
pub record Extends (t u : Tree) : Type 0 where
  pub child_bus : (d : ℕ) → (u.devices d).bus_child ≡ (t.devices d).bus_child
  pub next_device : (d : ℕ) → (u.devices d).dev_next ≡ (t.devices d).dev_next
  pub child_device : (b : ℕ) → (u.buses b).dev_child ≡ (t.buses b).dev_child
  pub same_drivers : u.drivers ≡ t.drivers
  pub still_probed : (d : ℕ) → (t.devices d).probed ≡ true → (u.devices d).probed ≡ true

pub Extends-refl : (t : Tree) → Extends t t
Extends-refl t = record {
  child_bus = λ d. refl;
  next_device = λ d. refl;
  child_device = λ b. refl;
  same_drivers = refl;
  still_probed = λ d h. h;
}

pub Extends-trans : {t u v : Tree} → Extends t u → Extends u v → Extends t v
Extends-trans a b = record {
  child_bus = λ d. b.child_bus d ∙ a.child_bus d;
  next_device = λ d. b.next_device d ∙ a.next_device d;
  child_device = λ d. b.child_device d ∙ a.child_device d;
  same_drivers = b.same_drivers ∙ a.same_drivers;
  still_probed = λ d h. b.still_probed d (a.still_probed d h);
}

-- A device that is written back with its links.
set_device-Extends :
    (t : Tree) (dev : ℕ) (d : Device)
    → d.bus_child ≡ (t.devices dev).bus_child
    → d.dev_next ≡ (t.devices dev).dev_next
    → ((t.devices dev).probed ≡ true → d.probed ≡ true)
    → Extends t (set_device t dev d)
unfolding set_device
set_device-Extends t dev d c n k = record {
  child_bus = λ x. ground (arith, c);
  next_device = λ x. ground (arith, n);
  child_device = λ b. refl;
  same_drivers = refl;
  still_probed = λ x h. ground (arith, k);
}

set_bus-Extends :
    (t : Tree) (bus : ℕ) (b : Bus)
    → b.dev_child ≡ (t.buses bus).dev_child
    → Extends t (set_bus t bus b)
unfolding set_bus
set_bus-Extends t bus b c = record {
  child_bus = λ x. refl;
  next_device = λ x. refl;
  child_device = λ x. ground (arith, c);
  same_drivers = refl;
  still_probed = λ x h. h;
}

pub mark_device-Extends : (t : Tree) (dev : ℕ) (r : ℤ) → Extends t (mark_device t dev r)
unfolding mark_device
mark_device-Extends t dev r = elim (Bool-cases (eq_ℤ r (pos 0))) [
  | inl e ↦ rw e (set_device-Extends t dev _ refl refl (λ _. refl))
  | inr e ↦ elim (Bool-cases (eq_ℤ r eagain)) [
    | inl a ↦ rw (e, a) (Extends-refl t)
    | inr a ↦ rw (e, a) (set_device-Extends t dev _ refl refl (λ h. h))
  ]
]

pub mark_bus-Extends : (t : Tree) (bus : ℕ) (r : ℤ) → Extends t (mark_bus t bus r)
unfolding mark_bus
mark_bus-Extends t bus r = elim (Bool-cases (eq_ℤ r (pos 0))) [
  | inl e ↦ rw e (set_bus-Extends t bus _ refl)
  | inr e ↦ elim (Bool-cases (eq_ℤ r eagain)) [
    | inl a ↦ rw (e, a) (Extends-refl t)
    | inr a ↦ rw (e, a) (set_bus-Extends t bus _ refl)
  ]
]

-- The list of the drivers from `p` on ends within `n` links, and each has its types.
abbrev pub DriversEnd : (n : ℕ) → (ℕ → Driver) → (p : ℕ) → Type 0
DriversEnd zero ds p = ⊥
DriversEnd (suc n) ds p =
    (p ≡ 0)
    ⊎ (((ds p).type_vendor ≢ none)
        × ((ds p).type_device ≢ none)
        × DriversEnd n ds ((ds p).drv_next))

same_types-ends :
    (d : Driver) (vendor device : List ℕ)
    → d.type_vendor ≢ none
    → d.type_device ≢ none
    → (b : Bool) × (same_types d vendor device ≡ some b)
unfolding same_types
same_types-ends d v x a b = elim (Option-cases d.type_vendor) [
  | inl n ↦ absurd (a n)
  | inr (y, e) ↦ elim (Option-cases d.type_device) [
    | inl n ↦ absurd (b n)
    | inr (z, f) ↦
        (eq_ℤ (k_strcmp false y v) (pos 0) && eq_ℤ (k_strcmp false z x) (pos 0), rw (e, f))
  ]
]

pub find_driver-ends :
    (n : ℕ) (ds : ℕ → Driver) (vendor device : List ℕ) (p : ℕ)
    → DriversEnd n ds p
    → (d : ℕ) × (find_driver n ds vendor device p ≡ some d)
unfolding find_driver
find_driver-ends zero ds v x p h = absurd h
find_driver-ends (suc n) ds v x p (inl e) = (0, rw e)
find_driver-ends (suc n) ds v x p (inr (a, b, h)) = elim (Bool-cases (p == 0)) [
  | inl z ↦ (0, rw z)
  | inr z ↦
      let (same, e) = same_types-ends (ds p) v x a b in
      elim (Bool-cases same) [
        | inl y ↦ (p, rw (z, e, y))
        | inr y ↦ let (d, g) = find_driver-ends n ds v x ((ds p).drv_next) h in (d, rw (z, e, y) g)
      ]
]

module _ {W : Type 0} (df : ℕ) where
  pub attach_device_if-ends :
      (add_device add_bus : (drv x : ℕ) → Option (Tree → W → ℤ × W)) (t : Tree) (dev : ℕ)
      → DriversEnd df t.drivers head
      → (u : Tree) × (attach_device_if add_device add_bus df t dev ≡ some u) × Extends t u
  unfolding attach_device_if device_attach_driver
  attach_device_if-ends add_device add_bus t dev h = elim (Bool-cases ((t.devices dev).drv == 0)) [
    | inr z ↦ (t, rw z, Extends-refl t)
    | inl z ↦
        let (d, e) =
          find_driver-ends df t.drivers (t.devices dev).type_vendor (t.devices dev).type_device head
            h in
        elim (Bool-cases (none_but_head d)) [
          | inl y ↦ (t, rw (z, e, y), Extends-refl t)
          | inr y ↦ (
            _,
            rw (z, e, y),
            set_device-Extends t dev (record (t.devices dev) { drv = d }) refl refl (λ q. q),
          )
        ]
  ]

  pub attach_bus_if-ends :
      (add_device add_bus : (drv x : ℕ) → Option (Tree → W → ℤ × W)) (t : Tree) (bus : ℕ)
      → DriversEnd df t.drivers head
      → (u : Tree) × (attach_bus_if add_device add_bus df t bus ≡ some u) × Extends t u
  unfolding attach_bus_if bus_attach_driver
  attach_bus_if-ends add_device add_bus t bus h = elim (Bool-cases ((t.buses bus).drv == 0)) [
    | inr z ↦ (t, rw z, Extends-refl t)
    | inl z ↦
        let (d, e) =
          find_driver-ends df t.drivers (t.buses bus).type_vendor (t.buses bus).type_device head
            h in
        elim (Bool-cases (none_but_head d)) [
          | inl y ↦ (t, rw (z, e, y), Extends-refl t)
          | inr y ↦ (_, rw (z, e, y), set_bus-Extends t bus (record (t.buses bus) { drv = d }) refl)
        ]
  ]
