-- ===== src/Device/Probe/Reach.antt =====
-- What a probe reaches in the tree: that the links end, and that every device on them has been probed.
use baremetal_crt.Common.{ℕ, zero, suc, ◌≡◌, ◌⊎◌, inl, inr, sym, subst, ◌∙◌, true, ℤ, pos}
use baremetal_crt.Device.{Tree, head}
use baremetal_crt.Device.Probe.{Job, at_device, at_bus, at_siblings}
use baremetal_crt.Device.Probe.Kept.{Extends, DriversEnd}

-- The links below a job end within `n` steps.
abbrev pub Ends : (n : ℕ) → Tree → Job → Type 0
Ends zero t j = ⊥
Ends (suc n) t (at_device d) =
    ((t.devices d).bus_child ≡ 0) ⊎ Ends n t (at_bus ((t.devices d).bus_child))
Ends (suc n) t (at_bus b) = Ends n t (at_siblings ((t.buses b).dev_child) (pos 0))
Ends (suc n) t (at_siblings d r) =
    (d ≡ 0)
    ⊎ (Ends n t (at_device d) × ((r' : ℤ) → Ends n t (at_siblings ((t.devices d).dev_next) r')))

pub Ends-Extends : (n : ℕ) (j : Job) {t u : Tree} → Extends t u → Ends n t j → Ends n u j
Ends-Extends zero j x h = h
Ends-Extends (suc n) (at_device d) x (inl e) = inl (x.child_bus d ∙ e)
Ends-Extends (suc n) (at_device d) {t} {u} x (inr h) = inr (
    subst (λ b. Ends n u (at_bus b)) (sym (x.child_bus d))
      (Ends-Extends n (at_bus ((t.devices d).bus_child)) x h))
Ends-Extends (suc n) (at_bus b) {t} {u} x h =
    subst (λ d. Ends n u (at_siblings d (pos 0))) (sym (x.child_device b))
      (Ends-Extends n (at_siblings ((t.buses b).dev_child) (pos 0)) x h)
Ends-Extends (suc n) (at_siblings d r) x (inl e) = inl e
Ends-Extends (suc n) (at_siblings d r) {t} {u} x (inr (h, k)) = inr (
  Ends-Extends n (at_device d) x h,
  λ r'.
      subst (λ y. Ends n u (at_siblings y r')) (sym (x.next_device d))
        (Ends-Extends n (at_siblings ((t.devices d).dev_next) r') x (k r')),
)

-- Every device that a probe of the job reaches has been probed: by `bus_child`, the first bus below a device, and the
-- devices on it. The code never follows `bus_next` to the other buses of a device.
pub data AllProbed (t : Tree) : Job → Type 0 where
  leaf :
      (d : ℕ)
      → (t.devices d).probed ≡ true
      → (t.devices d).bus_child ≡ 0
      → AllProbed t (at_device d)
  above :
      (d : ℕ)
      → (t.devices d).probed ≡ true
      → AllProbed t (at_bus ((t.devices d).bus_child))
      → AllProbed t (at_device d)
  bus :
      (b : ℕ) (r : ℤ) → AllProbed t (at_siblings ((t.buses b).dev_child) r) → AllProbed t (at_bus b)
  last : (r : ℤ) → AllProbed t (at_siblings 0 r)
  sibling :
      (d : ℕ) (r r' : ℤ)
      → AllProbed t (at_device d)
      → AllProbed t (at_siblings ((t.devices d).dev_next) r')
      → AllProbed t (at_siblings d r)

pub AllProbed-Extends : {t u : Tree} → Extends t u → (j : Job) → AllProbed t j → AllProbed u j
AllProbed-Extends x _ (leaf d p e) = leaf d (x.still_probed d p) (x.child_bus d ∙ e)
AllProbed-Extends {t} {u} x _ (above d p h) =
    above d (x.still_probed d p)
      (subst (λ b. AllProbed u (at_bus b)) (sym (x.child_bus d)) (AllProbed-Extends x _ h))
AllProbed-Extends {t} {u} x _ (bus b r h) =
    bus b r (
      subst (λ d. AllProbed u (at_siblings d r)) (sym (x.child_device b)) (AllProbed-Extends x _ h))
AllProbed-Extends x _ (last r) = last r
AllProbed-Extends {t} {u} x _ (sibling d r r' h k) =
    sibling d r r' (AllProbed-Extends x _ h) (
      subst (λ y. AllProbed u (at_siblings y r')) (sym (x.next_device d)) (AllProbed-Extends x _ k))

pub drivers_end :
    (n : ℕ) {t u : Tree} → Extends t u → DriversEnd n t.drivers head → DriversEnd n u.drivers head
drivers_end n x h = subst (λ ds. DriversEnd n ds head) (sym x.same_drivers) h
