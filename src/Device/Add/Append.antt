-- ===== src/Device/Add/Append.antt =====
-- Adding a device appends it to the devices of its bus.
use baremetal_crt.Common.{
  ℕ, ◌<◌, ◌==◌, ◌≡◌, ◌≢◌, refl, sym, ◌∙◌, ap, subst, true, false, ◌||◌, Option, none, some, List,
  [], ◌∷◌, ◌++◌, length, if◌then◌else◌, ℤ, pos, eagain, arith,
}
use baremetal_crt.Common.Chain.{
  last_link, last_of, last_of-mem, has, IsDistinct, IsChain, IsChain-snoc, last_link-chain,
}
use baremetal_crt.Device.{dev_root, Tree, set_device, set_bus}
use baremetal_crt.Device.Probe.{at_device, probe, k_device_probe_all}
use baremetal_crt.Device.Add.{
  next_device, link_device, set_parent, is_null_name, probe_added, k_device_add,
}

-- What the links are after a device has been added.
pub record IsAdded (t : Tree) (dev parent : ℕ) (ys : List ℕ) (u : Tree) : Type 0 where
  pub listed : IsChain (next_device u) ((u.buses parent).dev_child) (ys ++ dev ∷ [])
  pub has_parent : (u.devices dev).bus_parent ≡ parent
  pub still_off : u.probe_all_enabled ≡ t.probe_all_enabled

only_child :
    (t : Tree) (dev parent : ℕ)
    → dev ≢ 0
    → (t.devices dev).dev_next ≡ 0
    → IsAdded t dev parent []
        (set_parent (set_bus t parent (record (t.buses parent) { dev_child = dev })) dev parent)
unfolding set_device set_bus
only_child t dev parent nz new = record {
  listed = (ground arith, nz, ground (arith, new));
  has_parent = ground arith;
  still_off = refl;
}

parent_after :
    (t : Tree) (dev parent : ℕ) → ((set_parent t dev parent).devices dev).bus_parent ≡ parent
unfolding set_device
parent_after t dev parent = ground arith

links_after :
    (t : Tree) (dev parent last : ℕ)
    → (t.devices dev).dev_next ≡ 0
    → last ≢ dev
    → (p : ℕ)
    → next_device
        (set_parent (set_device t last (record (t.devices last) { dev_next = dev })) dev parent)
        p
      ≡ (if p == dev then 0 else if p == last then dev else next_device t p)
unfolding set_device
links_after t dev parent last new ne p = ground (arith, new, ne)

link_device-IsAdded :
    (f : ℕ) (t : Tree) (dev parent : ℕ) (ys : List ℕ)
    → dev ≢ 0
    → (t.devices dev).dev_next ≡ 0
    → IsChain (next_device t) ((t.buses parent).dev_child) ys
    → IsDistinct ys
    → has dev ys ≡ false
    → length ys < f
    → (u : Tree) × (link_device f t dev parent ≡ some u) × IsAdded t dev parent ys u
unfolding link_device set_device
link_device-IsAdded f t dev parent [] nz new c d out l = (
  set_parent (set_bus t parent (record (t.buses parent) { dev_child = dev })) dev parent,
  rw c,
  only_child t dev parent nz new,
)
link_device-IsAdded f t dev parent (y ∷ ys) nz new (c, n, e) d out l =
    let z : ((t.buses parent).dev_child == 0) ≡ false = ground (arith, c, n) in
    let from_first =
      subst (λ q. last_link f (next_device t) q 0 ≡ some (last_of y ys)) (sym c)
        (last_link-chain f (next_device t) y ys 0 (refl, n, e) (omega (arith, l))) in
    let t1 = set_device t (last_of y ys) (record (t.devices (last_of y ys)) { dev_next = dev }) in
    (
      set_parent t1 dev parent,
      rw (z, from_first),
      record {
        listed =
            subst (λ q. IsChain (next_device (set_parent t1 dev parent)) q (y ∷ ys ++ dev ∷ []))
              (sym c)
              (IsChain-snoc (next_device t) (next_device (set_parent t1 dev parent)) dev y ys nz
                (refl, n, e) d out
                (links_after t dev parent (last_of y ys) new (last_of-mem dev y ys out)));
        has_parent = parent_after t1 dev parent;
        still_off = refl;
      },
    )

name_given {ℓ} : {A : Type ℓ} (o : Option A) → o ≢ none → is_null_name o ≡ false
name_given none h = absurd (h refl)
name_given (some x) h = refl

module _ {W : Type 0} (add_device : (drv dev : ℕ) → Option (Tree → W → ℤ × W))
    (add_bus : (drv bus : ℕ) → Option (Tree → W → ℤ × W)) where
  probe_all-off :
      (f : ℕ) (t : Tree) (w : W)
      → t.probe_all_enabled ≡ false
      → k_device_probe_all add_device add_bus f f t w ≡ some (eagain, t, w)
  unfolding k_device_probe_all
  probe_all-off f t w off =
      ap
        (λ b.
          if b then probe add_device add_bus f f (at_device dev_root) t w else some (eagain, t, w))
        off

  probe_added-off :
      (f : ℕ) (t : Tree) (w : W)
      → t.probe_all_enabled ≡ false
      → probe_added add_device add_bus f t w ≡ some (pos 0, t, w)
  unfolding probe_added
  probe_added-off f t w off = rw (probe_all-off f t w off)

  -- While probing is off, as it is until the drivers and the devices of the board have been added,
  -- `k_device_add` returns 0 and puts a new device at the end of the list of its bus. For a list that ends,
  -- without repetition, and fuel beyond its length.
  pub k_device_add-IsAdded :
      (f : ℕ) (t : Tree) (w : W) (dev parent : ℕ) (ys : List ℕ)
      → dev ≢ 0
      → parent ≢ 0
      → t.probe_all_enabled ≡ false
      → (t.devices dev).name ≢ none
      → (t.devices dev).bus_parent ≡ 0
      → (t.devices dev).dev_next ≡ 0
      → IsChain (next_device t) ((t.buses parent).dev_child) ys
      → IsDistinct ys
      → has dev ys ≡ false
      → length ys < f
      → (u : Tree) × (k_device_add add_device add_bus f dev parent t w ≡ some (pos 0, u, w))
        × IsAdded t dev parent ys u
  unfolding k_device_add
  k_device_add-IsAdded f t w dev parent ys nz pz off named orphan new c d out l =
      let z : ((dev == 0) || (parent == 0)) ≡ false = ground (arith, nz, pz) in
      let o : ((t.devices dev).bus_parent == 0) ≡ true = ground (arith, orphan) in
      let (u, e, g) = link_device-IsAdded f t dev parent ys nz new c d out l in
      (
        u,
        rw (z, name_given (t.devices dev).name named, o, e)
            (probe_added-off f u w (g.still_off ∙ off)),
        g,
      )
