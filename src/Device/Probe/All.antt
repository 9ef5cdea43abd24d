-- ===== src/Device/Probe/All.antt =====
-- A probe ends, and one that returns 0 has probed every device that it reaches.
use baremetal_crt.Common.{
  ℕ, zero, suc, ◌==◌, ◌≡◌, ◌≢◌, ◌⊎◌, inl, inr, refl, sym, subst, ◌∙◌, ap, true, false, Option, some,
  if◌then◌else◌, ℤ, pos, eq_ℤ, eagain, einval, arith, Bool-cases, Option-cases, is_nonzero, ==_iff,
}
use baremetal_crt.Device.{set_device, Tree, head, dev_root, is_error}
use baremetal_crt.Device.Probe.{
  Job, at_device, at_bus, at_siblings, mark_device, run_add_device, run_add_bus, device_children,
  device_probe, bus_children, bus_probe, probe_siblings, probe, k_device_probe_all,
}
use baremetal_crt.Device.Probe.Reach.{
  Ends, Ends-Extends, AllProbed, leaf, above, bus, last, sibling, AllProbed-Extends, drivers_end,
}
use baremetal_crt.Device.Probe.Kept.{
  Extends, Extends-refl, Extends-trans, DriversEnd, mark_device-Extends, mark_bus-Extends,
  attach_device_if-ends, attach_bus_if-ends,
}

-- The result that the job starts from.
abbrev start : Job → ℤ
start (at_device d) = pos 0
start (at_bus b) = pos 0
start (at_siblings d r) = r

mark_device-probed :
    (t : Tree) (dev : ℕ) (r : ℤ) → r ≡ pos 0 → ((mark_device t dev r).devices dev).probed ≡ true
unfolding mark_device set_device
mark_device-probed t dev r e = rw e (ground arith)

nonzero : (r : ℤ) → is_nonzero r ≡ true → r ≢ pos 0
nonzero r z q = ground (arith, z, q)

zero_of : (r : ℤ) → is_nonzero r ≡ false → r ≡ pos 0
zero_of r z = ground (arith, z)

error_ne : (r : ℤ) → is_error r ≡ true → r ≢ pos 0
error_ne r z q = ground (arith, z, q)

when_zero : (r : ℤ) (A : Type 0) → (r ≡ pos 0 → A) → if eq_ℤ r (pos 0) then A else Unit {0}
when_zero r A f = elim (Bool-cases (eq_ℤ r (pos 0))) [
  | inl z ↦ rw z (f (ground (arith, z)))
  | inr z ↦ rw z tt
]

-- No error so far and 0 at the end: 0 from the start.
no_error :
    (s r : ℤ)
    → is_error s ≡ false
    → (if eq_ℤ s eagain then eagain else r) ≡ pos 0
    → (s ≡ pos 0) × (r ≡ pos 0)
no_error s r z q = ground (arith, z, q)

module _ {W : Type 0} (add_device : (drv dev : ℕ) → Option (Tree → W → ℤ × W))
    (add_bus : (drv bus : ℕ) → Option (Tree → W → ℤ × W)) (df : ℕ) where
  -- What a probe comes to.
  pub record Probes (j : Job) (t : Tree) (o : Option (ℤ × Tree × W)) : Type 0 where
    pub r : ℤ
    pub tree : Tree
    pub world : W
    pub ends : o ≡ some (r, tree, world)
    pub kept : Extends t tree
    pub all : r ≡ pos 0 → AllProbed tree j × (start j ≡ pos 0)

  Probes-after :
      {j : Job} {t u : Tree} {o : Option (ℤ × Tree × W)} → Extends t u → Probes j u o → Probes j t o
  Probes-after x p = record {
    r = p.r;
    tree = p.tree;
    world = p.world;
    ends = p.ends;
    kept = Extends-trans x p.kept;
    all = p.all;
  }

  abbrev Deeper : ℕ → (Job → Tree → W → Option (ℤ × Tree × W)) → Type 0
  Deeper n deeper =
      (j : Job) (t : Tree) (w : W)
      → Ends n t j
      → DriversEnd df t.drivers head
      → Probes j t (deeper j t w)

  -- `add` of a device's driver: the tree is kept, and 0 means that the device has been probed.
  run_add_device-kept :
      (t : Tree) (dev : ℕ) (w : W)
      → Extends t (run_add_device add_device add_bus df t dev w).1
        × ((run_add_device add_device add_bus df t dev w).0 ≡ pos 0
            → ((run_add_device add_device add_bus df t dev w).1.devices dev).probed ≡ true)
  unfolding run_add_device
  run_add_device-kept t dev w = elim (Bool-cases (t.devices dev).probed) [
    | inl e ↦ rw e (Extends-refl t, λ _. e)
    | inr e ↦ elim (Option-cases (add_device ((t.devices dev).drv) dev)) [
      | inl n ↦
          rw (e, n) (mark_device-Extends t dev (pos 0), λ _. mark_device-probed t dev (pos 0) refl)
      | inr (add, n) ↦
          rw (e, n) (mark_device-Extends t dev (add t w).0, mark_device-probed t dev (add t w).0)
    ]
  ]

  run_add_bus-kept :
      (t : Tree) (b : ℕ) (w : W) → Extends t (run_add_bus add_device add_bus df t b w).1
  unfolding run_add_bus
  run_add_bus-kept t b w = elim (Bool-cases ((t.buses b).drv == 0)) [
    | inl e ↦ rw e (Extends-refl t)
    | inr e ↦ elim (Bool-cases (t.buses b).probed) [
      | inl p ↦ rw (e, p) (Extends-refl t)
      | inr p ↦ elim (Option-cases (add_bus ((t.buses b).drv) b)) [
        | inl n ↦ rw (e, p, n) (mark_bus-Extends t b (pos 0))
        | inr (add, n) ↦ rw (e, p, n) (mark_bus-Extends t b (add t w).0)
      ]
    ]
  ]

  module _ (n : ℕ) (deeper : Job → Tree → W → Option (ℤ × Tree × W)) (h : Deeper n deeper) where
    device_children-Probes :
        (dev : ℕ) (r : ℤ) (t : Tree) (w : W)
        → Ends (suc n) t (at_device dev)
        → DriversEnd df t.drivers head
        → (r ≡ pos 0 → (t.devices dev).probed ≡ true)
        → Probes (at_device dev) t (device_children add_device add_bus df deeper dev (r, t, w))
    unfolding device_children
    device_children-Probes dev r t w e ds p = elim (Bool-cases (is_nonzero r)) [
      | inl z ↦ rw z (record {
        r = r;
        tree = t;
        world = w;
        ends = refl;
        kept = Extends-refl t;
        all = λ q. absurd (nonzero r z q);
      })
      | inr z ↦
          let probed = p (zero_of r z) in
          elim (Bool-cases ((t.devices dev).bus_child == 0)) [
            | inl l ↦
                rw (z, probed, l)
                  (record {
                    r = pos 0;
                    tree = t;
                    world = w;
                    ends = refl;
                    kept = Extends-refl t;
                    all = λ q. (leaf dev probed ((==_iff _ 0).0 l), refl);
                  })
            | inr l ↦
                let g =
                  h (at_bus ((t.devices dev).bus_child)) t w
                    (has_child (t.devices dev).bus_child l e) ds in
                rw (z, probed, l)
                  (record {
                    r = g.r;
                    tree = g.tree;
                    world = g.world;
                    ends = g.ends;
                    kept = g.kept;
                    all = λ q. (
                      above dev (g.kept.still_probed dev probed) (
                          subst (λ b. AllProbed g.tree (at_bus b)) (sym (g.kept.child_bus dev))
                            (g.all q).0),
                      refl,
                    );
                  })
          ]
    ]
      where
        has_child :
            (b : ℕ) → (b == 0) ≡ false → ((b ≡ 0) ⊎ Ends n t (at_bus b)) → Ends n t (at_bus b)
        has_child b l (inl x) = absurd (ground arith)
        has_child b l (inr x) = x

    bus_children-Probes :
        (b : ℕ) (r : ℤ) (t : Tree) (w : W)
        → Ends (suc n) t (at_bus b)
        → DriversEnd df t.drivers head
        → Probes (at_bus b) t (bus_children add_device add_bus df deeper b (r, t, w))
    unfolding bus_children
    bus_children-Probes b r t w e ds = elim (Bool-cases (is_nonzero r)) [
      | inl z ↦ rw z (record {
        r = r;
        tree = t;
        world = w;
        ends = refl;
        kept = Extends-refl t;
        all = λ q. absurd (nonzero r z q);
      })
      | inr z ↦
          let g = h (at_siblings ((t.buses b).dev_child) (pos 0)) t w e ds in
          rw z (record {
            r = g.r;
            tree = g.tree;
            world = g.world;
            ends = g.ends;
            kept = g.kept;
            all = λ q. (
              bus b (pos 0) (
                  subst (λ d. AllProbed g.tree (at_siblings d (pos 0)))
                    (sym (g.kept.child_device b)) (g.all q).0),
              refl,
            );
          })
    ]

    siblings-Probes :
        (d : ℕ) (r : ℤ) (t : Tree) (w : W)
        → Ends (suc n) t (at_siblings d r)
        → DriversEnd df t.drivers head
        → Probes (at_siblings d r) t (probe_siblings add_device add_bus df deeper d r t w)
    unfolding probe_siblings
    siblings-Probes d r t w (inl e) ds = rw e (record {
      r = r;
      tree = t;
      world = w;
      ends = refl;
      kept = Extends-refl t;
      all = λ q. (last r, q);
    })
    siblings-Probes d r t w (inr (e, k)) ds = elim (Bool-cases (d == 0)) [
      | inl z ↦ rw z (record {
        r = r;
        tree = t;
        world = w;
        ends = refl;
        kept = Extends-refl t;
        all =
            λ q. (subst (λ x. AllProbed t (at_siblings x r)) (sym ((==_iff d 0).0 z)) (last r), q);
      })
      | inr z ↦
          let g = h (at_device d) t w e ds in
          elim (Bool-cases (is_error g.r)) [
            | inl x ↦
                rw (z, g.ends, x)
                  (record {
                    r = g.r;
                    tree = g.tree;
                    world = g.world;
                    ends = refl;
                    kept = g.kept;
                    all = λ q. absurd (error_ne g.r x q);
                  })
            | inr x ↦
                let r' : ℤ = if eq_ℤ g.r eagain then eagain else r in
                let u =
                  h (at_siblings ((g.tree.devices d).dev_next) r') g.tree g.world
                    (subst (λ y. Ends n g.tree (at_siblings y r')) (sym (g.kept.next_device d))
                      (Ends-Extends n (at_siblings ((t.devices d).dev_next) r') g.kept (k r')))
                    (drivers_end df g.kept ds) in
                rw (z, g.ends, x)
                  (record {
                    r = u.r;
                    tree = u.tree;
                    world = u.world;
                    ends = u.ends;
                    kept = Extends-trans g.kept u.kept;
                    all = λ q.
                        let b = no_error g.r r x (u.all q).1 in
                        (
                          sibling d r r' (AllProbed-Extends u.kept (at_device d) (g.all b.0).0) (
                              subst (λ y. AllProbed u.tree (at_siblings y r'))
                                (sym (u.kept.next_device d)) (u.all q).0),
                          b.1,
                        );
                  })
          ]
    ]

    device_probe-Probes :
        (dev : ℕ) (t : Tree) (w : W)
        → Ends (suc n) t (at_device dev)
        → DriversEnd df t.drivers head
        → Probes (at_device dev) t (device_probe add_device add_bus df deeper dev t w)
    unfolding device_probe
    device_probe-Probes dev t w e ds = elim (Bool-cases (dev == 0)) [
      | inl z ↦ rw z (record {
        r = einval;
        tree = t;
        world = w;
        ends = refl;
        kept = Extends-refl t;
        all = λ q. cc q;
      })
      | inr z ↦
          let (u, f, x) = attach_device_if-ends df add_device add_bus t dev ds in
          elim (Bool-cases ((u.devices dev).drv == 0)) [
            | inl y ↦
                rw (z, f, y)
                  (record {
                    r = eagain;
                    tree = u;
                    world = w;
                    ends = refl;
                    kept = x;
                    all = λ q. cc q;
                  })
            | inr y ↦
                let o = run_add_device add_device add_bus df u dev w in
                let k = run_add_device-kept u dev w in
                rw (z, f, y)
                  (Probes-after (Extends-trans x k.0) (
                    device_children-Probes dev o.0 o.1 o.2
                      (Ends-Extends (suc n) (at_device dev) (Extends-trans x k.0) e)
                      (drivers_end df (Extends-trans x k.0) ds) k.1))
          ]
    ]

    bus_probe-Probes :
        (b : ℕ) (t : Tree) (w : W)
        → Ends (suc n) t (at_bus b)
        → DriversEnd df t.drivers head
        → Probes (at_bus b) t (bus_probe add_device add_bus df deeper b t w)
    unfolding bus_probe
    bus_probe-Probes b t w e ds = elim (Bool-cases (b == 0)) [
      | inl z ↦ rw z (record {
        r = einval;
        tree = t;
        world = w;
        ends = refl;
        kept = Extends-refl t;
        all = λ q. cc q;
      })
      | inr z ↦
          let (u, f, x) = attach_bus_if-ends df add_device add_bus t b ds in
          let o = run_add_bus add_device add_bus df u b w in
          let k = Extends-trans x (run_add_bus-kept u b w) in
          rw (z, f)
            (Probes-after k (
              bus_children-Probes b o.0 o.1 o.2 (Ends-Extends (suc n) (at_bus b) k e)
                (drivers_end df k ds)))
    ]

  pub probe-Probes : (n : ℕ) → Deeper n (probe add_device add_bus df n)
  unfolding probe
  probe-Probes zero j t w e ds = absurd e
  probe-Probes (suc n) (at_device dev) t w e ds =
      device_probe-Probes n (probe add_device add_bus df n) (probe-Probes n) dev t w e ds
  probe-Probes (suc n) (at_bus b) t w e ds =
      bus_probe-Probes n (probe add_device add_bus df n) (probe-Probes n) b t w e ds
  probe-Probes (suc n) (at_siblings d r) t w e ds =
      siblings-Probes n (probe add_device add_bus df n) (probe-Probes n) d r t w e ds

  -- A probe of the whole tree, where the links below the root end within the fuel and the drivers are a
  -- list that ends: it ends too, leaves the links and what was probed as they were, and where it returns 0
  -- while probing is enabled every device has been probed that is reached from the root by the first bus below a
  -- device and the devices on that bus; a bus that is chained behind the first by `bus_next` is not.
  pub k_device_probe_all-AllProbed :
      (n : ℕ) (t : Tree) (w : W)
      → Ends n t (at_device dev_root)
      → DriversEnd df t.drivers head
      → (r : ℤ) × (u : Tree) × (v : W) × (k_device_probe_all add_device add_bus df n t w
          ≡ some (r, u, v))
        × Extends t u
        × (if eq_ℤ r (pos 0) then AllProbed u (at_device dev_root) else Unit {0})
  unfolding k_device_probe_all
  k_device_probe_all-AllProbed n t w e ds = elim (Bool-cases t.probe_all_enabled) [
    | inl on ↦
        let g = probe-Probes n (at_device dev_root) t w e ds in
        (
          g.r,
          g.tree,
          g.world,
          ap
                (λ b.
                  if b
                  then probe add_device add_bus df n (at_device dev_root) t w
                  else some (eagain, t, w))
                on
              ∙ g.ends,
          g.kept,
          when_zero g.r _ (λ q. (g.all q).0),
        )
    | inr off ↦ (eagain, t, w, rw off, Extends-refl t, tt)
  ]
