-- ===== src/Intc/Plic/Enabled.antt =====
-- Which sources are enabled in the registers of driver/intc/sifive/plic.c.
use Prim.Native.Nat.{bit_and, bit_or}
use baremetal_crt.Common.{
  ℕ, zero, suc, [], ◌∷◌, ◌-◌, ◌%◌, ◌^◌, ◌<◌, ◌≤◌, ◌≡◌, refl, ap, sym, ◌∙◌, inl, inr, Bool, true,
  false, not, ◌&&◌, ◌||◌, Bool-cases, some, List, ◌==◌, if◌then◌else◌, set, get_or, arith, length,
  get_or-set, pos,
}
use native.Mathlib.Nat.{pow-le-pow_right}
use baremetal_crt.Common.Masks.{bit, bit-set, bit-clear}
use baremetal_crt.Intc.Plic.{
  PlicPriv, no_source, reg_priority, reg_intr_en, reg_priority_thr, intc_plic_enable_interrupt,
  intc_plic_disable_interrupt, intc_plic_add_handler, intc_plic_remove_handler,
}

undo : (e m : Bool) → (m ≡ true → e ≡ false) → ((e || m) && not m) ≡ e
undo true true f = sym (f refl)
undo true false f = refl
undo false true f = refl
undo false false f = refl

set_back : (xs : List ℕ) (i v a : ℕ) → i < length xs → get_or xs i 0 ≡ a → set (set xs i v) i a ≡ xs
set_back [] i v a l e = absurd (omega arith)
set_back (x ∷ xs) zero v a l e = ap (λ y. y ∷ xs) (sym e)
set_back (x ∷ xs) (suc i) v a l e = ap (λ ys. x ∷ ys) (set_back xs i v a (omega arith) e)

-- `view` is what the enable registers hold, from 0x2000 to 0x200000: a read gives it and changes nothing, and a
-- write changes the register that is written alone. Nothing is supposed of the other registers.
module _ {ℓ} {W : Type ℓ} (read32 : (off : ℕ) → W → ℕ × W) (write32 : (dat off : ℕ) → W → W)
    (view : W → (off : ℕ) → ℕ)
    (read_view : (off : ℕ) (w : W) → 0x2000 ≤ off → off < 0x200000 → read32 off w ≡ (view w off, w))
    (write_view : (dat off : ℕ) (w : W) (x : ℕ)
      → 0x2000 ≤ x
      → x < 0x200000
      → view (write32 dat off w) x ≡ (if off == x then dat else view w x)) where
  -- Source `n` is enabled for context `ctx`.
  abbrev pub enabled : W → (n ctx : ℕ) → Bool
  enabled w n ctx = bit (n % 32) (view w (reg_intr_en n ctx))

  -- A change of the enable register of `event`, as `put` makes it.
  put_enabled :
      (event n ctx : ℕ) (put : ℕ → ℕ) (w w1 : W) (test : Bool → Bool → Bool)
      → event < 1024
      → n < 1024
      → ((x : ℕ) → 0x2000 ≤ x → x < 0x200000 → view w1 x ≡ view w x)
      → ctx < 15872
      → ((v : ℕ) → bit (n % 32) (put v) ≡ test (bit (n % 32) v) (n % 32 == event % 32))
      → ((t : Bool) → test t false ≡ t)
      → enabled (write32 (put (view w1 (reg_intr_en event 0))) (reg_intr_en event 0) w1) n ctx
        ≡ test (enabled w n ctx) ((n == event) && (ctx == 0))
  put_enabled event n ctx put w w1 test a b same c bits off =
      let r = reg_intr_en n ctx in
      elim (Bool-cases (reg_intr_en event 0 == r)) [
        | inl e ↦
            let q : reg_intr_en event 0 ≡ r = ground (arith, e) in
            let z : ((n == event) && (ctx == 0)) ≡ (n % 32 == event % 32) = ground (arith, q) in
            let v : view (write32 (put (view w1 (reg_intr_en event 0))) (reg_intr_en event 0) w1) r
                ≡ put (view w r) =
              write_view _ _ w1 r (omega arith) (omega arith)
              ∙ ap (λ t. if t then put (view w1 (reg_intr_en event 0)) else view w1 r) e
              ∙ ap (λ x. put (view w1 x)) q
              ∙ ap put (same r (omega arith) (omega arith)) in
            ap (bit (n % 32)) v ∙ bits (view w r) ∙ ap (test (enabled w n ctx)) (sym z)
        | inr e ↦
            let z : ((n == event) && (ctx == 0)) ≡ false = ground (arith, e) in
            let v : view (write32 (put (view w1 (reg_intr_en event 0))) (reg_intr_en event 0) w1) r
                ≡ view w r =
              write_view _ _ w1 r (omega arith) (omega arith)
              ∙ ap (λ t. if t then put (view w1 (reg_intr_en event 0)) else view w1 r) e
              ∙ same r (omega arith) (omega arith) in
            ap (bit (n % 32)) v ∙ sym (off (enabled w n ctx)) ∙ ap (test (enabled w n ctx)) (sym z)
      ]

  enable-enabled :
      (event n ctx : ℕ) (w : W)
      → event < 1024
      → n < 1024
      → ctx < 15872
      → enabled (intc_plic_enable_interrupt read32 write32 event 0 w).1 n ctx
        ≡ (enabled w n ctx || ((n == event) && (ctx == 0)))
  unfolding intc_plic_enable_interrupt
  enable-enabled event n ctx w a b c =
      let w2 = write32 0 (reg_priority_thr 0) (write32 1 (reg_priority event) w) in
      let same : (x : ℕ) → 0x2000 ≤ x → x < 0x200000 → view w2 x ≡ view w x = λ x p q.
        let e : (reg_priority_thr 0 == x) ≡ false = ground arith in
        let f : (reg_priority event == x) ≡ false = ground arith in
        ground (
          arith,
          e,
          f,
          write_view 0 (reg_priority_thr 0) (write32 1 (reg_priority event) w) x p q,
          write_view 1 (reg_priority event) w x p q,
        ) in
      rw (read_view (reg_intr_en event 0) w2 (omega arith) (omega arith)) (
        put_enabled event n ctx (λ v. bit_or v (2 ^ (event % 32))) w w2 ◌||◌ a b same c
          (λ v. bit-set (n % 32) (event % 32) v) (elim [ true ↦ refl | false ↦ refl ]))

  small : (event : ℕ) → 2 ^ (event % 32) < 2 ^ 32
  small event =
      let le : 2 ^ (event % 32) ≤ 2 ^ 31 = pow-le-pow_right (omega arith) {j = 31} (omega arith) in
      omega (arith, le)

  disable-enabled :
      (event n ctx : ℕ) (w : W)
      → event < 1024
      → n < 1024
      → ctx < 15872
      → enabled (intc_plic_disable_interrupt read32 write32 event 0 w).1 n ctx
        ≡ (enabled w n ctx && not ((n == event) && (ctx == 0)))
  unfolding intc_plic_disable_interrupt
  disable-enabled event n ctx w a b c =
      rw (read_view (reg_intr_en event 0) w (omega arith) (omega arith)) (
        put_enabled event n ctx (λ v. bit_and v (2 ^ 32 - 1 - 2 ^ (event % 32))) w w
          (λ s t. s && not t) a b (λ x p q. refl) c
          (λ v. bit-clear (n % 32) (event % 32) v 32 (omega arith) (small event))
          (elim [ true ↦ refl | false ↦ refl ]))

  in_table : (event : ℕ) → event < 64 → no_source read32 write32 (pos event) ≡ false
  in_table event l = ground arith

  -- A handler that is added for a source whose entry is free gets the entry, and the source is enabled for
  -- context 0; which others are enabled, of 1024 sources and 15872 contexts, is as before. For a table of 64
  -- entries, and enable registers that keep what is written.
  pub add_handler-enabled :
      (p : PlicPriv) (event handler : ℕ) (w : W)
      → event < 64
      → length p.hnd ≡ 64
      → get_or p.hnd event 0 ≡ 0
      → (w' : W) × (intc_plic_add_handler read32 write32 (some p) (pos event) handler w
          ≡ (pos 0, some (record p { hnd = set p.hnd event handler }), w'))
        × ((n ctx : ℕ)
            → n < 1024
            → ctx < 15872
            → enabled w' n ctx ≡ (enabled w n ctx || ((n == event) && (ctx == 0))))
  unfolding intc_plic_add_handler
  add_handler-enabled p event handler w l e free =
      let c = in_table event l in
      (
        (intc_plic_enable_interrupt read32 write32 event 0 w).1,
        rw (c, free) refl,
        λ n ctx a b. enable-enabled event n ctx w (omega arith) a b,
      )

  -- A handler that is added gets the entry of its source, and of the sources below 1024 and the contexts below
  -- 15872 that source is enabled for context 0 and all else is enabled as before; removed again, it leaves the
  -- table as it was, and all of them enabled as before. For a table of 64 entries, a source of the table
  -- whose entry is free and which is not enabled, a handler that is not NULL, and enable registers
  -- that are read as they are written; nothing is supposed of the other registers, as that of the claim.
  pub add_handler-remove :
      (p : PlicPriv) (event handler : ℕ) (w : W)
      → event < 64
      → 0 < handler
      → length p.hnd ≡ 64
      → get_or p.hnd event 0 ≡ 0
      → enabled w event 0 ≡ false
      → (w1 w2 : W) × (intc_plic_add_handler read32 write32 (some p) (pos event) handler w
          ≡ (pos 0, some (record p { hnd = set p.hnd event handler }), w1))
        × ((n ctx : ℕ)
            → n < 1024
            → ctx < 15872
            → enabled w1 n ctx ≡ (enabled w n ctx || ((n == event) && (ctx == 0))))
        × (intc_plic_remove_handler read32 write32
              (some (record p { hnd = set p.hnd event handler }))
              (pos event)
              w1
            ≡ (pos 0, some p, w2))
        × ((n ctx : ℕ) → n < 1024 → ctx < 15872 → enabled w2 n ctx ≡ enabled w n ctx)
  unfolding intc_plic_remove_handler
  add_handler-remove p event handler w l pos_handler e free off =
      let c = in_table event l in
      let (w1, added, sources) = add_handler-enabled p event handler w l e free in
      let mine : (get_or (set p.hnd event handler) event 0 == 0) ≡ false =
        ground (arith, get_or-set p.hnd event handler 0 event (omega (arith, l, e)), pos_handler) in
      let back : set (set p.hnd event handler) event 0 ≡ p.hnd =
        set_back p.hnd event handler 0 (omega (arith, l, e)) free in
      (
        w1,
        (intc_plic_disable_interrupt read32 write32 event 0 w1).1,
        added,
        sources,
        rw (c, mine, back) refl,
        λ n ctx a b.
            disable-enabled event n ctx w1 (omega arith) a b
            ∙ ap (λ t. t && not ((n == event) && (ctx == 0))) (sources n ctx a b)
            ∙ undo (enabled w n ctx) ((n == event) && (ctx == 0)) (λ t.
              let q : n ≡ event = ground (arith, t) in
              let z : ctx ≡ 0 = ground (arith, t) in rw (q, z) off),
      )
