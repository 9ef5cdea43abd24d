-- ===== src/Intc/RvPriv/Masks.antt =====
-- Which interrupts a CPU takes after its controller was told of a wakeup or a sleep.
use Prim.Native.Nat.{bit_or}
use baremetal_crt.Common.{
  ℕ, ◌-◌, ◌^◌, ◌<◌, ◌≡◌, refl, ap, sym, ◌∙◌, Bool, true, false, not, ◌&&◌, ◌||◌, ◌==◌,
  if◌then◌else◌, arith, pos,
}
use baremetal_crt.Common.Masks.{bit, bit-zero, bit-set, bit-and, bit-or, bit-complement}
use baremetal_crt.Event.{event_handled}
use baremetal_crt.Intc.RvPriv.{
  IntcPriv, intr_mask, intc_priv_update_intr_mask, intc_priv_cpu_event, intc_priv_disable, line_of,
}

-- The interrupts that the controller takes care of: the software interrupt always, and the others where
-- they are in use and enabled.
abbrev pub selected : IntcPriv → (j : ℕ) → Bool
selected p j =
    (((p.has_ex && p.enabled_ex) && (j == 11)) || ((p.has_tm && p.enabled_tm) && (j == 7)))
    || (j == 3)

or_false : (b : Bool) → (b || false) ≡ b
or_false true = refl
or_false false = refl

and_true : (b : Bool) → (b && true) ≡ b
and_true true = refl
and_true false = refl

mask_step :
    (b : Bool) (j n m : ℕ)
    → bit j (if b then bit_or m (2 ^ n) else m) ≡ (bit j m || (b && (j == n)))
mask_step true j n m = bit-set j n m
mask_step false j n m = sym (or_false (bit j m))

bit-intr_mask : (p : IntcPriv) (j : ℕ) → bit j (intr_mask p) ≡ selected p j
unfolding intr_mask
bit-intr_mask p j =
    let m1 = if p.has_ex && p.enabled_ex then bit_or 0 (2 ^ 11) else 0 in
    let m2 = if p.has_tm && p.enabled_tm then bit_or m1 (2 ^ 7) else m1 in
    bit-set j 3 m2
    ∙ ap (λ t. t || (j == 3))
        (mask_step (p.has_tm && p.enabled_tm) j 7 m1
          ∙ ap (λ t. t || ((p.has_tm && p.enabled_tm) && (j == 7)))
              (mask_step (p.has_ex && p.enabled_ex) j 11 0
                ∙ ap (λ t. t || ((p.has_ex && p.enabled_ex) && (j == 11))) (bit-zero j)))

mask-lt :
    (a b : Bool)
    → bit_or (if b then bit_or (if a then 2048 else 0) 128 else (if a then 2048 else 0)) 8 < 2 ^ 64
mask-lt true true = omega arith
mask-lt true false = omega arith
mask-lt false true = omega arith
mask-lt false false = omega arith

intr_mask-lt : (p : IntcPriv) → intr_mask p < 2 ^ 64
unfolding intr_mask
intr_mask-lt p = mask-lt (p.has_ex && p.enabled_ex) (p.has_tm && p.enabled_tm)

-- After a wakeup the CPU takes, beside what it took before, exactly the interrupts that are selected; after a
-- sleep it takes none of those, and the others as before. Both events are handled.
pub intc_priv_cpu_event-bits :
    (p : IntcPriv) (mie j : ℕ)
    → j < 64
    → ((intc_priv_cpu_event p (pos 1) mie).0 ≡ event_handled)
      × (bit j (intc_priv_cpu_event p (pos 1) mie).1 ≡ (bit j mie || selected p j))
      × ((intc_priv_cpu_event p (pos 2) mie).0 ≡ event_handled)
      × (bit j (intc_priv_cpu_event p (pos 2) mie).1 ≡ (bit j mie && not (selected p j)))
unfolding intc_priv_cpu_event intc_priv_update_intr_mask
intc_priv_cpu_event-bits p mie j l = (
  refl,
  bit-or j mie (intr_mask p) ∙ ap (λ t. bit j mie || t) (bit-intr_mask p j),
  refl,
  bit-and j mie (2 ^ 64 - 1 - intr_mask p)
      ∙ ap (λ t. bit j mie && t)
          (bit-complement j 64 (intr_mask p) l (intr_mask-lt p) ∙ ap not (bit-intr_mask p j)),
)

disabled :
    (a b c : Bool) → ((((a && b) && (7 == 11)) || ((c && false) && (7 == 7))) || (7 == 3)) ≡ false
disabled true true true = refl
disabled true true false = refl
disabled true false true = refl
disabled true false false = refl
disabled false b true = refl
disabled false b false = refl

-- A timer interrupt that has been disabled stays as it is in the register: neither a wakeup nor a
-- sleep of the CPU changes it.
pub intc_priv_disable-stays :
    (p : IntcPriv) (mie : ℕ)
    → let q = (intc_priv_disable (pos 7) p).1 in
      (bit 7 (intc_priv_cpu_event q (pos 1) mie).1 ≡ bit 7 mie)
      × (bit 7 (intc_priv_cpu_event q (pos 2) mie).1 ≡ bit 7 mie)
unfolding intc_priv_disable line_of
intc_priv_disable-stays p mie =
    let q = (intc_priv_disable (pos 7) p).1 in
    let (_, up, _, down) = intc_priv_cpu_event-bits q mie 7 (omega arith) in
    let none_of : selected q 7 ≡ false = disabled p.has_ex p.enabled_ex p.has_tm in
    (
      up ∙ ap (λ t. bit 7 mie || t) none_of ∙ or_false (bit 7 mie),
      down ∙ ap (λ t. bit 7 mie && not t) none_of ∙ and_true (bit 7 mie),
    )
