-- ===== src/Driver/Prci/Nearest.antt =====
-- The search for the dividers: nothing it passes over is nearer to the target than what it keeps.
use baremetal_crt.Common.{
  ℕ, ◌+◌, ◌*◌, ◌/◌, ◌%◌, ◌^◌, ◌≤◌, ◌<◌, ◌≡◌, refl, ap, false, Bool-cases, inl, inr, arith,
  if◌then◌else◌, count_up-keeps, count_up-lower, count_up-least,
}
use baremetal_crt.Driver.Prci.{
  PllConf, nabs_diff, out_of_ref, out_of_vco, divr_max, divf_max, divq_max, try_divq,
  clk_prci_find_divq, try_divf, clk_prci_find_divf, try_divr, find_divr_loop, filter_found,
  clk_prci_find_divr,
}

-- The VCO's frequency for the reference `ref` and the divider `j`.
abbrev pub vco : (ref j : ℕ) → ℕ
vco ref j = ref * 2 % 2 ^ 64 * (j + 1) % 2 ^ 64

module _ (target : ℕ) where
  -- The distance to the target of what the search keeps.
  abbrev gap : PllConf → ℕ
  gap c = nabs_diff target c.result

  record AtVco (ref v : ℕ) (c : PllConf) : Type 0 where
    aim : c.target ≡ target
    ref_is : c.post_divr ≡ ref
    vco_is : c.post_divf ≡ v

  record AtRef (ref : ℕ) (c : PllConf) : Type 0 where
    aim : c.target ≡ target
    ref_is : c.post_divr ≡ ref

  -- The distances of the outputs for a VCO, for a reference, and for the input.
  abbrev SeenVco : (v k b : ℕ) → Type 0
  SeenVco v k b = b ≡ nabs_diff target (v / 2 ^ k)

  abbrev SeenRef : (ref j b : ℕ) → Type 0
  SeenRef ref j b =
      (out_of_vco (vco ref j) ≡ false)
      × (k : ℕ) × (k < divq_max)
      × (b ≡ nabs_diff target (vco ref j / 2 ^ k))

  abbrev SeenIn : (freq_in i b : ℕ) → Type 0
  SeenIn freq_in i b =
      (out_of_ref (freq_in / (i + 1)) ≡ false)
      × (j : ℕ) × (j < divf_max)
      × SeenRef (freq_in / (i + 1)) j b

  try_divq-AtVco : (ref v k : ℕ) (c : PllConf) → AtVco ref v c → AtVco ref v (try_divq k c)
  unfolding try_divq
  try_divq-AtVco ref v k c h = ground (arith, h)

  try_divq-gap :
      (ref v k : ℕ) (c : PllConf)
      → AtVco ref v c
      → (gap (try_divq k c) ≤ gap c) × (gap (try_divq k c) ≤ nabs_diff target (v / 2 ^ k))
  unfolding try_divq
  try_divq-gap ref v k c h = ground (arith, h.aim, h.vco_is)

  clk_prci_find_divq-AtVco :
      (ref v : ℕ) (c : PllConf) → AtVco ref v c → AtVco ref v (clk_prci_find_divq c)
  unfolding clk_prci_find_divq
  clk_prci_find_divq-AtVco ref v c h =
      count_up-keeps (AtVco ref v) try_divq divq_max 0 c (λ k t _ _ g. try_divq-AtVco ref v k t g) h

  clk_prci_find_divq-gap :
      (ref v : ℕ) (c : PllConf) → AtVco ref v c → gap (clk_prci_find_divq c) ≤ gap c
  unfolding clk_prci_find_divq
  clk_prci_find_divq-gap ref v c h =
      count_up-lower (AtVco ref v) gap (SeenVco v) try_divq (try_divq-AtVco ref v)
        (λ k s g. (try_divq-gap ref v k s g).0)
        (λ k s g b e. omega (arith, (try_divq-gap ref v k s g).1, e)) divq_max 0 c h

  clk_prci_find_divq-nearest :
      (ref v : ℕ) (c : PllConf)
      → AtVco ref v c
      → (k : ℕ) → k < divq_max
      → gap (clk_prci_find_divq c) ≤ nabs_diff target (v / 2 ^ k)
  unfolding clk_prci_find_divq
  clk_prci_find_divq-nearest ref v c h k l =
      count_up-least (AtVco ref v) gap (SeenVco v) try_divq (try_divq-AtVco ref v)
        (λ k s g. (try_divq-gap ref v k s g).0)
        (λ k s g b e. omega (arith, (try_divq-gap ref v k s g).1, e)) divq_max 0 c h k
        (nabs_diff target (v / 2 ^ k)) (omega arith) l refl

  abbrev with_divf : (ref i : ℕ) → PllConf → PllConf
  with_divf ref i c = record c { divf = i; post_divf = vco ref i }

  at_vco : (ref i : ℕ) (c : PllConf) → AtRef ref c → AtVco ref (vco ref i) (with_divf ref i c)
  at_vco ref i c h = record { aim = h.aim; ref_is = h.ref_is; vco_is = refl }

  -- The round `i` of the search for `divf`, written with the reference that it works at.
  try_divf-at :
      (ref i : ℕ) (c : PllConf)
      → AtRef ref c
      → try_divf i c
        ≡ (if out_of_vco (vco ref i) then c else clk_prci_find_divq (with_divf ref i c))
  unfolding try_divf
  try_divf-at ref i c h =
      ap (λ m. if out_of_vco (vco m i) then c else clk_prci_find_divq (with_divf m i c)) h.ref_is

  try_divf-AtRef : (ref i : ℕ) (c : PllConf) → AtRef ref c → AtRef ref (try_divf i c)
  try_divf-AtRef ref i c h = elim (Bool-cases (out_of_vco (vco ref i))) [
    | inl out ↦ rw (try_divf-at ref i c h, out) h
    | inr e ↦
        let g = clk_prci_find_divq-AtVco ref (vco ref i) (with_divf ref i c) (at_vco ref i c h) in
        rw (try_divf-at ref i c h, e) (record { aim = g.aim; ref_is = g.ref_is })
  ]

  try_divf-lower : (ref i : ℕ) (c : PllConf) → AtRef ref c → gap (try_divf i c) ≤ gap c
  try_divf-lower ref i c h = elim (Bool-cases (out_of_vco (vco ref i))) [
    | inl out ↦ rw (try_divf-at ref i c h, out) (omega arith)
    | inr e ↦
        rw (try_divf-at ref i c h, e)
          (clk_prci_find_divq-gap ref (vco ref i) (with_divf ref i c) (at_vco ref i c h))
  ]

  try_divf-least :
      (ref i : ℕ) (c : PllConf) → AtRef ref c → (b : ℕ) → SeenRef ref i b → gap (try_divf i c) ≤ b
  try_divf-least ref i c h b (e, k, l, same) =
      rw (try_divf-at ref i c h, e, same)
        (clk_prci_find_divq-nearest ref (vco ref i) (with_divf ref i c) (at_vco ref i c h) k l)

  clk_prci_find_divf-AtRef :
      (ref : ℕ) (c : PllConf) → AtRef ref c → AtRef ref (clk_prci_find_divf c)
  unfolding clk_prci_find_divf
  clk_prci_find_divf-AtRef ref c h =
      count_up-keeps (AtRef ref) try_divf divf_max 0 c (λ i t _ _ g. try_divf-AtRef ref i t g) h

  clk_prci_find_divf-gap :
      (ref : ℕ) (c : PllConf) → AtRef ref c → gap (clk_prci_find_divf c) ≤ gap c
  unfolding clk_prci_find_divf
  clk_prci_find_divf-gap ref c h =
      count_up-lower (AtRef ref) gap (SeenRef ref) try_divf (try_divf-AtRef ref)
        (try_divf-lower ref) (try_divf-least ref) divf_max 0 c h

  clk_prci_find_divf-nearest :
      (ref : ℕ) (c : PllConf)
      → AtRef ref c
      → (i b : ℕ) → i < divf_max
      → SeenRef ref i b
      → gap (clk_prci_find_divf c) ≤ b
  unfolding clk_prci_find_divf
  clk_prci_find_divf-nearest ref c h i b l x =
      count_up-least (AtRef ref) gap (SeenRef ref) try_divf (try_divf-AtRef ref)
        (try_divf-lower ref) (try_divf-least ref) divf_max 0 c h i b (omega arith) l x

  abbrev Aims : PllConf → Type 0
  Aims c = c.target ≡ target

  abbrev with_divr : (freq_in i : ℕ) → PllConf → PllConf
  with_divr freq_in i c = record c { divr = i; post_divr = freq_in / (i + 1) }

  at_ref :
      (freq_in i : ℕ) (c : PllConf) → Aims c → AtRef (freq_in / (i + 1)) (with_divr freq_in i c)
  at_ref freq_in i c h = record { aim = h; ref_is = refl }

  try_divr-Aims : (freq_in i : ℕ) (c : PllConf) → Aims c → Aims (try_divr freq_in i c)
  unfolding try_divr
  try_divr-Aims freq_in i c h = elim (Bool-cases (out_of_ref (freq_in / (i + 1)))) [
    | inl out ↦ rw out h
    | inr e ↦
        rw e
          (clk_prci_find_divf-AtRef (freq_in / (i + 1)) (with_divr freq_in i c)
            (at_ref freq_in i c h)).aim
  ]

  try_divr-lower : (freq_in i : ℕ) (c : PllConf) → Aims c → gap (try_divr freq_in i c) ≤ gap c
  unfolding try_divr
  try_divr-lower freq_in i c h = elim (Bool-cases (out_of_ref (freq_in / (i + 1)))) [
    | inl out ↦ rw out (omega arith)
    | inr e ↦
        rw e (
          clk_prci_find_divf-gap (freq_in / (i + 1)) (with_divr freq_in i c) (at_ref freq_in i c h))
  ]

  try_divr-least :
      (freq_in i : ℕ) (c : PllConf)
      → Aims c
      → (b : ℕ) → SeenIn freq_in i b
      → gap (try_divr freq_in i c) ≤ b
  unfolding try_divr
  try_divr-least freq_in i c h b (e, j, l, x) = rw e (
      clk_prci_find_divf-nearest (freq_in / (i + 1)) (with_divr freq_in i c) (at_ref freq_in i c h)
        j b l x)

  pub find_divr_loop-nearest :
      (freq_in : ℕ) (c : PllConf)
      → Aims c
      → (i b : ℕ) → i < divr_max
      → SeenIn freq_in i b
      → gap (find_divr_loop freq_in c) ≤ b
  unfolding find_divr_loop
  find_divr_loop-nearest freq_in c h i b l x =
      count_up-least Aims gap (SeenIn freq_in) (try_divr freq_in) (try_divr-Aims freq_in)
        (try_divr-lower freq_in) (try_divr-least freq_in) divr_max 0 c h i b (omega arith) l x

filter_found-result : (c : PllConf) → (filter_found c).1.result ≡ c.result
unfolding filter_found
filter_found-result c = ground arith

-- Where the search for the dividers of a PLL begins with the target in its record, its result is at
-- least as near to the target as the output of any dividers that leave the reference and the VCO in
-- range, whether it reports them as found or not. The distance is the code's, modulo 2^64.
pub clk_prci_find_divr-nearest :
    (freq_in i j k : ℕ) (c : PllConf)
    → i < divr_max
    → j < divf_max
    → k < divq_max
    → out_of_ref (freq_in / (i + 1)) ≡ false
    → out_of_vco (vco (freq_in / (i + 1)) j) ≡ false
    → nabs_diff c.target (clk_prci_find_divr freq_in c).1.result
      ≤ nabs_diff c.target (vco (freq_in / (i + 1)) j / 2 ^ k)
unfolding clk_prci_find_divr
clk_prci_find_divr-nearest freq_in i j k c li lj lk r v =
    rw (filter_found-result (find_divr_loop freq_in (record c { result = 0; found = false }))) (
      find_divr_loop-nearest c.target freq_in (record c { result = 0; found = false }) refl i
        (nabs_diff c.target (vco (freq_in / (i + 1)) j / 2 ^ k)) li (r, j, lj, (v, k, lk, refl)))
