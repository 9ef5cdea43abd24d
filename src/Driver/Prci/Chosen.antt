-- ===== src/Driver/Prci/Chosen.antt =====
-- What the search for the dividers leaves, and the word for the register of the PLL.
use baremetal_crt.Common.{
  ℕ, ◌+◌, ◌/◌, ◌^◌, ◌≤◌, ◌<◌, ◌≡◌, ◌⊎◌, refl, ap, false, true, Bool-cases, inl, inr, arith,
  count_up-keeps, pos, einval, ℤ, leb, some,
}
use baremetal_crt.Driver.Prci.{
  PllConf, nabs_diff, out_of_ref, out_of_vco, divr_max, divf_max, divq_max, clk_prci_filter_range,
  range_of, try_divq, clk_prci_find_divq, try_divf, clk_prci_find_divf, try_divr, find_divr_loop,
  filter_found, clk_prci_find_divr,
}
use baremetal_crt.Driver.Prci.Nearest.{vco, clk_prci_find_divr-nearest}

-- The dividers that are kept give the result, and leave the reference and the VCO in range.
pub record IsOutput (freq_in result divr ref divf divq : ℕ) : Type 0 where
  pub divr_lt : divr < divr_max
  pub divf_lt : divf < divf_max
  pub divq_lt : divq < divq_max
  pub reference : ref ≡ freq_in / (divr + 1)
  pub ref_in : out_of_ref ref ≡ false
  pub vco_in : out_of_vco (vco ref divf) ≡ false
  pub output : result ≡ vco ref divf / 2 ^ divq

abbrev pub IsFrom : (freq_in : ℕ) → PllConf → Type 0
IsFrom freq_in c =
    IsOutput freq_in c.result c.divr_found c.post_divr_found c.divf_found c.divq_found

module _ (freq_in : ℕ) where
  -- What is found is an output, and nothing found leaves the result at 0.
  abbrev Kept : PllConf → Type 0
  Kept c = (c.found ≡ true → IsFrom freq_in c) × (c.found ≡ false → c.result ≡ 0)

  -- Where an inner search starts.
  record AtRef (c : PllConf) : Type 0 where
    divr_lt : c.divr < divr_max
    ref_is : c.post_divr ≡ freq_in / (c.divr + 1)
    ref_in : out_of_ref c.post_divr ≡ false
    kept : Kept c

  record AtVco (c : PllConf) : Type 0 where
    at : AtRef c
    divf_lt : c.divf < divf_max
    vco_is : c.post_divf ≡ vco c.post_divr c.divf
    vco_in : out_of_vco c.post_divf ≡ false

  try_divq-AtVco : (i : ℕ) (c : PllConf) → i < divq_max → AtVco c → AtVco (try_divq i c)
  unfolding try_divq
  try_divq-AtVco i c l h =
      elim (Bool-cases
        (leb (nabs_diff c.target c.result) (nabs_diff c.target (c.post_divf / 2 ^ i)))) [
          | inl e ↦ rw e h
          | inr e ↦ rw e (record {
            at = record {
              divr_lt = h.at.divr_lt;
              ref_is = h.at.ref_is;
              ref_in = h.at.ref_in;
              kept = (
                (λ _. record {
                  divr_lt = h.at.divr_lt;
                  divf_lt = h.divf_lt;
                  divq_lt = l;
                  reference = h.at.ref_is;
                  ref_in = h.at.ref_in;
                  vco_in = rw (← h.vco_is) h.vco_in;
                  output = ap (λ (v : ℕ). v / 2 ^ i) h.vco_is;
                }),
                λ f. cc f,
              );
            };
            divf_lt = h.divf_lt;
            vco_is = h.vco_is;
            vco_in = h.vco_in;
          })
        ]

  try_divf-AtRef : (i : ℕ) (c : PllConf) → i < divf_max → AtRef c → AtRef (try_divf i c)
  unfolding try_divf clk_prci_find_divq
  try_divf-AtRef i c l h = elim (Bool-cases (out_of_vco (vco c.post_divr i))) [
    | inl e ↦ rw e h
    | inr e ↦
        rw e
          (count_up-keeps AtVco try_divq divq_max 0
            (record c { divf = i; post_divf = vco c.post_divr i })
            (λ k t _ m g. try_divq-AtVco k t m g)
            (record {
              at = record {
                divr_lt = h.divr_lt;
                ref_is = h.ref_is;
                ref_in = h.ref_in;
                kept = h.kept;
              };
              divf_lt = l;
              vco_is = refl;
              vco_in = e;
            })).at
  ]

  try_divr-Kept : (i : ℕ) (c : PllConf) → i < divr_max → Kept c → Kept (try_divr freq_in i c)
  unfolding try_divr clk_prci_find_divf
  try_divr-Kept i c l h = elim (Bool-cases (out_of_ref (freq_in / (i + 1)))) [
    | inl e ↦ rw e h
    | inr e ↦
        rw e
          (count_up-keeps AtRef try_divf divf_max 0
            (record c { divr = i; post_divr = freq_in / (i + 1) })
            (λ k t _ m g. try_divf-AtRef k t m g)
            (record { divr_lt = l; ref_is = refl; ref_in = e; kept = h })).kept
  ]

  find_divr_loop-Kept : (c : PllConf) → Kept c → Kept (find_divr_loop freq_in c)
  unfolding find_divr_loop
  find_divr_loop-Kept c h =
      count_up-keeps Kept (try_divr freq_in) divr_max 0 c (λ k t _ m g. try_divr-Kept k t m g) h

range_of-bounds : (f : ℕ) → (1 ≤ range_of f) × (range_of f ≤ 7)
unfolding range_of
range_of-bounds f = ground arith

filter_range-in :
    (f : ℕ) → out_of_ref f ≡ false → clk_prci_filter_range f ≡ (pos 0, some (range_of f))
unfolding clk_prci_filter_range
filter_range-in f h = rw h

-- What the search comes to: no setting, or one whose output it reports.
pub record IsChosen (freq_in : ℕ) (r : ℤ) (c : PllConf) : Type 0 where
  pub done : r ≡ pos 0
  pub range_ge : 1 ≤ c.range
  pub range_le : c.range ≤ 7
  pub from_dividers : IsFrom freq_in c

filter_found-IsChosen :
    (freq_in : ℕ) (c : PllConf)
    → Kept freq_in c
    → ((filter_found c).0 ≡ einval) ⊎ IsChosen freq_in (filter_found c).0 (filter_found c).1
unfolding filter_found
filter_found-IsChosen freq_in c h = elim (Bool-cases c.found) [
  | inl e ↦
      let r = range_of-bounds c.post_divr_found in
      rw (e, filter_range-in c.post_divr_found (h.0 e).ref_in)
        (inr (record { done = refl; range_ge = r.0; range_le = r.1; from_dividers = h.0 e }))
  | inr e ↦ rw e (inl refl)
]

-- The search for the dividers of a PLL either fails with -EINVAL, or returns 0 with dividers below their
-- limits, whose reference and VCO frequencies are in range, a range code from 1 to 7, and as its
-- result exactly the output of these dividers.
pub clk_prci_find_divr-IsChosen :
    (freq_in : ℕ) (c : PllConf)
    → ((clk_prci_find_divr freq_in c).0 ≡ einval)
      ⊎ IsChosen freq_in (clk_prci_find_divr freq_in c).0 (clk_prci_find_divr freq_in c).1
unfolding clk_prci_find_divr
clk_prci_find_divr-IsChosen freq_in c =
    filter_found-IsChosen freq_in (find_divr_loop freq_in (record c { result = 0; found = false }))
      (find_divr_loop-Kept freq_in (record c { result = 0; found = false })
        ((λ f. cc f), λ _. refl))

filter_found-some :
    (c : PllConf)
    → c.found ≡ true
    → out_of_ref c.post_divr_found ≡ false
    → (filter_found c).0 ≡ pos 0
unfolding filter_found
filter_found-some c f r = rw (f, filter_range-in c.post_divr_found r)

filter_found-einval :
    (freq_in : ℕ) (c : PllConf)
    → Kept freq_in c
    → (filter_found c).0 ≡ einval
    → (filter_found c).1.result ≡ 0
unfolding filter_found
filter_found-einval freq_in c h e = elim (Bool-cases c.found) [
  | inl f ↦ cc (filter_found-some c f ((h.0 f).ref_in), e)
  | inr f ↦ rw f (h.1 f)
]

find_divr-einval :
    (freq_in : ℕ) (c : PllConf)
    → (clk_prci_find_divr freq_in c).0 ≡ einval
    → (clk_prci_find_divr freq_in c).1.result ≡ 0
unfolding clk_prci_find_divr
find_divr-einval freq_in c =
    filter_found-einval freq_in (find_divr_loop freq_in (record c { result = 0; found = false })) (
      find_divr_loop-Kept freq_in (record c { result = 0; found = false }) ((λ f. cc f), λ _. refl))

-- The search for the dividers fails with -EINVAL only where no dividers that leave the reference and the
-- VCO in range have an output that is nearer to the target than 0 is.
pub clk_prci_find_divr-fails :
    (freq_in i j k : ℕ) (c : PllConf)
    → (clk_prci_find_divr freq_in c).0 ≡ einval
    → i < divr_max
    → j < divf_max
    → k < divq_max
    → out_of_ref (freq_in / (i + 1)) ≡ false
    → out_of_vco (vco (freq_in / (i + 1)) j) ≡ false
    → nabs_diff c.target 0 ≤ nabs_diff c.target (vco (freq_in / (i + 1)) j / 2 ^ k)
clk_prci_find_divr-fails freq_in i j k c e li lj lk r v =
    rw (← find_divr-einval freq_in c e) (clk_prci_find_divr-nearest freq_in i j k c li lj lk r v)
