-- ===== src/Driver/Prci.antt =====
-- driver/clk/sifive/prci.c: the search for the dividers of a PLL, and the registers of the clocks.
-- Frequencies are 64 bits wide.
pub mod Nearest
pub mod Chosen
pub mod Registers
pub mod Word
use baremetal_crt.Common.{
  ℕ, ◌+◌, ◌-◌, ◌*◌, ◌/◌, ◌%◌, ◌^◌, Bool, true, false, ◌||◌, not, Option, none, some, ltb, leb, ◌==◌,
  count_up, if◌then◌else◌, ℤ, pos, negsuc, einval,
}

-- PRCI_PLLCFG_DIVR_MAX, PRCI_PLLCFG_DIVF_MAX and PRCI_PLLCFG_DIVQ_MAX
abbrev pub divr_max : ℕ
divr_max = 64

abbrev pub divf_max : ℕ
divf_max = 512

abbrev pub divq_max : ℕ
divq_max = 7

-- `post_divr < PRCI_REF_MIN || PRCI_REF_MAX <= post_divr`
abbrev pub out_of_ref : ℕ → Bool
out_of_ref f = ltb f 7000000 || leb 200000000 f

-- `post_divf < PRCI_VCO_MIN || PRCI_VCO_MAX <= post_divf`
abbrev pub out_of_vco : ℕ → Bool
out_of_vco f = ltb f 2400000000 || leb 4800000000 f

-- `struct clk_prci_pllcfg`, less `divq`, which nothing uses.
pub record PllConf : Type 0 where
  pub target : ℕ
  pub divr : ℕ
  pub post_divr : ℕ
  pub divf : ℕ
  pub post_divf : ℕ
  pub result : ℕ
  pub divr_found : ℕ
  pub post_divr_found : ℕ
  pub divf_found : ℕ
  pub divq_found : ℕ
  pub range : ℕ
  pub found : Bool

-- `NABS((int64_t)(a - b))`
unfoldable pub nabs_diff : (a b : ℕ) → ℕ
nabs_diff a b = let d = (a + 2 ^ 64 - b) % 2 ^ 64 in if ltb d (2 ^ 63) then d else 2 ^ 64 - d

-- -ERANGE
abbrev pub erange : ℤ
erange = negsuc 33

-- The cases of the switch in `clk_prci_filter_range`.
unfoldable pub range_of : (post_divr : ℕ) → ℕ
range_of f =
    if ltb f 11000000
    then 1
    else if ltb f 18000000
    then 2
    else if ltb f 30000000
    then 3
    else if ltb f 50000000
    then 4
    else if ltb f 80000000
    then 5
    else if ltb f 130000000
    then 6
    else 7

-- The result and what is written to `*range`.
unfoldable pub clk_prci_filter_range : (post_divr : ℕ) → ℤ × Option ℕ
clk_prci_filter_range f = if out_of_ref f then (erange, none) else (pos 0, some (range_of f))

-- The body of the loop of `clk_prci_find_divq`.
unfoldable pub try_divq : (i : ℕ) → PllConf → PllConf
try_divq i c =
    let post_divq = c.post_divf / 2 ^ i in
    if leb (nabs_diff c.target c.result) (nabs_diff c.target post_divq) then c else record c {
      result = post_divq;
      divr_found = c.divr;
      post_divr_found = c.post_divr;
      divf_found = c.divf;
      divq_found = i;
      found = true;
    }

unfoldable pub clk_prci_find_divq : PllConf → PllConf
unfolding try_divq
clk_prci_find_divq c = count_up try_divq divq_max 0 c

-- The results of the inner searches are dropped, as `found` tells the same.
unfoldable pub try_divf : (i : ℕ) → PllConf → PllConf
unfolding clk_prci_find_divq
try_divf i c =
    let post_divf = c.post_divr * 2 % 2 ^ 64 * (i + 1) % 2 ^ 64 in
    if out_of_vco post_divf
    then c
    else clk_prci_find_divq (record c { divf = i; post_divf = post_divf })

unfoldable pub clk_prci_find_divf : PllConf → PllConf
unfolding try_divf
clk_prci_find_divf c = count_up try_divf divf_max 0 c

unfoldable pub try_divr : (freq_in i : ℕ) → PllConf → PllConf
unfolding clk_prci_find_divf
try_divr freq_in i c =
    let post_divr = freq_in / (i + 1) in
    if out_of_ref post_divr
    then c
    else clk_prci_find_divf (record c { divr = i; post_divr = post_divr })

unfoldable pub find_divr_loop : (freq_in : ℕ) → PllConf → PllConf
unfolding try_divr
find_divr_loop freq_in c = count_up (try_divr freq_in) divr_max 0 c

-- After the loop: the range of the reference that was found.
unfoldable pub filter_found : PllConf → ℤ × PllConf
filter_found c =
    if c.found
    then elim ((clk_prci_filter_range c.post_divr_found).1) [
      | none ↦ (einval, c)
      | some r ↦ (pos 0, record c { range = r })
    ]
    else (einval, c)

unfoldable pub clk_prci_find_divr : (freq_in : ℕ) → PllConf → ℤ × PllConf
unfolding find_divr_loop filter_found
clk_prci_find_divr freq_in c =
    filter_found (find_divr_loop freq_in (record c { result = 0; found = false }))
