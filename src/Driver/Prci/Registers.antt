-- ===== src/Driver/Prci/Registers.antt =====
-- driver/clk/sifive/prci.c: the registers of the PLLs and the clocks that the device gives.
use Prim.Native.Nat.{bit_and, bit_or}
use baremetal_crt.Common.{
  ℕ, zero, suc, ◌-◌, ◌*◌, ◌/◌, ◌%◌, ◌^◌, Bool, true, false, Option, none, some, ◌==◌, if◌then◌else◌,
  ◌>>=◌, ℤ, pos, eq_ℤ, einval,
}
use baremetal_crt.Driver.Prci.{PllConf, clk_prci_find_divr}

-- PRCI_INDEX_DDRCTRLCLK, PRCI_INDEX_TLCLK, PRCI_INDEX_CORECLK and PRCI_INDEX_GEMGXLCLK
pub data Index : Type 0 where
  ddrctrlclk : Index
  tlclk : Index
  coreclk : Index
  gemgxlclk : Index

-- The entries of `pllcfg_offs` and `clksel_offs`; `none` is -1, no such register.
pub record PllOffs : Type 0 where
  pub pllcfg0 : Option ℕ
  pub pllcfg1 : Option ℕ
  pub clksel : Option ℕ

unfoldable pub offs : Index → PllOffs
offs ddrctrlclk = record { pllcfg0 = some 0x0c; pllcfg1 = some 0x10; clksel = none }
offs tlclk = record { pllcfg0 = none; pllcfg1 = none; clksel = none }
offs coreclk = record { pllcfg0 = some 0x04; pllcfg1 = none; clksel = some 0x24 }
offs gemgxlclk = record { pllcfg0 = some 0x1c; pllcfg1 = some 0x20; clksel = none }

-- The value that is written to the configuration of the PLL, with PRCI_PLLCFG_FSE.
unfoldable pub pllcfg_word : PllConf → ℕ
pllcfg_word c =
    bit_or
      (bit_or
        (bit_or (bit_or (c.divr_found * 2 ^ 0) (c.divf_found * 2 ^ 6)) (c.divq_found * 2 ^ 15))
        (c.range * 2 ^ 18))
      (1 * 2 ^ 25)
    % 2 ^ 32

-- `struct clk_prci_priv`, less the input clock.
pub record Prci : Type 0 where
  pub freq_in : ℕ
  pub freq_ddrctrl : ℕ
  pub freq_core : ℕ
  pub freq_gemgxl : ℕ

-- PRCI_PLLCFG_LOCK
abbrev pll_lock : ℕ
pll_lock = 2 ^ 31

-- `v |= BIT(n)` or `v &= ~BIT(n)` on 32 bits.
abbrev pub put_bit : (n : ℕ) → Bool → (v : ℕ) → ℕ
put_bit n on v = if on then bit_or v (2 ^ n) else bit_and v (2 ^ 32 - 1 - 2 ^ n)

unfoldable pub clk_prci_get_freq : Prci → Index → ℕ
clk_prci_get_freq p ddrctrlclk = p.freq_ddrctrl
clk_prci_get_freq p tlclk = p.freq_core / 2
clk_prci_get_freq p coreclk = p.freq_core
clk_prci_get_freq p gemgxlclk = p.freq_gemgxl

-- `*freq_found = freq`, at the field of the clock; the caller has refused TLCLK.
unfoldable pub store_freq : Index → (freq : ℕ) → Prci → Prci
store_freq ddrctrlclk f p = record p { freq_ddrctrl = f }
store_freq tlclk f p = p
store_freq coreclk f p = record p { freq_core = f }
store_freq gemgxlclk f p = record p { freq_gemgxl = f }

-- `struct clk_prci_pllcfg conf = {0}`, with the target.
unfoldable pub conf_for : (target : ℕ) → PllConf
conf_for target = record {
  target = target;
  divr = 0;
  post_divr = 0;
  divf = 0;
  post_divf = 0;
  result = 0;
  divr_found = 0;
  post_divr_found = 0;
  divf_found = 0;
  divq_found = 0;
  range = 0;
  found = false;
}

-- The registers are a device `W`, whose reads may change it.
module _ {W : Type 0} (read32 : (off : ℕ) → W → ℕ × W) (write32 : (dat off : ℕ) → W → W) where
  -- The busy wait for the lock of the PLL, on fuel.
  unfoldable pub wait_lock : (fuel off : ℕ) → W → Option W
  wait_lock zero off w = none
  wait_lock (suc f) off w =
      let (v, w') = read32 off w in
      let rest = wait_lock f off w' in if bit_and v pll_lock == 0 then rest else some w'

  unfoldable pub write_pllcfg :
      (fuel : ℕ) → Index → (off : ℕ) → ℤ × PllConf → Prci × W → Option (ℤ × Prci × W)
  write_pllcfg fuel index off (r, c) (p, w) =
      if eq_ℤ r (pos 0)
      then (do
        w' ← wait_lock fuel off (write32 (pllcfg_word c) off w)
        some (pos 0, store_freq index c.result p, w'))
      else some (r, p, w)

  -- `index` says where `freq_found` points.
  unfoldable pub clk_prci_update_pllcfg :
      (fuel : ℕ) → (target : ℕ) → Index → (off : ℕ) → Prci × W → Option (ℤ × Prci × W)
  unfolding write_pllcfg conf_for
  clk_prci_update_pllcfg fuel target index off (p, w) =
      write_pllcfg fuel index off (clk_prci_find_divr p.freq_in (conf_for target)) (p, w)

  unfoldable pub clk_prci_update_cke : (enable : Bool) → (off : ℕ) → W → ℤ × W
  clk_prci_update_cke enable off w =
      let (v, w') = read32 off w in (pos 0, write32 (put_bit 24 enable v) off w')

  unfoldable pub clk_prci_update_clksel : (bypass : Bool) → (off : ℕ) → W → ℤ × W
  clk_prci_update_clksel bypass off w =
      let (v, w') = read32 off w in (pos 0, write32 (put_bit 0 bypass v) off w')

  -- `if (off != -1) { r = update(...); if (r) return r; }` before the rest.
  unfoldable pub update_if : Option ℕ → (ℕ → W → ℤ × W) → (W → ℤ × W) → W → ℤ × W
  update_if none update rest w = rest w
  update_if (some off) update rest w =
      let (r, w') = update off w in if eq_ℤ r (pos 0) then rest w' else (r, w')

  -- TLCLK is half of CORECLK.
  unfoldable pub source_of : Index → Index
  source_of tlclk = coreclk
  source_of i = i

  unfoldable pub clk_prci_enable : Index → W → ℤ × W
  unfolding update_if offs source_of clk_prci_update_cke clk_prci_update_clksel
  clk_prci_enable i w =
      let o = offs (source_of i) in
      update_if o.pllcfg1 (clk_prci_update_cke true)
        (update_if o.clksel (clk_prci_update_clksel false) (λ v. (pos 0, v))) w

  unfoldable pub clk_prci_disable : Index → W → ℤ × W
  unfolding update_if offs source_of clk_prci_update_cke clk_prci_update_clksel
  clk_prci_disable i w =
      let o = offs (source_of i) in
      update_if o.clksel (clk_prci_update_clksel true)
        (update_if o.pllcfg1 (clk_prci_update_cke false) (λ v. (pos 0, v))) w

  unfoldable pub clk_prci_set_freq :
      (fuel : ℕ) → Index → (freq : ℕ) → Prci × W → Option (ℤ × Prci × W)
  unfolding clk_prci_update_pllcfg offs
  clk_prci_set_freq fuel i freq (p, w) = elim ((offs i).pllcfg0) [
    | none ↦ some (einval, p, w)
    | some off ↦ clk_prci_update_pllcfg fuel freq i off (p, w)
  ]
