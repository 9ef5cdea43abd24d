-- ===== src/Tests/Drivers.antt =====
-- The dividers of a PLL whose input is 33.33 MHz or 7 MHz, and whose register locks at once.
use baremetal_crt.Common.{ℕ, ◌/◌, ◌%◌, ◌+◌, ◌^◌, ◌≤◌, refl, true, arith}
use baremetal_crt.Driver.Prci.{PllConf, nabs_diff, clk_prci_find_divr}
use baremetal_crt.Driver.Prci.Nearest.{vco, clk_prci_find_divr-nearest}
use baremetal_crt.Driver.Prci.Registers.{Prci, conf_for}

clk_prci_find_divr-nearest_example :
    nabs_diff
      (conf_for 1000000000).target
      (clk_prci_find_divr 33333333 (conf_for 1000000000)).1.result
    ≤ nabs_diff (conf_for 1000000000).target (vco (33333333 / (0 + 1)) 59 / 2 ^ 2)
clk_prci_find_divr-nearest_example =
    clk_prci_find_divr-nearest 33333333 0 59 2 (conf_for 1000000000) (omega arith) (omega arith)
      (omega arith) refl refl

abbrev chosen : PllConf
chosen = record {
  target = 1000000000;
  divr = 0;
  post_divr = 33333333;
  divf = 59;
  post_divf = 3999999960;
  result = 999999990;
  divr_found = 0;
  post_divr_found = 33333333;
  divf_found = 59;
  divq_found = 2;
  range = 4;
  found = true;
}

abbrev read_locked : (off : ℕ) → ℕ → ℕ × ℕ
read_locked off w = (2 ^ 31 + w % 2 ^ 31, w)

abbrev write_all : (dat off : ℕ) → ℕ → ℕ
write_all dat off w = dat

abbrev prci : Prci
prci = record { freq_in = 7000000; freq_ddrctrl = 0; freq_core = 0; freq_gemgxl = 0 }
