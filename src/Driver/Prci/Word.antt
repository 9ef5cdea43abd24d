-- ===== src/Driver/Prci/Word.antt =====
-- The fields of the word that is written to a PLL's register, and the change of a frequency.
use Prim.Native.Nat.{bit_or}
use baremetal_crt.Common.{ℕ, ◌+◌, ◌*◌, ◌/◌, ◌%◌, ◌^◌, ◌<◌, ◌≡◌, arith, bit_or-above, some, pos}
use baremetal_crt.Driver.Prci.{PllConf}
use baremetal_crt.Driver.Prci.Chosen.{IsChosen}
use baremetal_crt.Driver.Prci.Registers.{Prci, Index, pllcfg_word, wait_lock}

-- The fields of a word stand beside one another.
join_fields :
    (r f q g : ℕ)
    → r < 64
    → f < 512
    → q < 8
    → g < 8
    → bit_or
        (bit_or (bit_or (bit_or (r * 2 ^ 0) (f * 2 ^ 6)) (q * 2 ^ 15)) (g * 2 ^ 18))
        (1 * 2 ^ 25)
      ≡ r + f * 2 ^ 6 + q * 2 ^ 15 + g * 2 ^ 18 + 2 ^ 25
join_fields r f q g a b c d =
    let one : bit_or (r * 2 ^ 0) (f * 2 ^ 6) ≡ r + f * 2 ^ 6 =
      omega (arith, bit_or-above 6 (r * 2 ^ 0) f (omega arith)) in
    rw one (
      rw (bit_or-above 15 (r + f * 2 ^ 6) q (omega arith)) (
        rw (bit_or-above 18 (r + f * 2 ^ 6 + q * 2 ^ 15) g (omega arith)) (
          rw (bit_or-above 25 (r + f * 2 ^ 6 + q * 2 ^ 15 + g * 2 ^ 18) 1 (omega arith))
            (omega arith))))

-- The word, read back by its fields.
pub record HasFields (w : ℕ) (c : PllConf) : Type 0 where
  pub divr_field : w % 2 ^ 6 ≡ c.divr_found
  pub divf_field : w / 2 ^ 6 % 2 ^ 9 ≡ c.divf_found
  pub divq_field : w / 2 ^ 15 % 2 ^ 3 ≡ c.divq_found
  pub range_field : w / 2 ^ 18 % 2 ^ 3 ≡ c.range
  pub flags : w / 2 ^ 21 ≡ 2 ^ 4

-- The word for the register of a PLL holds the dividers and the range that a successful search has left, each in
-- its own field, and of the other bits only PRCI_PLLCFG_FSE.
pub pllcfg_word-HasFields :
    (freq_in : ℕ) (c : PllConf) → IsChosen freq_in (pos 0) c → HasFields (pllcfg_word c) c
unfolding pllcfg_word
pllcfg_word-HasFields freq_in c h =
    let s = h.from_dividers in
    let sum =
      join_fields c.divr_found c.divf_found c.divq_found c.range s.divr_lt s.divf_lt
        (omega (arith, s.divq_lt)) (omega (arith, h.range_le)) in
    rw sum (omega (arith, s.divr_lt, s.divf_lt, s.divq_lt, h.range_le))

module _ {W : Type 0} (read32 : (off : ℕ) → W → ℕ × W) (write32 : (dat off : ℕ) → W → W) (fuel : ℕ)
    (i : Index) (freq : ℕ) (p : Prci) (w : W) where
  -- The word is written to the register of the PLL, to the end of the wait for the PLL.
  abbrev pub Locks : (off word : ℕ) (w' : W) → Type 0
  Locks off word w' = wait_lock read32 write32 fuel off (write32 word off w) ≡ some w'
