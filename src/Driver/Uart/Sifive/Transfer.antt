-- ===== src/Driver/Uart/Sifive/Transfer.antt =====
-- Characters that the UART of SiFive receives.
use Prim.Native.Nat.{bit_and}
use baremetal_crt.Common.{
  ℕ, zero, suc, ◌%◌, ◌≡◌, ◌≢◌, refl, false, true, some, List, ◌==◌, arith, pos,
}
use baremetal_crt.Driver.Uart.Sifive.{reg_rxdata, not_ready, wait_ready, uart_sifive_char_in}

module _ {ℓ} {W : Type ℓ} (read32 : (off : ℕ) → W → ℕ × W) (write32 : (dat off : ℕ) → W → W)
    (waiting : W → List ℕ) where
  -- The `n` next reads of the receive data find the queue empty, and the one after them takes `c` off it and
  -- leaves `cs`.
  unfoldable pub Receives : (n c : ℕ) → List ℕ → W → Type 0
  Receives zero c cs w =
      (bit_and (read32 reg_rxdata w).0 not_ready ≡ 0)
      × ((read32 reg_rxdata w).0 % 256 ≡ c)
      × (waiting (read32 reg_rxdata w).1 ≡ cs)
  Receives (suc n) c cs w =
      (bit_and (read32 reg_rxdata w).0 not_ready ≢ 0) × Receives n c cs (read32 reg_rxdata w).1

  -- `char_in` returns the character that comes next, and takes no other off the queue: after `n` reads that find none, which needs
  -- `n + 1` rounds of the loop.
  pub char_in-next :
      (n c : ℕ) (cs : List ℕ) (w : W)
      → Receives n c cs w
      → (w' : W) × (uart_sifive_char_in read32 write32 (suc n) w ≡ some (pos c, w'))
        × (waiting w' ≡ cs)
  unfolding uart_sifive_char_in wait_ready Receives
  char_in-next zero c cs w (e, q, s) =
      let go : (bit_and (read32 reg_rxdata w).0 not_ready == 0) ≡ true = ground (arith, e) in
      ((read32 reg_rxdata w).1, rw (go, q) refl, s)
  char_in-next (suc n) c cs w (e, f) =
      let (w', q, s) = char_in-next n c cs (read32 reg_rxdata w).1 f in
      let stop : (bit_and (read32 reg_rxdata w).0 not_ready == 0) ≡ false = ground (arith, e) in
      (w', rw stop q, s)
