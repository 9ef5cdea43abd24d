-- ===== src/Driver/Uart/Sifive.antt =====
-- driver/uart/sifive/uart0.c: the UART of the FU540 and FU740. `read32` and `write32` are those of its registers; a
-- loop that waits for the device takes fuel.
pub mod Transfer
use Prim.Native.Nat.{bit_and, bit_or}
use baremetal_crt.Common.{
  ℕ, zero, suc, ◌+◌, ◌-◌, ◌*◌, ◌/◌, ◌%◌, ◌^◌, Bool, true, false, Option, none, some, ◌==◌,
  if◌then◌else◌, ◌>>=◌, ℤ, pos, is_nonzero, einval, enotsup,
}
use baremetal_crt.Event.{event_handled}
use baremetal_crt.Driver.Uart.Services.{
  Services, UartPriv, Stage, after, start_clock, map_registers, connect_intr, apply_default,
  disconnect_intr, stop_clock,
}

abbrev pub reg_txdata : ℕ
reg_txdata = 0x00

abbrev pub reg_rxdata : ℕ
reg_rxdata = 0x04

abbrev pub reg_txctrl : ℕ
reg_txctrl = 0x08

abbrev pub reg_rxctrl : ℕ
reg_rxctrl = 0x0c

abbrev pub reg_ie : ℕ
reg_ie = 0x10

abbrev pub reg_div : ℕ
reg_div = 0x18

-- TXDATA_FULL and RXDATA_EMPTY
abbrev pub not_ready : ℕ
not_ready = 2 ^ 31

module _ {ℓ} {W : Type ℓ} (read32 : (off : ℕ) → W → ℕ × W) (write32 : (dat off : ℕ) → W → W) where
  -- The loops of the two functions below: the last value that is read.
  unfoldable pub wait_ready : (fuel off : ℕ) → W → Option (ℕ × W)
  wait_ready zero off w = none
  wait_ready (suc f) off w =
      let (v, w1) = read32 off w in
      let rest = wait_ready f off w1 in if bit_and v not_ready == 0 then some (v, w1) else rest

  unfoldable pub uart_sifive_char_in : (fuel : ℕ) → W → Option (ℤ × W)
  unfolding wait_ready
  uart_sifive_char_in f w = do (v, w1) ← wait_ready f reg_rxdata w; some (pos (v % 256), w1)

  unfoldable pub uart_sifive_char_out : (fuel value : ℕ) → W → Option W
  unfolding wait_ready
  uart_sifive_char_out f value w = do
    (v, w1) ← wait_ready f reg_txdata w
    some (write32 (value % 256) reg_txdata w1)

  -- IE_RXWM is 2.
  unfoldable pub uart_sifive_enable_intr : W → ℤ × W
  uart_sifive_enable_intr w =
      let (v, w1) = read32 reg_ie w in (pos 0, write32 (bit_or v 2) reg_ie w1)

  -- IE_TXWM | IE_RXWM is 3.
  unfoldable pub uart_sifive_disable_intr : W → ℤ × W
  uart_sifive_disable_intr w =
      let (v, w1) = read32 reg_ie w in (pos 0, write32 (bit_and v (2 ^ 32 - 1 - 3)) reg_ie w1)

  -- `none` is a division by 0.
  unfoldable pub uart_sifive_set_baud : (baud : ℕ) → Stage W
  uart_sifive_set_baud baud (p, w) =
      let d = (p.freq_in / baud + 2 ^ 64 - 1) % 2 ^ 32 in
      if baud == 0 then none else some (pos 0, record p { conf = baud }, write32 d reg_div w)

  -- `conf` is given.
  unfoldable pub uart_sifive_get_config : UartPriv → ℤ × ℕ
  uart_sifive_get_config p = (pos 0, p.conf)

  unfoldable pub uart_sifive_set_config : (baud : ℕ) → Stage W
  unfolding uart_sifive_set_baud
  uart_sifive_set_config baud s = uart_sifive_set_baud baud s

  unfoldable pub uart_sifive_intr : (event : ℤ) → ℤ
  uart_sifive_intr event = event_handled

  -- The transmitter and the receiver are enabled; TXCTRL_TXCNT_SHIFT is 16.
  unfoldable pub enable_lines : Stage W
  enable_lines (p, w) =
      some (pos 0, p, write32 (bit_or 1 0) reg_rxctrl (write32 (bit_or 1 (2 ^ 16)) reg_txctrl w))

  -- UART_SIFIVE_DEFAULT_BAUD is 9600; `none` for `priv` is NULL.
  unfoldable pub uart_sifive_add :
      Services W → Option UartPriv → W → Option (ℤ × Option UartPriv × W)
  unfolding after start_clock map_registers enable_lines connect_intr apply_default
      uart_sifive_enable_intr uart_sifive_set_config
  uart_sifive_add sv none w = some (einval, none, w)
  uart_sifive_add sv (some p) w = do
    (s, q, w1) ←
        after (start_clock sv)
          (after (map_registers sv) (
            after enable_lines (
              after (connect_intr sv (λ p1. uart_sifive_enable_intr))
                (apply_default sv 9600 uart_sifive_set_config))))
          (p, w)
    some (s, some q, w1)

  -- `priv` is not NULL.
  unfoldable pub uart_sifive_remove : Services W → UartPriv → W → Option (ℤ × UartPriv × W)
  unfolding after disconnect_intr stop_clock uart_sifive_disable_intr
  uart_sifive_remove sv p w =
      after (disconnect_intr sv (λ p1. uart_sifive_disable_intr))
        (after (stop_clock sv) (λ (p1, w1). some (enotsup, p1, w1))) (p, w)
