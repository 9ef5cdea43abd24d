-- ===== src/Driver/Uart/Ns16550.antt =====
-- driver/uart/ns/16550.c: a 16550 UART, whose registers are 1, 2 or 4 bytes apart and as wide. `read` and `write` are
-- those of its registers, by their width in bits; a loop that waits for the device takes fuel.
pub mod Access
pub mod Baud
pub mod Console
use Prim.Native.Nat.{bit_and, bit_or}
use baremetal_crt.Common.{
  ℕ, zero, suc, ◌+◌, ◌-◌, ◌*◌, ◌/◌, ◌%◌, ◌^◌, Bool, true, false, Option, none, some, ◌==◌, ltb,
  if◌then◌else◌, ◌>>=◌, ℤ, pos, is_nonzero, einval, enotsup,
}
use baremetal_crt.Event.{event_handled, event_not_handled}
use baremetal_crt.Driver.Uart.{UartOps}
use baremetal_crt.Driver.Uart.Services.{
  Services, UartPriv, Stage, after, start_clock, map_registers, connect_intr, apply_default,
  disconnect_intr, stop_clock,
}

-- REG_RBR and REG_THR are 0, and so is REG_DLL where the divisor latch is enabled.
abbrev pub reg_data : ℕ
reg_data = 0

-- REG_IER, and REG_DLM where the divisor latch is enabled.
abbrev pub reg_ier : ℕ
reg_ier = 1

abbrev pub reg_lcr : ℕ
reg_lcr = 3

abbrev pub reg_lsr : ℕ
reg_lsr = 5

-- `w` is the value of "reg-width"; `none` where it is not supported.
unfoldable pub shift_of : (w : ℕ) → Option ℕ
shift_of w = if w == 1 then some 0 else if w == 2 then some 1 else if w == 4 then some 2 else none

module _ {ℓ} {W : Type ℓ} (read : (width off : ℕ) → W → ℕ × W)
    (write : (width dat off : ℕ) → W → W) where
  unfoldable pub uart_read : (shift off : ℕ) → W → ℕ × W
  uart_read shift off w =
      let shifted = off * 2 ^ shift in
      let (v8, w8) = read 8 shifted w in
      let (v16, w16) = read 16 shifted w in
      let (v32, w32) = read 32 shifted w in
      if shift == 0
      then (v8 % 256, w8)
      else if shift == 1
      then (v16 % 256, w16)
      else if shift == 2
      then (v32 % 256, w32)
      else (255, w)

  -- `dat` is a byte.
  unfoldable pub uart_write : (shift dat off : ℕ) → W → W
  uart_write shift dat off w =
      let shifted = off * 2 ^ shift in
      let d = dat % 256 in
      if shift == 0
      then write 8 d shifted w
      else if shift == 1
      then write 16 d shifted w
      else if shift == 2
      then write 32 d shifted w
      else w

  -- `none` is a division by 0.
  unfoldable pub uart_ns16550_set_baud : (shift freq_in baud : ℕ) → W → Option (ℤ × W)
  unfolding uart_read uart_write
  uart_ns16550_set_baud shift freq_in baud w =
      let d = freq_in / baud / 16 % 2 ^ 32 in
      let (v, w1) = uart_read shift reg_lcr w in
      let w2 = uart_write shift (bit_or v 0x80) reg_lcr w1 in
      let w3 = uart_write shift d reg_data w2 in
      let w4 = uart_write shift (d / 256) reg_ier w3 in
      let (v2, w5) = uart_read shift reg_lcr w4 in
      let w6 = uart_write shift (bit_and v2 (255 - 0x80)) reg_lcr w5 in
      if baud == 0
      then none
      else if d == 0
      then some (einval, w)
      else if ltb 0xffff d
      then some (einval, w)
      else some (pos 0, w6)

  -- `while ((uart_read(uart, REG_LSR) & mask) == 0)`
  unfoldable pub wait_lsr : (fuel shift mask : ℕ) → W → Option W
  unfolding uart_read
  wait_lsr zero shift mask w = none
  wait_lsr (suc f) shift mask w =
      let (v, w1) = uart_read shift reg_lsr w in
      let rest = wait_lsr f shift mask w1 in if bit_and v mask == 0 then rest else some w1

  -- LSR_RX_READY is 1.
  unfoldable pub uart_ns16550_char_in : (fuel shift : ℕ) → W → Option (ℤ × W)
  unfolding wait_lsr uart_read
  uart_ns16550_char_in f shift w = do
    w1 ← wait_lsr f shift 1 w
    let (v, w2) = uart_read shift reg_data w1
    some (pos v, w2)

  -- LSR_THR_EMPTY is 0x20.
  unfoldable pub uart_ns16550_char_out : (fuel shift value : ℕ) → W → Option W
  unfolding wait_lsr uart_write
  uart_ns16550_char_out f shift value w = do
    w1 ← wait_lsr f shift 0x20 w
    some (uart_write shift value reg_data w1)

  -- IER_ERBFI | IER_ETBEI is 3.
  unfoldable pub uart_ns16550_enable_intr : (shift : ℕ) → W → ℤ × W
  unfolding uart_read uart_write
  uart_ns16550_enable_intr shift w =
      let (v, w1) = uart_read shift reg_ier w in (pos 0, uart_write shift (bit_or v 3) reg_ier w1)

  unfoldable pub uart_ns16550_disable_intr : (shift : ℕ) → W → ℤ × W
  unfolding uart_read uart_write
  uart_ns16550_disable_intr shift w =
      let (v, w1) = uart_read shift reg_ier w in
      (pos 0, uart_write shift (bit_and v (255 - 3)) reg_ier w1)

  -- `conf` is given.
  unfoldable pub uart_ns16550_get_config : UartPriv → ℤ × ℕ
  uart_ns16550_get_config p = (pos 0, p.conf)

  unfoldable pub uart_ns16550_set_config : (baud : ℕ) → Stage W
  unfolding uart_ns16550_set_baud
  uart_ns16550_set_config baud (p, w) = do
    (r, w1) ← uart_ns16550_set_baud p.addr_shift p.freq_in baud w
    some (r, p, w1)

  unfoldable pub uart_ns16550_intr : UartPriv → W → ℤ × W
  unfolding uart_ns16550_disable_intr
  uart_ns16550_intr p w =
      let (r, w1) = uart_ns16550_disable_intr p.addr_shift w in
      (if is_nonzero r then event_not_handled else event_handled, w1)

  -- UART_NS16550_DEFAULT_BAUD is 9600, and REG_WIDTH_DEFAULT 4; `none` for `priv` is NULL.
  unfoldable pub uart_ns16550_add :
      Services W → Option UartPriv → W → Option (ℤ × Option UartPriv × W)
  unfolding shift_of after start_clock map_registers connect_intr apply_default
      uart_ns16550_enable_intr uart_ns16550_set_config
  uart_ns16550_add sv none w = some (einval, none, w)
  uart_ns16550_add sv (some p) w =
      let (r, width) = sv.read_width in
      elim (shift_of (if is_nonzero r then 4 else width)) [
        | none ↦ some (einval, some p, w)
        | some shift ↦ (do
          (s, q, w1) ←
              after (start_clock sv)
                (after (map_registers sv) (
                  after (connect_intr sv (λ p1. uart_ns16550_enable_intr p1.addr_shift))
                    (apply_default sv 9600 uart_ns16550_set_config)))
                (record p { addr_shift = shift }, w)
          some (s, some q, w1))
      ]

  unfoldable pub uart_ns16550_remove :
      Services W → Option UartPriv → W → Option (ℤ × Option UartPriv × W)
  unfolding after disconnect_intr stop_clock uart_ns16550_disable_intr
  uart_ns16550_remove sv none w = some (einval, none, w)
  uart_ns16550_remove sv (some p) w = do
    (s, q, w1) ←
        after (disconnect_intr sv (λ p1. uart_ns16550_disable_intr p1.addr_shift))
          (after (stop_clock sv) (λ (p1, w1). some (enotsup, p1, w1))) (p, w)
    some (s, some q, w1)

  -- `ns16550_uart_ops`
  unfoldable pub ns16550_uart_ops : (fuel : ℕ) → UartPriv → UartOps W
  unfolding uart_ns16550_char_in uart_ns16550_char_out uart_ns16550_get_config
      uart_ns16550_set_config
  ns16550_uart_ops f p = record {
    char_in = some (uart_ns16550_char_in f p.addr_shift);
    char_out = some (uart_ns16550_char_out f p.addr_shift);
    get_config = some (λ w. let (r, baud) = uart_ns16550_get_config p in (r, baud, w));
    set_config = some (λ baud w. do (r, q, w1) ← uart_ns16550_set_config baud (p, w); some (r, w1));
  }
