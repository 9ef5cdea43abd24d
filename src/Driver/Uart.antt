-- ===== src/Driver/Uart.antt =====
-- driver/uart/uart.c: the serial lines, and the one of them that is the console. A UART is a pointer, and
-- NULL is 0; the operations of its driver are functions on a state `W`.
pub mod Services
pub mod Ns16550
pub mod Sifive
use baremetal_crt.Common.{
  ℕ, zero, ◌+◌, ◌%◌, ◌^◌, Bool, true, false, not, ◌||◌, ◌&&◌, Option, none, some, ◌==◌,
  if◌then◌else◌, ◌>>=◌, ℤ, pos, negsuc, is_nonzero, einval,
}
use baremetal_crt.Device.{is_error}

-- `EOF`
abbrev pub eof : ℤ
eof = negsuc 0

-- `struct k_uart_driver_ops`, with `none` for NULL; `none` as a result is a call that does not return.
pub record UartOps {ℓ} (W : Type ℓ) : Type ℓ where
  pub char_in : Option (W → Option (ℤ × W))
  pub char_out : Option ((value : ℕ) → W → Option W)
  pub get_config : Option (W → ℤ × (baud : ℕ) × W)
  pub set_config : Option ((baud : ℕ) → W → Option (ℤ × W))

-- What uart.c and the console keep: `uart_default`, and whether the functions of the console are those here.
pub record Console : Type 0 where
  pub uart_default : ℕ
  pub is_uart : Bool

module _ {ℓ} {W : Type ℓ} (ops : (uart : ℕ) → Option (UartOps W))
    (probed : (uart : ℕ) → W → Bool) where
  -- `drv && drv->ops && drv->ops->op`
  abbrev ops_of : ℕ → Option (UartOps W)
  ops_of uart = if uart == 0 then none else ops uart

  -- `conf` is given, and what is in it is returned.
  unfoldable pub k_uart_get_config : (uart conf : ℕ) → W → ℤ × ℕ × W
  k_uart_get_config uart conf w = if uart == 0 then (einval, conf, w) else elim (ops_of uart) [
    | none ↦ (pos 0, conf, w)
    | some o ↦ elim o.get_config [ none ↦ (pos 0, conf, w) | some f ↦ f w ]
  ]

  unfoldable pub k_uart_set_config : (uart baud : ℕ) → W → Option (ℤ × W)
  k_uart_set_config uart baud w = if uart == 0 then some (einval, w) else elim (ops_of uart) [
    | none ↦ some (pos 0, w)
    | some o ↦ elim o.set_config [ none ↦ some (pos 0, w) | some f ↦ f baud w ]
  ]

  unfoldable pub uart_getc : (uart_default : ℕ) → W → Option (ℤ × W)
  uart_getc u w = if (u == 0) || not (probed u w) then some (eof, w) else elim (ops_of u) [
    | none ↦ some (eof, w)
    | some o ↦ elim o.char_in [ none ↦ some (eof, w) | some f ↦ f w ]
  ]

  unfoldable pub uart_putc : (uart_default c : ℕ) → W → Option (ℕ × W)
  uart_putc u c w = if (u == 0) || not (probed u w) then some (c % 256, w) else elim (ops_of u) [
    | none ↦ some (c % 256, w)
    | some o ↦ elim o.char_out [
      | none ↦ some (c % 256, w)
      | some f ↦ (do w1 ← f c w; some (c % 256, w1))
    ]
  ]

unfoldable pub k_uart_set_default_console : (uart : ℕ) → Console → ℤ × Console
k_uart_set_default_console uart c = (pos 0, record { uart_default = uart; is_uart = true })

-- What follows `k_device_add`, whose result is `r`.
unfoldable pub k_uart_add_device :
    (r : ℤ) → (uart : ℕ) → (set_default : Bool) → Console → ℤ × Console
unfolding k_uart_set_default_console
k_uart_add_device r uart set_default c =
    let (s, c1) = k_uart_set_default_console uart c in
    if is_error r
    then (r, c)
    else if set_default
    then (if is_nonzero s then (s, c1) else (pos 0, c1))
    else (pos 0, c)

-- What goes before `k_device_remove`, whose result is returned.
unfoldable pub k_uart_remove_device : (r : ℤ) → (uart : ℕ) → Console → ℤ × Console
unfolding k_uart_set_default_console
k_uart_remove_device r uart c =
    (r, if c.uart_default == uart then (k_uart_set_default_console 0 c).1 else c)
