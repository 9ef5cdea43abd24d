-- ===== src/Driver/Uart/Ns16550/Access.antt =====
-- The registers of a 16550 at their distance and width.
use baremetal_crt.Common.{ℕ, zero, suc, ◌*◌, ◌%◌, ◌^◌, ◌<◌, ◌≡◌, refl, arith}
use baremetal_crt.Driver.Uart.Ns16550.{uart_read, uart_write}

module _ {ℓ} {W : Type ℓ} (read : (width off : ℕ) → W → ℕ × W)
    (write : (width dat off : ℕ) → W → W) where
  pub uart_read-wide :
      (shift off : ℕ) (w : W)
      → shift < 3
      → let r = read (8 * 2 ^ shift) (off * 2 ^ shift) w in
        uart_read read write shift off w ≡ (r.0 % 256, r.1)
  unfolding uart_read
  uart_read-wide zero off w l = refl
  uart_read-wide (suc zero) off w l = refl
  uart_read-wide (suc (suc zero)) off w l = refl
  uart_read-wide (suc (suc (suc n))) off w l = absurd (omega arith)

  pub uart_write-wide :
      (shift dat off : ℕ) (w : W)
      → shift < 3
      → uart_write read write shift dat off w
        ≡ write (8 * 2 ^ shift) (dat % 256) (off * 2 ^ shift) w
  unfolding uart_write
  uart_write-wide zero dat off w l = refl
  uart_write-wide (suc zero) dat off w l = refl
  uart_write-wide (suc (suc zero)) dat off w l = refl
  uart_write-wide (suc (suc (suc n))) dat off w l = absurd (omega arith)
