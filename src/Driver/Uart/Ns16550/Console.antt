-- ===== src/Driver/Uart/Ns16550/Console.antt =====
-- Characters that the console sends through a 16550.
use Prim.Native.Nat.{bit_and}
use baremetal_crt.Common.{
  ℕ, zero, suc, ◌*◌, ◌%◌, ◌^◌, ◌<◌, ◌≡◌, ◌≢◌, refl, ap, ◌∙◌, Bool, true, false, Option, some, List,
  ◌∷◌, ◌==◌, arith, pos,
}
use baremetal_crt.Driver.Uart.{
  UartOps, Console, uart_putc, k_uart_set_default_console, k_uart_add_device,
}
use baremetal_crt.Driver.Uart.Services.{UartPriv}
use baremetal_crt.Driver.Uart.Ns16550.Access.{uart_read-wide, uart_write-wide}
use baremetal_crt.Driver.Uart.Ns16550.{
  reg_data, reg_lsr, uart_write, wait_lsr, uart_ns16550_char_out, ns16550_uart_ops,
}

-- `sent` is what the line has sent, the last character first; `empty` and `latched` are the states of the transmitter
-- and of the divisor latch.
module _ {ℓ} {W : Type ℓ} (read : (width off : ℕ) → W → ℕ × W) (write : (width dat off : ℕ) → W → W)
    (p : UartPriv) (sent : W → List ℕ) (empty latched : W → Bool)
    (read_sent : (w : W)
      → sent (read (8 * 2 ^ p.addr_shift) (reg_lsr * 2 ^ p.addr_shift) w).1 ≡ sent w)
    (read_latched : (w : W)
      → latched (read (8 * 2 ^ p.addr_shift) (reg_lsr * 2 ^ p.addr_shift) w).1 ≡ latched w)
    (read_empty : (w : W)
      → bit_and ((read (8 * 2 ^ p.addr_shift) (reg_lsr * 2 ^ p.addr_shift) w).0 % 256) 0x20 ≢ 0
      → empty (read (8 * 2 ^ p.addr_shift) (reg_lsr * 2 ^ p.addr_shift) w).1 ≡ true)
    (write_sent : (dat : ℕ) (w : W)
      → empty w ≡ true
      → latched w ≡ false
      → sent (write (8 * 2 ^ p.addr_shift) dat (reg_data * 2 ^ p.addr_shift) w)
        ≡ dat ∷ sent w) where
  -- The `n` next reads of the line status find the transmitter full, and the one after them empty.
  unfoldable pub EmptyAfter : (n : ℕ) → W → Type 0
  EmptyAfter zero w =
      bit_and ((read (8 * 2 ^ p.addr_shift) (reg_lsr * 2 ^ p.addr_shift) w).0 % 256) 0x20 ≢ 0
  EmptyAfter (suc n) w =
      (bit_and ((read (8 * 2 ^ p.addr_shift) (reg_lsr * 2 ^ p.addr_shift) w).0 % 256) 0x20 ≡ 0)
      × EmptyAfter n (read (8 * 2 ^ p.addr_shift) (reg_lsr * 2 ^ p.addr_shift) w).1

  wait-ends :
      (n : ℕ) (w : W)
      → p.addr_shift < 3
      → EmptyAfter n w
      → (w' : W) × (wait_lsr read write (suc n) p.addr_shift 0x20 w ≡ some w')
        × (sent w' ≡ sent w)
        × (empty w' ≡ true)
        × (latched w' ≡ latched w)
  unfolding wait_lsr EmptyAfter
  wait-ends zero w l e =
      let r = read (8 * 2 ^ p.addr_shift) (reg_lsr * 2 ^ p.addr_shift) w in
      let stop : (bit_and (r.0 % 256) 0x20 == 0) ≡ false = ground (arith, e) in
      (
        r.1,
        rw (uart_read-wide read write p.addr_shift reg_lsr w l, stop) refl,
        read_sent w,
        read_empty w e,
        read_latched w,
      )
  wait-ends (suc n) w l (e, f) =
      let r = read (8 * 2 ^ p.addr_shift) (reg_lsr * 2 ^ p.addr_shift) w in
      let (w', q, s, t, u) = wait-ends n r.1 l f in
      let go : (bit_and (r.0 % 256) 0x20 == 0) ≡ true = ground (arith, e) in
      (
        w',
        rw (uart_read-wide read write p.addr_shift reg_lsr w l, go) q,
        s ∙ read_sent w,
        t,
        u ∙ read_latched w,
      )

  -- Once a 16550 is added as the default, a character that is put to the console is sent, after the earlier ones,
  -- and returned. For a probed UART with registers 1, 2 or 4 bytes apart, whose transmitter is empty after `n` reads of its
  -- status, which needs `n + 1` rounds of the loop, and whose divisor latch is disabled. Its registers behave as
  -- those of a 16550: what is written to the data register is sent where the transmitter is empty and the
  -- latch disabled, and a read of the status sends nothing, leaves the latch, and tells of an empty transmitter
  -- only where it is.
  pub putc-sends :
      (ops : (uart : ℕ) → Option (UartOps W)) (probed : (uart : ℕ) → W → Bool) (c : Console)
      (u ch n : ℕ) (w : W)
      → 0 < u
      → ops u ≡ some (ns16550_uart_ops read write (suc n) p)
      → probed u w ≡ true
      → p.addr_shift < 3
      → EmptyAfter n w
      → latched w ≡ false
      → (w' : W) × (uart_putc ops probed (k_uart_add_device (pos 0) u true c).1.uart_default ch w
          ≡ some (ch % 256, w'))
        × (sent w' ≡ ch % 256 ∷ sent w)
  unfolding uart_putc k_uart_add_device k_uart_set_default_console ns16550_uart_ops
      uart_ns16550_char_out
  putc-sends ops probed c u ch n w h o b l e off =
      let (w1, q, s, t, v) = wait-ends n w l e in
      let z : (u == 0) ≡ false = ground arith in
      (
        uart_write read write p.addr_shift ch reg_data w1,
        rw (z, b, o, q) refl,
        rw (uart_write-wide read write p.addr_shift ch reg_data w1 l)
            (write_sent (ch % 256) w1 t (v ∙ off) ∙ ap (λ t. ch % 256 ∷ t) s),
      )
