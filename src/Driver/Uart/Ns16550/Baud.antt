-- ===== src/Driver/Uart/Ns16550/Baud.antt =====
-- The divisor latch of a 16550.
use Prim.Native.Nat.{bit_and, bit_or}
use baremetal_crt.Common.{
  ℕ, ◌+◌, ◌-◌, ◌*◌, ◌/◌, ◌%◌, ◌^◌, ◌<◌, ◌≤◌, ◌≡◌, refl, ap, ◌∙◌, Bool, true, false, not, ◌&&◌, ◌||◌,
  some, ◌==◌, ltb, if◌then◌else◌, arith, pos,
}
use native.Mathlib.Nat.{div-div-eq-div-mul, div-mul-le_self, lt-div-mul-add}
use baremetal_crt.Common.Masks.{bit, bit-set, bit-clear, bit-byte}
use baremetal_crt.Driver.Uart.Ns16550.Access.{uart_read-wide, uart_write-wide}
use baremetal_crt.Driver.Uart.Ns16550.{
  reg_data, reg_ier, reg_lcr, uart_read, uart_write, uart_ns16550_set_baud,
}

undo : (e m : Bool) → ((e || m) && not m) ≡ (e && not m)
undo true true = refl
undo true false = refl
undo false true = refl
undo false false = refl

module _ {ℓ} {W : Type ℓ} (read : (width off : ℕ) → W → ℕ × W) (write : (width dat off : ℕ) → W → W)
    (shift : ℕ) (lcr ier dll dlm : W → ℕ)
    (read_lcr : (w : W) → read (8 * 2 ^ shift) (reg_lcr * 2 ^ shift) w ≡ (lcr w, w))
    (write_lcr : (off dat : ℕ) (w : W)
      → lcr (write (8 * 2 ^ shift) dat (off * 2 ^ shift) w)
        ≡ (if off == reg_lcr then dat else lcr w))
    (write_dll : (off dat : ℕ) (w : W)
      → dll (write (8 * 2 ^ shift) dat (off * 2 ^ shift) w)
        ≡ (if bit 7 (lcr w) && (off == reg_data) then dat else dll w))
    (write_dlm : (off dat : ℕ) (w : W)
      → dlm (write (8 * 2 ^ shift) dat (off * 2 ^ shift) w)
        ≡ (if bit 7 (lcr w) && (off == reg_ier) then dat else dlm w))
    (write_ier : (off dat : ℕ) (w : W)
      → ier (write (8 * 2 ^ shift) dat (off * 2 ^ shift) w)
        ≡ (if not (bit 7 (lcr w)) && (off == reg_ier) then dat else ier w)) where
  -- The same for the driver's writes.
  lcr_put :
      (dat off : ℕ) (w : W)
      → shift < 3
      → lcr (uart_write read write shift dat off w) ≡ (if off == reg_lcr then dat % 256 else lcr w)
  lcr_put dat off w l =
      rw (uart_write-wide read write shift dat off w l) (write_lcr off (dat % 256) w)

  dll_put :
      (dat off : ℕ) (w : W)
      → shift < 3
      → dll (uart_write read write shift dat off w)
        ≡ (if bit 7 (lcr w) && (off == reg_data) then dat % 256 else dll w)
  dll_put dat off w l =
      rw (uart_write-wide read write shift dat off w l) (write_dll off (dat % 256) w)

  dlm_put :
      (dat off : ℕ) (w : W)
      → shift < 3
      → dlm (uart_write read write shift dat off w)
        ≡ (if bit 7 (lcr w) && (off == reg_ier) then dat % 256 else dlm w)
  dlm_put dat off w l =
      rw (uart_write-wide read write shift dat off w l) (write_dlm off (dat % 256) w)

  ier_put :
      (dat off : ℕ) (w : W)
      → shift < 3
      → ier (uart_write read write shift dat off w)
        ≡ (if not (bit 7 (lcr w)) && (off == reg_ier) then dat % 256 else ier w)
  ier_put dat off w l =
      rw (uart_write-wide read write shift dat off w l) (write_ier off (dat % 256) w)

  -- A speed whose divisor is from 1 to 0xffff is set: the latch holds the divisor, which is the largest one for which the
  -- line is not slower than asked, and it is disabled again, with the rest of the line control and the interrupt enable register as
  -- before. For registers 1, 2 or 4 bytes apart, which behave as those of a 16550.
  pub set_baud-divisor :
      (freq baud : ℕ) (w : W)
      → shift < 3
      → 0 < baud
      → 1 ≤ freq / baud / 16
      → freq / baud / 16 ≤ 0xffff
      → (w' : W) × (uart_ns16550_set_baud read write shift freq baud w ≡ some (pos 0, w'))
        × ((dll w' + 256 * dlm w') * (baud * 16) ≤ freq)
        × (freq < (dll w' + 256 * dlm w') * (baud * 16) + baud * 16)
        × ((j : ℕ) → j < 8 → bit j (lcr w') ≡ (bit j (lcr w) && not (j == 7)))
        × (ier w' ≡ ier w)
  unfolding uart_ns16550_set_baud
  set_baud-divisor freq baud w l p lo hi =
      let d = freq / baud / 16 % 2 ^ 32 in
      let w2 = uart_write read write shift (bit_or (lcr w % 256) 0x80) reg_lcr w in
      let w3 = uart_write read write shift d reg_data w2 in
      let w4 = uart_write read write shift (d / 256) reg_ier w3 in
      let w6 = uart_write read write shift (bit_and (lcr w4 % 256) (255 - 0x80)) reg_lcr w4 in
      let b : (baud == 0) ≡ false = ground arith in
      let z : (d == 0) ≡ false = ground arith in
      let s : ltb 0xffff d ≡ false = ground arith in
      let r0 : uart_read read write shift reg_lcr w ≡ (lcr w % 256, w) =
        rw (uart_read-wide read write shift reg_lcr w l, read_lcr w) refl in
      let r4 : uart_read read write shift reg_lcr w4 ≡ (lcr w4 % 256, w4) =
        rw (uart_read-wide read write shift reg_lcr w4 l, read_lcr w4) refl in
      let latched : (j : ℕ) → j < 8 → bit j (lcr w2) ≡ (bit j (lcr w) || (j == 7)) = λ j h.
        ap (bit j) (lcr_put (bit_or (lcr w % 256) 0x80) reg_lcr w l)
        ∙ bit-byte j (bit_or (lcr w % 256) 0x80) h
        ∙ bit-set j 7 (lcr w % 256)
        ∙ ap (λ t. t || (j == 7)) (bit-byte j (lcr w) h) in
      let on2 : bit 7 (lcr w2) ≡ true = latched 7 (omega arith) ∙ ground arith in
      let l3 : lcr w3 ≡ lcr w2 = lcr_put d reg_data w2 l in
      let l4 : lcr w4 ≡ lcr w2 = lcr_put (d / 256) reg_ier w3 l ∙ l3 in
      let on3 : bit 7 (lcr w3) ≡ true = ap (bit 7) l3 ∙ on2 in
      let on4 : bit 7 (lcr w4) ≡ true = ap (bit 7) l4 ∙ on2 in
      let low : dll w6 ≡ d % 256 = ground (
        arith,
        dll_put (bit_and (lcr w4 % 256) (255 - 0x80)) reg_lcr w4 l,
        dll_put (d / 256) reg_ier w3 l,
        dll_put d reg_data w2 l,
        on2,
        on3,
        on4,
      ) in
      let high : dlm w6 ≡ d / 256 % 256 = ground (
        arith,
        dlm_put (bit_and (lcr w4 % 256) (255 - 0x80)) reg_lcr w4 l,
        dlm_put (d / 256) reg_ier w3 l,
        on3,
        on4,
      ) in
      let same : freq / baud / 16 ≡ freq / (baud * 16) = div-div-eq-div-mul freq baud 16 in
      let value : dll w6 + 256 * dlm w6 ≡ freq / (baud * 16) = omega (arith, low, high, same, hi) in
      (
        w6,
        rw (b, z, s, r0, r4) refl,
        rw value (div-mul-le_self freq (baud * 16)),
        rw value (lt-div-mul-add {a = freq} {b = baud * 16} (omega arith)),
        λ j h.
            ap (bit j) (lcr_put (bit_and (lcr w4 % 256) (255 - 0x80)) reg_lcr w4 l)
            ∙ bit-byte j (bit_and (lcr w4 % 256) (255 - 0x80)) h
            ∙ bit-clear j 7 (lcr w4 % 256) 8 h (omega arith)
            ∙ ap (λ t. t && not (j == 7)) (bit-byte j (lcr w4) h ∙ ap (bit j) l4 ∙ latched j h)
            ∙ undo (bit j (lcr w)) (j == 7),
        ground (
          arith,
          ier_put (bit_and (lcr w4 % 256) (255 - 0x80)) reg_lcr w4 l,
          ier_put (d / 256) reg_ier w3 l,
          ier_put d reg_data w2 l,
          ier_put (bit_or (lcr w % 256) 0x80) reg_lcr w l,
          on2,
          on3,
          on4,
        ),
      )
