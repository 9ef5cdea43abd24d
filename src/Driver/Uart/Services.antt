-- ===== src/Driver/Uart/Services.antt =====
-- What the drivers of the UARTs call to find their clock, their interrupt controller and their
-- configuration: driver/clk, driver/intc/intc.c, driver/io.c and driver/device.c.
use baremetal_crt.Common.{
  ℕ, Bool, true, false, ◌==◌, if◌then◌else◌, ℤ, pos, Option, some, ◌>>=◌, is_nonzero,
}

-- Each call returns its result beside what it stores.
pub record Services {ℓ} (W : Type ℓ) : Type ℓ where
  -- `k_device_read_conf_u32` of "reg-width"
  pub read_width : ℤ × ℕ
  pub get_clk : ℤ × ℕ × ℕ
  pub get_frequency : (clk index : ℕ) → W → ℤ × ℕ × W
  pub clk_enable : (clk index : ℕ) → W → ℤ × W
  pub clk_disable : (clk index : ℕ) → W → ℤ × W
  pub mmap_device : W → ℤ × W
  pub get_intc : ℤ × ℕ × ℕ
  pub add_handler : (intc num_irq : ℕ) → W → ℤ × W
  pub remove_handler : (intc num_irq : ℕ) → W → ℤ × W
  -- `conf.baud` after `k_uart_read_default_config`
  pub default_baud : ℕ

-- `struct uart_ns16550_priv` and `struct uart_sifive_priv`, less the device; `handles` is whether the handler is
-- set.
pub record UartPriv : Type 0 where
  pub clk : ℕ
  pub index_clk : ℕ
  pub freq_in : ℕ
  pub addr_shift : ℕ
  pub intc : ℕ
  pub num_irq : ℕ
  pub handles : Bool
  pub conf : ℕ

-- A driver's call, that goes on where its result is 0.
abbrev pub Stage {ℓ} : (W : Type ℓ) → Type ℓ
Stage W = UartPriv × W → Option (ℤ × UartPriv × W)

unfoldable pub after {ℓ} : {W : Type ℓ} → Stage W → Stage W → Stage W
after step next s = do (r, p, w) ← step s; (if is_nonzero r then some (r, p, w) else next (p, w))

module _ {ℓ} {W : Type ℓ} (sv : Services W) where
  -- The clock of either driver's `add`.
  unfoldable pub start_clock : Stage W
  unfolding after
  start_clock =
      after
        (λ (p, w).
          let (r, clk, index) = sv.get_clk in
          some (r, record p { clk = clk; index_clk = index }, w))
        (after
          (λ (p, w).
            let (r, freq, w1) = sv.get_frequency p.clk p.index_clk w in
            some (r, record p { freq_in = freq }, w1))
          (λ (p, w). let (r, w1) = sv.clk_enable p.clk p.index_clk w in some (r, p, w1)))

  -- The registers.
  unfoldable pub map_registers : Stage W
  map_registers (p, w) = let (r, w1) = sv.mmap_device w in some (r, p, w1)

  -- The interrupt: without a controller the driver polls.
  unfoldable pub connect_intr : (enable_intr : UartPriv → W → ℤ × W) → Stage W
  unfolding after
  connect_intr enable_intr (p, w) =
      let (r, intc, num) = sv.get_intc in
      let q = record p { intc = if is_nonzero r then 0 else intc; num_irq = num } in
      if q.intc == 0
      then some (pos 0, q, w)
      else after (λ (p1, w1). let (s, w2) = sv.add_handler q.intc num w1 in some (s, p1, w2))
          (λ (p1, w1). let (s, w2) = enable_intr p1 w1 in some (s, p1, w2))
          (record q { handles = true }, w)

  -- The speed that the board sets, or the driver's own.
  unfoldable pub apply_default : (baud : ℕ) → (set_config : (baud : ℕ) → Stage W) → Stage W
  apply_default baud set_config =
      set_config (if sv.default_baud == 0 then baud else sv.default_baud)

  -- The first part of either driver's `remove`.
  unfoldable pub disconnect_intr : (disable_intr : UartPriv → W → ℤ × W) → Stage W
  unfolding after
  disconnect_intr disable_intr (p, w) =
      if p.intc == 0
      then some (pos 0, p, w)
      else after (λ (p1, w1). let (s, w2) = disable_intr p1 w1 in some (s, p1, w2))
          (λ (p1, w1).
            let (s, w2) = sv.remove_handler p1.intc p1.num_irq w1 in
            some (
              s,
              if is_nonzero s then p1 else record p1 { handles = false; num_irq = 0; intc = 0 },
              w2,
            ))
          (p, w)

  unfoldable pub stop_clock : Stage W
  stop_clock (p, w) = let (r, w1) = sv.clk_disable p.clk p.index_clk w in some (r, p, w1)
