-- ===== src/Intc/Connect.antt =====
-- The `add` functions of driver/intc/sifive and of driver/timer/sifive/clint_timer.c: for each interrupt in its configuration
-- a device takes a handler from the pool of sys/event.c and adds it to the parent controller.
use baremetal_crt.Common.{
  ℕ, zero, suc, ◌+◌, Bool, true, Option, none, some, List, [], ◌∷◌, ltb, if◌then◌else◌, ◌>>=◌, ℤ,
  pos, is_nonzero, einval, pos_part,
}
use baremetal_crt.CString.{CString}
use baremetal_crt.Device.{Device}
use baremetal_crt.Device.Config.{k_device_read_conf_u32}
use baremetal_crt.Event.{Handlers, set_func, k_event_alloc_handler}
use baremetal_crt.Intc.{HandlerOp, k_intc_add_handler, k_intc_get_conf_length}
use baremetal_crt.Intc.Plic.{PlicPriv, sources_max, contexts_max, intc_plic_clear_all}

-- What the loop changes: `k_evt_handler_stat`, the handlers, and the hardware with the drivers.
pub record Wiring {ℓ} (W : Type ℓ) : Type ℓ where
  pub stat : List ℕ
  pub handlers : Handlers
  pub world : W

-- `config` gives the parent controller and its interrupt for each index, and `op` the function of that controller's driver.
module _ {ℓ} {W : Type ℓ} (config : (index : ℕ) → Option (ℤ × ℕ × ℤ))
    (op : (intc : ℕ) → Option (HandlerOp W)) (func priv : ℕ) where
  -- The body of the loop.
  unfoldable pub connect_one : (i : ℕ) → Wiring W → Option (ℤ × Wiring W)
  unfolding k_event_alloc_handler set_func k_intc_add_handler
  connect_one i s = do
    (r1, parent, irq) ← config i
    let (r2, hnd, stat) = k_event_alloc_handler s.stat
    (if is_nonzero r1
        then some (r1, s)
        else if is_nonzero r2
        then some (r2, record s { stat = stat })
        else (do
          (r3, h, w) ←
              k_intc_add_handler (op parent) parent irq hnd
                (set_func s.handlers hnd func priv, s.world)
          some (r3, record { stat = stat; handlers = h; world = w })))

  -- The loop from interrupt `i` on.
  unfoldable pub connect : (left i : ℕ) → Wiring W → Option (ℤ × Wiring W)
  unfolding connect_one
  connect zero i s = some (pos 0, s)
  connect (suc n) i s = do
    (r, s1) ← connect_one i s
    (if is_nonzero r then some (r, s1) else connect n (i + 1) s1)

  -- The length of the configuration and the loop.
  unfoldable pub connect_all : Device → Wiring W → Option (ℤ × Wiring W)
  unfolding connect k_intc_get_conf_length
  connect_all dev s = do
    (r, len) ← k_intc_get_conf_length dev
    (if is_nonzero r then some (r, s) else (do n ← len; connect (pos_part n) 0 s))

  -- `mmap` is `k_io_mmap_device`.
  unfoldable pub intc_clint_add :
      (mmap : W → ℤ × W) → (priv_given : Bool) → Device → Wiring W → Option (ℤ × Wiring W)
  unfolding connect_all
  intc_clint_add mmap given dev s =
      let (r, w1) = mmap s.world in
      let s1 = record s { world = w1 } in
      if given
      then (if is_nonzero r then some (r, s1) else connect_all dev s1)
      else some (einval, s)

-- "n_source" and "n_context"
abbrev pub n_source_name : CString
n_source_name = 110 ∷ 95 ∷ 115 ∷ 111 ∷ 117 ∷ 114 ∷ 99 ∷ 101 ∷ []

abbrev pub n_context_name : CString
n_context_name = 110 ∷ 95 ∷ 99 ∷ 111 ∷ 110 ∷ 116 ∷ 101 ∷ 120 ∷ 116 ∷ []

-- A count of the configuration, up to `most`, which is the default too.
unfoldable pub read_count : Device → (name : CString) → (most : ℕ) → Option ℕ
read_count dev name most = do
  (r, v) ← k_device_read_conf_u32 (some dev) (some name) true (pos 0)
  (if is_nonzero r then some most else (do n ← v; some (if ltb most n then most else n)))

-- `none` for `priv` is NULL; the registers are in the state of the hardware.
module _ {ℓ} {W : Type ℓ} (read32 : (off : ℕ) → W → ℕ × W) (write32 : (dat off : ℕ) → W → W)
    (config : (index : ℕ) → Option (ℤ × ℕ × ℤ)) (op : (intc : ℕ) → Option (HandlerOp W))
    (func priv : ℕ) where
  unfoldable pub intc_plic_add :
      (mmap : W → ℤ × W)
      → Option PlicPriv
      → Device
      → Wiring W
      → Option (ℤ × Option PlicPriv × Wiring W)
  unfolding connect_all read_count intc_plic_clear_all
  intc_plic_add mmap none dev s = some (einval, none, s)
  intc_plic_add mmap (some p) dev s =
      let (r, w1) = mmap s.world in
      let s1 = record s { world = w1 } in
      if is_nonzero r then some (r, some p, s1) else (do
        (r1, s2) ← connect_all config op func priv dev s1
        (if is_nonzero r1 then some (r1, some p, s2) else (do
          n_event ← read_count dev n_source_name sources_max
          n_ctx ← read_count dev n_context_name contexts_max
          let (r2, w2) = intc_plic_clear_all read32 write32 n_event n_ctx s2.world
          some (
            r2,
            some (record p { n_event = n_event; n_ctx = n_ctx }),
            record s2 { world = w2 },
          ))))
