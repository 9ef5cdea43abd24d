-- ===== src/Intc.antt =====
-- driver/intc/intc.c: the interrupt controllers, whatever their driver. A device of the tree is its
-- pointer; `W` is the state of the hardware and of the drivers.
pub mod RvPriv
pub mod Plic
pub mod Clint
pub mod Connect
pub mod System
use baremetal_crt.Common.{
  ℕ, zero, suc, ◌+◌, ◌-◌, ◌*◌, ◌/◌, ◌^◌, Bool, true, false, Option, none, some, List, [], ◌∷◌, ◌==◌,
  ◌||◌, ltb, if◌then◌else◌, ◌>>=◌, ℤ, pos, negsuc, eq_ℤ, is_nonzero, to_int, eagain, einval, enodev,
  enotsup,
}
use baremetal_crt.CString.{CString}
use baremetal_crt.Device.{Tree, Device, is_error, bus_root}
use baremetal_crt.Device.Config.{
  k_device_get_conf_length, k_device_read_conf_u32, k_device_read_conf_str,
}
use baremetal_crt.Device.Find.{k_bus_find_device}
use baremetal_crt.Event.{Handlers}

-- `h->event = event`
unfoldable pub set_event : Handlers → (p : ℕ) → (event : ℤ) → Handlers
set_event h p event x = if x == p then record (h x) { event = event } else h x

-- A function of a driver's `ops` on a handler; `none` is one that does not end.
abbrev pub HandlerOp {ℓ} : Type ℓ → Type ℓ
HandlerOp W = (intc : ℕ) (event : ℤ) (handler : ℕ) → Handlers × W → Option (ℤ × Handlers × W)

module _ {ℓ} {W : Type ℓ} where
  -- `op` is `none` where the driver has no such function.
  unfoldable pub k_intc_add_handler :
      Option (HandlerOp W)
      → (intc : ℕ) (event : ℤ) (handler : ℕ) → Handlers × W
      → Option (ℤ × Handlers × W)
  unfolding set_event
  k_intc_add_handler op intc event handler (h, w) =
      if (handler == 0) || ((h handler).func == 0) then some (einval, h, w) else elim op [
        | none ↦ some (enodev, h, w)
        | some f ↦ (do
          (r, h1, w1) ← f intc event handler (h, w)
          some (r, if is_nonzero r then h1 else set_event h1 handler event, w1))
      ]

  unfoldable pub k_intc_remove_handler :
      Option (HandlerOp W)
      → (intc : ℕ) (event : ℤ) (handler : ℕ) → Handlers × W
      → Option (ℤ × Handlers × W)
  unfolding baremetal_crt.Event.set_next
  k_intc_remove_handler op intc event handler (h, w) =
      if (handler == 0) || ((h handler).func == 0) then some (einval, h, w) else elim op [
        | none ↦ some (enodev, h, w)
        | some f ↦ (do
          (r, h1, w1) ← f intc event handler (h, w)
          some (r, if is_nonzero r then h1 else baremetal_crt.Event.set_next h1 handler 0, w1))
      ]

-- `intc_ipi` is the static variable; `op` is its driver's function.
unfoldable pub k_intc_raise_ipi {ℓ} :
    {W : Type ℓ} (intc_ipi : ℕ)
    → Option ((intc src dest : ℕ) → W → ℤ × W)
    → (src dest : ℕ) → W
    → ℤ × W
k_intc_raise_ipi intc_ipi op src dest w =
    if intc_ipi == 0
    then (enotsup, w)
    else elim op [ none ↦ (enotsup, w) | some raise ↦ raise intc_ipi src dest w ]

-- "ipi"
abbrev pub ipi_name : CString
ipi_name = 105 ∷ 112 ∷ 105 ∷ []

-- What follows `k_device_add`, whose result is `r`: the result, and the new `intc_ipi`.
unfoldable pub k_intc_add_device : (r : ℤ) → Tree → (intc intc_ipi : ℕ) → Option (ℤ × ℕ)
k_intc_add_device r t intc intc_ipi = if is_error r then some (r, intc_ipi) else do
  (s, val) ← k_device_read_conf_u32 (some (t.devices intc)) (some ipi_name) true (pos 0)
  some (
    pos 0,
    if is_nonzero s
        then intc_ipi
        else elim val [ none ↦ intc_ipi | some v ↦ if v == 0 then intc_ipi else intc ],
  )

-- "interrupts"
abbrev pub interrupts_name : CString
interrupts_name = 105 ∷ 110 ∷ 116 ∷ 101 ∷ 114 ∷ 114 ∷ 117 ∷ 112 ∷ 116 ∷ 115 ∷ []

-- `v / 2` on `int`
abbrev pub half : ℤ → ℤ
half (pos n) = pos (n / 2)
half (negsuc zero) = pos 0
half (negsuc (suc n)) = negsuc (n / 2)

-- The length is stored where the result is 0; `len` is not NULL.
unfoldable pub k_intc_get_conf_length : Device → Option (ℤ × Option ℤ)
k_intc_get_conf_length dev = do
  (r, v) ← k_device_get_conf_length (some dev) (some interrupts_name) true
  some
      (if is_nonzero r then (r, none) else (pos 0, elim v [ none ↦ none | some n ↦ some (half n) ]))

-- The result, the controller and the number of the interrupt; `text` is the string at a pointer.
unfoldable pub k_intc_get_intc_from_config :
    (fuel : ℕ) → (text : ℕ → CString) → Tree → Device → (index : ℕ) → Option (ℤ × ℕ × ℤ)
k_intc_get_intc_from_config fuel text t dev index = do
  (r1, name) ← k_device_read_conf_str (some dev) (some interrupts_name) true (pos (index * 2))
  (if is_nonzero r1 then some (einval, 0, pos 0) else (do
    p ← name
    (r2, irq) ← k_device_read_conf_u32 (some dev) (some interrupts_name) true (pos (index * 2 + 1))
    (if is_nonzero r2 then some (einval, 0, pos 0) else (do
      n ← irq
      (r3, intc) ← k_bus_find_device fuel t bus_root (some (text p))
      some (
          if eq_ℤ r3 eagain
          then (eagain, 0, pos 0)
          else if is_nonzero r3
          then (einval, 0, pos 0)
          else (pos 0, intc, to_int n))))))
