-- ===== src/Kernel/Handlers.antt =====
-- driver/cpu/cpu.c: the handlers that drivers add for the events of a CPU, and the two events of its
-- sleep. `heads` gives the address of `cpu->handlers[event]`.
pub mod Reached
use baremetal_crt.Common.{
  [], ◌∷◌, eq_ℤ, eagain, ℕ, Bool, true, false, not, ◌||◌, Option, none, some, ◌==◌, leb,
  if◌then◌else◌, ◌>>=◌, ℤ, pos, is_nonzero, einval,
}
use baremetal_crt.CString.{CString}
use baremetal_crt.Device.{Tree, Device, bus_root}
use baremetal_crt.Device.Config.{k_device_read_conf_str}
use baremetal_crt.Device.Find.{k_bus_find_device}
use baremetal_crt.Event.{
  Handler, Handlers, k_event_has_next, k_event_add_handler, k_event_remove_handler,
  k_event_handle_generic,
}

-- `enum k_cpu_event`; the interrupts are 3 to 5.
abbrev pub cpu_event_on_wakeup : ℕ
cpu_event_on_wakeup = 1

abbrev pub cpu_event_on_sleep : ℕ
cpu_event_on_sleep = 2

abbrev pub cpu_event_max : ℕ
cpu_event_max = 6

-- The result, and the head that is stored where it is 0.
unfoldable pub k_cpu_get_handler_head : (heads : ℕ → ℕ) → (event : ℕ) → ℤ × Option ℕ
k_cpu_get_handler_head heads event =
    if leb cpu_event_max event
    then (einval, none)
    else if (event == 1) || (event == 2) || (event == 3) || (event == 4) || (event == 5)
    then (pos 0, some (heads event))
    else (einval, none)

-- `handler->event = event`
unfoldable pub mark_event : Handlers → (handler event : ℕ) → Handlers
mark_event h p event x = if x == p then record (h x) { event = pos event } else h x

unfoldable pub k_cpu_add_handler :
    (heads : ℕ → ℕ) → (fuel event handler : ℕ) → Handlers → Option (ℤ × Handlers)
unfolding k_cpu_get_handler_head mark_event
k_cpu_add_handler heads fuel event handler h = elim (k_cpu_get_handler_head heads event).1 [
  | none ↦ some (einval, h)
  | some head ↦ k_event_add_handler fuel (mark_event h handler event) head handler
]

unfoldable pub k_cpu_remove_handler :
    (heads : ℕ → ℕ) → (fuel event handler : ℕ) → Handlers → Option (ℤ × Handlers)
unfolding k_cpu_get_handler_head
k_cpu_remove_handler heads fuel event handler h = elim (k_cpu_get_handler_head heads event).1 [
  | none ↦ some (einval, h)
  | some head ↦ k_event_remove_handler fuel h head handler
]

-- The driver's part of a wakeup or a sleep, if it has one.
abbrev pub driver_part {ℓ} : {W : Type ℓ} → Option (W → ℤ × W) → W → ℤ × W
driver_part op w = elim op [ none ↦ (pos 0, w) | some f ↦ f w ]

module _ {ℓ} {W : Type ℓ}
    (call : (func : ℕ) → (event : ℤ) → (handler : ℕ) → Handlers × W → ℤ × Handlers × W)
    (heads : ℕ → ℕ) (fuel : ℕ) where
  -- The end of `k_cpu_call_handler`; what the handlers answer is not looked at.
  unfoldable pub call_list : (event head : ℕ) → Handlers × W → Option (ℤ × Handlers × W)
  unfolding k_event_has_next
  call_list event head (h, w) =
      if k_event_has_next h head
      then (do
        (r, h1, w1) ← k_event_handle_generic call fuel (pos event) (h head).hnd_next (h, w)
        some (pos 0, h1, w1))
      else some (pos 0, h, w)

  unfoldable pub k_cpu_call_handler : (event : ℕ) → Handlers × W → Option (ℤ × Handlers × W)
  unfolding k_cpu_get_handler_head
  k_cpu_call_handler event (h, w) = elim (k_cpu_get_handler_head heads event).1 [
    | none ↦ some (einval, h, w)
    | some head ↦ call_list event head (h, w)
  ]

  unfoldable pub k_cpu_on_wakeup :
      (on_wakeup : Option (W → ℤ × W)) → Handlers × W → Option (ℤ × Handlers × W)
  unfolding k_cpu_call_handler
  k_cpu_on_wakeup op (h, w) =
      let (r, w1) = driver_part op w in
      if is_nonzero r then some (r, h, w1) else k_cpu_call_handler cpu_event_on_wakeup (h, w1)

  unfoldable pub k_cpu_on_sleep :
      (on_sleep : Option (W → ℤ × W)) → Handlers × W → Option (ℤ × Handlers × W)
  unfolding k_cpu_call_handler
  k_cpu_on_sleep op (h, w) = do
    (r, h1, w1) ← k_cpu_call_handler cpu_event_on_sleep (h, w)
    let (s, w2) = driver_part op w1
    (if is_nonzero r
        then some (r, h1, w1)
        else if is_nonzero s
        then some (s, h1, w2)
        else some (pos 0, h1, w2))

-- "cpu"
abbrev pub cpu_name : CString
cpu_name = 99 ∷ 112 ∷ 117 ∷ []

-- The result and the CPU; `text` is the string at a pointer.
unfoldable pub k_cpu_get_cpu_from_config :
    (fuel : ℕ) → (text : ℕ → CString) → Tree → Device → (index : ℤ) → Option (ℤ × ℕ)
k_cpu_get_cpu_from_config f text t dev index = do
  (r1, name) ← k_device_read_conf_str (some dev) (some cpu_name) true index
  (if is_nonzero r1 then some (einval, 0) else (do
    p ← name
    (r2, cpu) ← k_bus_find_device f t bus_root (some (text p))
    some (
        if eq_ℤ r2 eagain
        then (eagain, 0)
        else if is_nonzero r2
        then (einval, 0)
        else (pos 0, cpu))))
