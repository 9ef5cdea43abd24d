-- ===== src/Tests/Events.antt =====
-- A pool of two handlers, and a device's list of three.
use baremetal_crt.Common.{ℕ, ◌+◌, ◌≡◌, refl, some, [], ◌∷◌, arith, ◌==◌, if◌then◌else◌, ℤ, pos}
use baremetal_crt.Event.{
  Handlers, k_event_alloc_handler, k_event_remove_handler, k_event_handle_generic, event_handled,
}
use baremetal_crt.Event.Chain.{IsChain, remove_handler-erase}
use baremetal_crt.Event.Dispatch.{call_all, k_event_handle_generic-call_all}

given : k_event_alloc_handler (1 ∷ 0 ∷ []) ≡ (pos 0, 2, 1 ∷ 1 ∷ [])
unfolding k_event_alloc_handler
given = refl

-- The head is at 9, with 1 and 2 behind it; 2 is for event 5.
abbrev list_of_three : Handlers
list_of_three x = record {
  func = 0;
  priv = 0;
  event = if x == 1 then pos 3 else pos 5;
  hnd_next = if x == 9 then 1 else if x == 1 then 2 else 0;
}

remove_handler-erase_example :
    (g : Handlers) × (k_event_remove_handler 4 list_of_three 9 1 ≡ some (pos 0, g))
    × IsChain g 9 (9 ∷ 2 ∷ [])
remove_handler-erase_example =
    remove_handler-erase 4 list_of_three 9 1 (1 ∷ 2 ∷ []) (omega arith)
      (refl, omega arith, (refl, omega arith, (refl, omega arith, refl))) (refl, (refl, (refl, tt)))
      (omega arith)

-- A driver that counts its calls and answers that it has handled the event.
abbrev count_call : (func : ℕ) → (event : ℤ) → (handler : ℕ) → Handlers × ℕ → ℤ × Handlers × ℕ
count_call func event handler (h, w) = (event_handled, h, w + 1)

k_event_handle_generic-call_all_example :
    k_event_handle_generic count_call 3 (pos 5) 1 (list_of_three, 0)
    ≡ some (event_handled, list_of_three, 1)
unfolding call_all
k_event_handle_generic-call_all_example =
    k_event_handle_generic-call_all count_call (λ func event p h w. refl) 3 list_of_three (pos 5) 1
      (1 ∷ 2 ∷ []) 0 (refl, omega arith, (refl, omega arith, refl)) (omega arith)
