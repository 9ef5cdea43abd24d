-- ===== src/Event.antt =====
-- sys/event.c with include/bmetal/event.h: the pool of event handlers, and the lists of
-- handlers that a device keeps, on a heap of handlers. A pointer is a number and NULL is 0; entry i of
-- the pool `k_evt_handlers` has the pointer i + 1, and list heads elsewhere have larger ones. A walk
-- along a list takes fuel, and `none` is a walk that does not end with it.
pub mod Pool
pub mod Chain
pub mod Dispatch
use baremetal_crt.Common.{
  ℕ, zero, suc, ◌+◌, Bool, true, false, not, ◌||◌, Option, none, some, List, [], ◌∷◌, length, set,
  ◌==◌, leb, if◌then◌else◌, ◌>>=◌, eq_ℤ, ℤ, pos, enomem, einval,
}
use baremetal_crt.Common.Chain.{last_link}

-- `struct k_event_handler`; `func` names the driver's function.
pub record Handler : Type 0 where
  pub func : ℕ
  pub priv : ℕ
  pub event : ℤ
  pub hnd_next : ℕ

abbrev pub Handlers : Type 0
Handlers = ℕ → Handler

-- `hnd->func = func`, `hnd->priv = priv`
unfoldable pub set_func : Handlers → (p func priv : ℕ) → Handlers
set_func h p func priv x = if x == p then record (h x) { func = func; priv = priv } else h x

-- `h->hnd_next = q`
unfoldable pub set_next : Handlers → (p q : ℕ) → Handlers
set_next h p q x = if x == p then record (h x) { hnd_next = q } else h x

unfoldable pub k_event_has_next : Handlers → (p : ℕ) → Bool
k_event_has_next h p = not ((h p).hnd_next == 0)

-- The first loop of `k_event_alloc_handler`: the first entry that is 0, from entry `i` on.
unfoldable pub first_free : List ℕ → (i : ℕ) → Option ℕ
first_free [] i = none
first_free (s ∷ stat) i = let rest = first_free stat (i + 1) in if s == 0 then some i else rest

unfoldable pub give_entry : List ℕ → Option ℕ → ℤ × ℕ × List ℕ
give_entry stat none = (enomem, 0, stat)
give_entry stat (some i) = (pos 0, i + 1, set stat i 1)

-- `handler` is not NULL (it is the address of the caller's variable); the pointer stored there is
-- returned, with NULL on failure, beside `k_evt_handler_stat`.
unfoldable pub k_event_alloc_handler : List ℕ → ℤ × ℕ × List ℕ
unfolding first_free give_entry
k_event_alloc_handler stat = give_entry stat (first_free stat 0)

-- The loop of `k_event_free_handler`: the entry with this address, from entry `i` on.
unfoldable pub find_entry : List ℕ → (i handler : ℕ) → Option ℕ
find_entry [] i p = none
find_entry (s ∷ stat) i p =
    let rest = find_entry stat (i + 1) p in if p == i + 1 then some i else rest

unfoldable pub k_event_free_handler : List ℕ → (handler : ℕ) → ℤ × List ℕ
unfolding find_entry
k_event_free_handler stat p =
    if p == 0
    then (einval, stat)
    else elim (find_entry stat 0 p) [ none ↦ (einval, stat) | some i ↦ (pos 0, set stat i 0) ]

-- The links of the handlers.
abbrev pub links : Handlers → ℕ → ℕ
links h p = (h p).hnd_next

unfoldable pub k_event_add_handler :
    (fuel : ℕ) → Handlers → (head handler : ℕ) → Option (ℤ × Handlers)
unfolding last_link set_next
k_event_add_handler f h head handler =
    if (head == 0) || (handler == 0) then some (einval, h) else do
      last ← last_link f (links h) head 0
      some (pos 0, set_next (set_next h last handler) handler 0)

-- The loop of `k_event_remove_handler`: the handler before `handler`, or 0.
unfoldable pub before_from : (fuel : ℕ) → Handlers → (p handler : ℕ) → Option ℕ
before_from zero h p handler = none
before_from (suc f) h p handler =
    let rest = before_from f h ((h p).hnd_next) handler in
    if p == 0 then some 0 else if (h p).hnd_next == handler then some p else rest

unfoldable pub k_event_remove_handler :
    (fuel : ℕ) → Handlers → (head handler : ℕ) → Option (ℤ × Handlers)
unfolding before_from set_next
k_event_remove_handler f h head handler =
    if (head == 0) || (handler == 0) then some (einval, h) else do
      p ← before_from f h head handler
      some (if p == 0 then (einval, h) else (pos 0, set_next h p ((h handler).hnd_next)))

abbrev pub event_handled : ℤ
event_handled = pos 1

abbrev pub event_not_handled : ℤ
event_not_handled = pos 2

-- The state that the drivers' functions act on, with the handlers in it.
module _ {ℓ} {W : Type ℓ}
    (call : (func : ℕ) → (event : ℤ) → (handler : ℕ) → Handlers × W → ℤ × Handlers × W) where
  -- The loop of `k_event_handle_generic`; the link is read after the call.
  unfoldable pub handle_from :
      (fuel : ℕ) → (event : ℤ) → (p : ℕ) → (res : ℤ) → Handlers × W → Option (ℤ × Handlers × W)
  handle_from zero event p res s = none
  handle_from (suc f) event p res (h, w) =
      let (r, h', w') = call (h p).func event p (h, w) in
      let after_call =
        handle_from f event ((h' p).hnd_next) (if eq_ℤ r event_handled then event_handled else res)
          (h', w') in
      let passed = handle_from f event ((h p).hnd_next) res (h, w) in
      if p == 0 then some (res, h, w) else if eq_ℤ (h p).event event then after_call else passed

  unfoldable pub k_event_handle_generic :
      (fuel : ℕ) → (event : ℤ) → (hnd_head : ℕ) → Handlers × W → Option (ℤ × Handlers × W)
  unfolding handle_from
  k_event_handle_generic f event head s = handle_from f event head event_not_handled s
