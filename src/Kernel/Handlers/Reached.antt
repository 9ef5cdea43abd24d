-- ===== src/Kernel/Handlers/Reached.antt =====
-- A handler that is added for the sleep or the wakeup of a CPU, and the events that reach it.
use baremetal_crt.Common.{
  ℕ, ◌+◌, ◌<◌, ◌≡◌, ◌≢◌, refl, ap, ◌∙◌, true, false, ◌||◌, Option, some, List, [], ◌∷◌, ◌++◌, arith,
  length, length-append, ◌==◌, eq_ℤ, ℤ, pos,
}
use baremetal_crt.Common.Chain.{
  has, IsDistinct, last_of, last_link-chain, IsChain-snoc, IsChain-frame,
}
use baremetal_crt.Event.{Handlers, links, set_next, k_event_has_next, k_event_add_handler}
use baremetal_crt.Event.Chain.{IsChain}
use baremetal_crt.Event.Dispatch.{matching, call_all, k_event_handle_generic-call_all}
use baremetal_crt.Kernel.Handlers.{
  k_cpu_get_handler_head, mark_event, k_cpu_add_handler, call_list, k_cpu_on_wakeup, driver_part,
}

matching-snoc :
    (h g : Handlers) (event : ℤ) (xs : List ℕ) (a : ℕ)
    → has a xs ≡ false
    → ((x : ℕ) → (x == a) ≡ false → (g x).event ≡ (h x).event)
    → (g a).event ≡ event
    → eq_ℤ event event ≡ true
    → matching g event (xs ++ a ∷ []) ≡ matching h event xs ++ a ∷ []
matching-snoc h g event [] a out same e r = rw (e, r) refl
matching-snoc h g event (x ∷ xs) a out same e r =
    let other : (x == a) ≡ false = ground arith in
    let rest = matching-snoc h g event xs a (ground arith) same e r in
    rw (same x other, rest) (ground arith)

module _ {ℓ} {W : Type ℓ}
    (call : (func : ℕ) → (event : ℤ) → (handler : ℕ) → Handlers × W → ℤ × Handlers × W)
    (keeps : (func : ℕ) (event : ℤ) (p : ℕ) (h : Handlers) (w : W)
      → (call func event p (h, w)).1 ≡ h)
    (heads : ℕ → ℕ) (fuel : ℕ) where
  pub call_list-call_all :
      (g : Handlers) (event head : ℕ) (xs : List ℕ) (w : W)
      → IsChain g head (head ∷ xs)
      → length xs < fuel
      → call_list call heads fuel event head (g, w)
        ≡ some (pos 0, g, (call_all call g (pos event) (matching g (pos event) xs) w).1)
  unfolding call_list k_event_has_next call_all
  call_list-call_all g event head [] w (_, n, e) l = rw e refl
  call_list-call_all g event head (x ∷ xs) w (_, n, c) l =
      let next : ((g head).hnd_next == 0) ≡ false = ground (arith, c.0, c.1) in
      let all =
        k_event_handle_generic-call_all call keeps fuel g (pos event) (g head).hnd_next (x ∷ xs) w c
          l in
      rw (next, all) refl

  -- A handler that is added for the wakeup of a CPU is called at its next wakeup, after the driver's own part and the handlers that were
  -- there before, each once; whatever they answer, the wakeup returns 0. For a list of handlers that ends, without repetition, fuel beyond
  -- its length, a driver's part that returns 0, and handlers that leave the lists alone.
  pub on_wakeup-reaches :
      (h : Handlers) (handler : ℕ) (ys : List ℕ)
      → handler ≢ 0
      → IsChain h (heads 1) (heads 1 ∷ ys)
      → IsDistinct (heads 1 ∷ ys)
      → has handler (heads 1 ∷ ys) ≡ false
      → length ys + 1 < fuel
      → (g : Handlers) × (k_cpu_add_handler heads fuel 1 handler h ≡ some (pos 0, g))
        × ((op : Option (W → ℤ × W)) (w w1 : W)
            → driver_part op w ≡ (pos 0, w1)
            → k_cpu_on_wakeup call heads fuel op (g, w)
              ≡ some (
                pos 0,
                g,
                (call_all call g (pos 1) (matching h (pos 1) ys ++ handler ∷ []) w1).1,
              ))
  unfolding k_cpu_add_handler k_cpu_get_handler_head mark_event k_event_add_handler set_next
      k_cpu_on_wakeup
  on_wakeup-reaches h handler ys nz c d out l =
      let h0 = mark_event h handler 1 in
      let head = heads 1 in
      let g = set_next (set_next h0 (last_of head ys) handler) handler 0 in
      let t : ((head == 0) || (handler == 0)) ≡ false = ground (arith, c.1) in
      let c0 : IsChain h0 head (head ∷ ys) =
        IsChain-frame (links h) (links h0) head (head ∷ ys) (λ a m. ground arith) c in
      let cg : IsChain g head (head ∷ ys ++ handler ∷ []) =
        IsChain-snoc (links h0) (links g) handler head ys nz c0 d out (λ p. ground arith) in
      let ms =
        matching-snoc h g (pos 1) ys handler (ground arith) (λ x e. ground arith) (ground arith)
          (ground arith) in
      (
        g,
        rw (t, last_link-chain fuel (links h0) head ys 0 c0 l) refl,
        λ op w w1 e. rw e (
            call_list-call_all g 1 head (ys ++ handler ∷ []) w1 cg
              (omega (arith, length-append ys (handler ∷ []), l))
            ∙ ap (λ xs. some (pos 0, g, (call_all call g (pos 1) xs w1).1)) ms),
      )
