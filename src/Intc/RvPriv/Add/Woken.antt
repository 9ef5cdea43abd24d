-- ===== src/Intc/RvPriv/Add/Woken.antt =====
-- A core's controller that has been added, and the wakeup and the sleep of its CPU.
use baremetal_crt.Common.{
  ℕ, ◌<◌, ◌≡◌, ◌≢◌, refl, ◌∙◌, true, false, ◌||◌, none, some, List, [], ◌∷◌, arith, length, get_or,
  set, get_or-set, length-set, ◌==◌, if◌then◌else◌, eq_ℤ, ℤ, pos,
}
use baremetal_crt.Common.Chain.{IsDistinct, last_link-chain}
use baremetal_crt.Event.{
  Handlers, links, set_next, set_func, event_not_handled, k_event_add_handler,
}
use baremetal_crt.Event.Chain.{IsChain}
use baremetal_crt.Event.Dispatch.{call_all}
use baremetal_crt.Arch.Intr.{k_arch_riscv_set_intr_handler}
use baremetal_crt.Kernel.Handlers.{
  k_cpu_get_handler_head, mark_event, k_cpu_add_handler, call_list, k_cpu_call_handler,
  k_cpu_on_wakeup, k_cpu_on_sleep,
}
use baremetal_crt.Kernel.Handlers.Reached.{call_list-call_all}
use baremetal_crt.Intc.RvPriv.{IntcPriv, intc_priv_cpu_event}
use baremetal_crt.Intc.RvPriv.Add.{Core, set_functions, set_vectors, add_events, intc_priv_add}

-- The list of an event after its first handler.
abbrev first_added : Handlers → (event head handler : ℕ) → Handlers
first_added h event head handler =
    set_next (set_next (mark_event h handler event) head handler) handler 0

add_handler-first :
    (fuel event head handler : ℕ) (h : Handlers)
    → head ≢ 0
    → handler ≢ 0
    → (h head).hnd_next ≡ 0
    → 1 < fuel
    → k_event_add_handler fuel (mark_event h handler event) head handler
      ≡ some (pos 0, first_added h event head handler)
unfolding k_event_add_handler mark_event
add_handler-first fuel event head handler h n m e l =
    let t : ((head == 0) || (handler == 0)) ≡ false = ground (arith, n, m) in
    let empty : (mark_event h handler event head).hnd_next ≡ 0 = ground (arith, e) in
    rw (t, last_link-chain fuel (links (mark_event h handler event)) head [] 0 (refl, n, empty) l)
      refl

-- The functions of the handlers: `cpu_event` stands for `intc_priv_cpu_event`, which sets the register `mie`.
abbrev pub call_event :
    (cpu_event : ℕ)
    → IntcPriv
    → (func : ℕ) → (event : ℤ) → (handler : ℕ) → Handlers × ℕ
    → ℤ × Handlers × ℕ
call_event cpu_event p func event handler (h, mie) =
    let (r, mie1) = intc_priv_cpu_event p event mie in
    if func == cpu_event then (r, h, mie1) else (event_not_handled, h, mie)

call_event-keeps :
    (cpu_event : ℕ) (p : IntcPriv) (func : ℕ) (event : ℤ) (q : ℕ) (h : Handlers) (w : ℕ)
    → (call_event cpu_event p func event q (h, w)).1 ≡ h
call_event-keeps cpu_event p func event q h w = ground arith

-- The only handler of an event.
call_list-one :
    (cpu_event : ℕ) (p : IntcPriv) (heads : ℕ → ℕ) (fuel event head x mie : ℕ) (g : Handlers)
    → IsChain g head (head ∷ x ∷ [])
    → (g x).event ≡ pos event
    → (g x).func ≡ cpu_event
    → 1 < fuel
    → call_list (call_event cpu_event p) heads fuel event head (g, mie)
      ≡ some (pos 0, g, (intc_priv_cpu_event p (pos event) mie).1)
unfolding call_all
call_list-one cpu_event p heads fuel event head x mie g c e f l =
    let mine : eq_ℤ (pos event) (pos event) ≡ true = ground arith in
    let same : (cpu_event == cpu_event) ≡ true = ground arith in
    call_list-call_all (call_event cpu_event p) (call_event-keeps cpu_event p) heads fuel g event
      head (x ∷ []) mie c l
    ∙ rw (e, mine, f, same) refl

-- The two lists after their first handlers `w` and `s`.
module _ (h0 : Handlers) (a b w s cpu_event : ℕ) (d : IsDistinct (0 ∷ a ∷ b ∷ w ∷ s ∷ []))
    (e1 : (h0 a).hnd_next ≡ 0) (e2 : (h0 b).hnd_next ≡ 0) where
  abbrev both_added : Handlers
  both_added = first_added (first_added h0 1 a w) 2 b s

  second_empty : (first_added h0 1 a w b).hnd_next ≡ 0
  unfolding set_next mark_event
  second_empty = let (d0, (d1, (d2, _))) = d in ground (arith, d0, d1, d2, e2)

  wakeup-IsChain : IsChain both_added a (a ∷ w ∷ [])
  unfolding set_next mark_event
  wakeup-IsChain =
      let (d0, (d1, (d2, (d3, _)))) = d in
      (
        refl,
        ground (arith, d0),
        (ground (arith, d0, d1, d2, d3), ground (arith, d0), ground (arith, d0, d1, d2, d3)),
      )

  sleep-IsChain : IsChain both_added b (b ∷ s ∷ [])
  unfolding set_next mark_event
  sleep-IsChain =
      let (d0, (d1, (d2, (d3, _)))) = d in
      (
        refl,
        ground (arith, d0),
        (ground (arith, d0, d1, d2, d3), ground (arith, d0), ground (arith, d0, d1, d2, d3)),
      )

  wakeup_event : (both_added w).event ≡ pos 1
  unfolding set_next mark_event
  wakeup_event = let (d0, (d1, (d2, (d3, _)))) = d in ground (arith, d0, d1, d2, d3)

  sleep_event : (both_added s).event ≡ pos 2
  unfolding set_next mark_event
  sleep_event = let (d0, (d1, (d2, (d3, _)))) = d in ground (arith, d0, d1, d2, d3)

  func_kept : (x : ℕ) → (both_added x).func ≡ (h0 x).func
  unfolding set_next mark_event
  func_kept x = ground arith

-- The addresses of a core's handlers and of its CPU's two lists.
abbrev pub addresses : (heads : ℕ → ℕ) → IntcPriv → List ℕ
addresses heads p =
    0 ∷ heads 1 ∷ heads 2 ∷ p.hnd_wake ∷ p.hnd_sleep ∷ p.hnd_ex ∷ p.hnd_tm ∷ p.hnd_sw ∷ []

-- A core's controller that is added is put into the table for the three interrupts of M mode, and told of the wakeups and
-- the sleeps of its CPU: at each of them the register `mie` gets the mask that the controller has at that time. For a CPU without
-- other handlers of the two events, a table of 12 entries at least, and addresses that are not NULL and differ.
pub intc_priv_add-told :
    (intr cpu_event at fuel : ℕ) (heads : ℕ → ℕ) (c : Core)
    → IsDistinct (addresses heads c.priv)
    → (c.handlers (heads 1)).hnd_next ≡ 0
    → (c.handlers (heads 2)).hnd_next ≡ 0
    → 11 < length c.vectors.int_handlers
    → 1 < fuel
    → (d : Core) × (intc_priv_add intr cpu_event at fuel (some (pos 0, heads)) true c
        ≡ some (pos 0, d))
      × (get_or d.vectors.int_handlers 11 0 ≡ c.priv.hnd_ex)
      × (get_or d.vectors.int_handlers 7 0 ≡ c.priv.hnd_tm)
      × (get_or d.vectors.int_handlers 3 0 ≡ c.priv.hnd_sw)
      × ((p : IntcPriv) (mie : ℕ)
          → (k_cpu_on_wakeup (call_event cpu_event p) heads fuel none (d.handlers, mie)
              ≡ some (pos 0, d.handlers, (intc_priv_cpu_event p (pos 1) mie).1))
            × (k_cpu_on_sleep (call_event cpu_event p) heads fuel none (d.handlers, mie)
                ≡ some (pos 0, d.handlers, (intc_priv_cpu_event p (pos 2) mie).1)))
unfolding intc_priv_add set_functions set_func set_vectors add_events k_arch_riscv_set_intr_handler
    k_cpu_add_handler k_cpu_get_handler_head k_cpu_call_handler k_cpu_on_wakeup k_cpu_on_sleep
intc_priv_add-told intr cpu_event at fuel heads c d e1 e2 long l =
    let p = c.priv in
    let h0 =
      set_func
        (set_func (set_functions intr cpu_event at fuel (some (pos 0, heads)) p c.handlers)
          p.hnd_wake cpu_event at)
        p.hnd_sleep cpu_event at in
    let h1 = first_added h0 1 (heads 1) p.hnd_wake in
    let h2 = first_added h1 2 (heads 2) p.hnd_sleep in
    let (d0, (d1, (d2, (d3, (d4, _))))) = d in
    let four : IsDistinct (0 ∷ heads 1 ∷ heads 2 ∷ p.hnd_wake ∷ p.hnd_sleep ∷ []) = (
      ground (arith, d0),
      (ground (arith, d1), (ground (arith, d2), (ground (arith, d3), (refl, tt)))),
    ) in
    let z1 : (h0 (heads 1)).hnd_next ≡ 0 = ground (arith, e1) in
    let z2 : (h0 (heads 2)).hnd_next ≡ 0 = ground (arith, e2) in
    let f1 : (h0 p.hnd_wake).func ≡ cpu_event = ground (arith, d3) in
    let f2 : (h0 p.hnd_sleep).func ≡ cpu_event = ground arith in
    let a1 =
      add_handler-first fuel 1 (heads 1) p.hnd_wake h0 (ground (arith, d0)) (ground (arith, d0)) z1
        l in
    let a2 =
      add_handler-first fuel 2 (heads 2) p.hnd_sleep h1 (ground (arith, d0)) (ground (arith, d0))
        (second_empty h0 (heads 1) (heads 2) p.hnd_wake p.hnd_sleep cpu_event four z1 z2) l in
    let xs = c.vectors.int_handlers in
    let ys = set xs 11 p.hnd_ex in
    let zs = set ys 7 p.hnd_tm in
    let in_y : 7 < length ys = omega (arith, length-set xs 11 p.hnd_ex, long) in
    let in_z : 3 < length zs = omega (arith, length-set ys 7 p.hnd_tm, in_y) in
    (
      record {
        vectors = (set_vectors intr cpu_event at fuel (some (pos 0, heads)) p c.vectors).1;
        handlers = h2;
        priv = record p { enabled_ex = true; enabled_tm = true; enabled_sw = true };
      },
      rw (a1, a2) refl,
      get_or-set zs 3 p.hnd_sw 0 11 in_z
          ∙ get_or-set ys 7 p.hnd_tm 0 11 in_y
          ∙ get_or-set xs 11 p.hnd_ex 0 11 long,
      get_or-set zs 3 p.hnd_sw 0 7 in_z ∙ get_or-set ys 7 p.hnd_tm 0 7 in_y,
      get_or-set zs 3 p.hnd_sw 0 3 in_z,
      λ q mie. (
        rw
            (call_list-one cpu_event q heads fuel 1 (heads 1) p.hnd_wake mie h2
              (wakeup-IsChain h0 (heads 1) (heads 2) p.hnd_wake p.hnd_sleep cpu_event four z1 z2)
              (wakeup_event h0 (heads 1) (heads 2) p.hnd_wake p.hnd_sleep cpu_event four z1 z2)
              (func_kept h0 (heads 1) (heads 2) p.hnd_wake p.hnd_sleep cpu_event four z1 z2
                  p.hnd_wake
                ∙ f1)
              l)
            refl,
        rw
            (call_list-one cpu_event q heads fuel 2 (heads 2) p.hnd_sleep mie h2
              (sleep-IsChain h0 (heads 1) (heads 2) p.hnd_wake p.hnd_sleep cpu_event four z1 z2)
              (sleep_event h0 (heads 1) (heads 2) p.hnd_wake p.hnd_sleep cpu_event four z1 z2)
              (func_kept h0 (heads 1) (heads 2) p.hnd_wake p.hnd_sleep cpu_event four z1 z2
                  p.hnd_sleep
                ∙ f2)
              l)
            refl,
      ),
    )
