-- ===== src/Event/Dispatch.antt =====
-- `k_event_handle_generic`: which handlers an event reaches, and what it returns.
use baremetal_crt.Common.{
  ℕ, zero, suc, ◌<◌, ◌≡◌, ap, ◌∙◌, inl, inr, Bool, false, ◌||◌, some, List, [], ◌∷◌, arith, length,
  ◌==◌, if◌then◌else◌, Bool-cases, eq_ℤ, ℤ,
}
use baremetal_crt.Event.{
  Handlers, event_handled, event_not_handled, handle_from, k_event_handle_generic,
}
use baremetal_crt.Event.Chain.{IsChain}

-- The handlers of the list that are for the event.
abbrev pub matching : Handlers → ℤ → List ℕ → List ℕ
matching h event [] = []
matching h event (x ∷ xs) =
    let rest = matching h event xs in if eq_ℤ (h x).event event then x ∷ rest else rest

abbrev pub any_handled : List ℤ → Bool
any_handled [] = false
any_handled (r ∷ rs) = eq_ℤ r event_handled || any_handled rs

abbrev join : ℤ → List ℤ → ℤ
join res rs = if any_handled rs then event_handled else res

join-cons :
    (r res : ℤ) (rs : List ℤ)
    → join (if eq_ℤ r event_handled then event_handled else res) rs ≡ join res (r ∷ rs)
join-cons r res rs = elim (Bool-cases (eq_ℤ r event_handled)) [
  | inl e ↦ rw e (ground arith)
  | inr e ↦ rw e
]

module _ {ℓ} {W : Type ℓ}
    (call : (func : ℕ) → (event : ℤ) → (handler : ℕ) → Handlers × W → ℤ × Handlers × W) where
  -- Calls of the handlers `xs`, in order: their results, and the drivers' state at the end.
  unfoldable pub call_all : Handlers → ℤ → List ℕ → W → List ℤ × W
  call_all h event [] w = ([], w)
  call_all h event (x ∷ xs) w =
      let (r, _, w1) = call (h x).func event x (h, w) in
      let (rs, w2) = call_all h event xs w1 in (r ∷ rs, w2)

  module _
      (keeps : (func : ℕ) (event : ℤ) (p : ℕ) (h : Handlers) (w : W)
        → (call func event p (h, w)).1 ≡ h) where
    handle_from-call_all :
        (f : ℕ) (h : Handlers) (event : ℤ) (p : ℕ) (xs : List ℕ) (res : ℤ) (w : W)
        → IsChain h p xs
        → length xs < f
        → let (rs, w') = call_all h event (matching h event xs) w in
          handle_from call f event p res (h, w) ≡ some (join res rs, h, w')
    unfolding handle_from call_all
    handle_from-call_all zero h event p xs res w c l = absurd (omega arith)
    handle_from-call_all (suc f) h event p [] res w c l = ground arith
    handle_from-call_all (suc f) h event p (x ∷ xs) res w (e, n, c) l =
        let r = call (h x).func event x (h, w) in
        let z : (x == 0) ≡ false = ground arith in
        let k : r.1 ≡ h = keeps (h x).func event x h w in
        elim (Bool-cases (eq_ℤ (h x).event event)) [
          | inl m ↦
              let res' = if eq_ℤ r.0 event_handled then event_handled else res in
              let ih = handle_from-call_all f h event (h x).hnd_next xs res' r.2 c (omega arith) in
              let (rs, w') = call_all h event (matching h event xs) r.2 in
              rw (e, m, z, k) (ih ∙ ap (λ j. some (j, h, w')) (join-cons r.0 res rs))
          | inr m ↦
              rw (e, m, z) (handle_from-call_all f h event (h x).hnd_next xs res w c (omega arith))
        ]

    -- An event reaches exactly the handlers of the list that are for it, each once and in the list's
    -- order, and the answer is EVENT_HANDLED when one of them answers so, EVENT_NOT_HANDLED otherwise. For
    -- a list that ends, fuel beyond its length, and drivers' functions that leave the handlers alone.
    pub k_event_handle_generic-call_all :
        (f : ℕ) (h : Handlers) (event : ℤ) (p : ℕ) (xs : List ℕ) (w : W)
        → IsChain h p xs
        → length xs < f
        → let (rs, w') = call_all h event (matching h event xs) w in
          k_event_handle_generic call f event p (h, w)
          ≡ some ((if any_handled rs then event_handled else event_not_handled), h, w')
    unfolding k_event_handle_generic
    k_event_handle_generic-call_all f h event p xs w c l =
        handle_from-call_all f h event p xs event_not_handled w c l
