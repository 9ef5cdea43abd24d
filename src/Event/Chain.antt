-- ===== src/Event/Chain.antt =====
-- Adding a handler to a device's list and removing one.
use baremetal_crt.Common.{
  ℕ, zero, suc, ◌+◌, ◌<◌, ◌≡◌, ◌≢◌, refl, sym, subst, inl, inr, Bool, true, false, ◌||◌, some, List,
  [], ◌∷◌, ◌++◌, arith, length, ◌==◌, if◌then◌else◌, Bool-cases, pos, einval,
}
use baremetal_crt.Common.Chain
use baremetal_crt.Common.Chain.{
  has, IsDistinct, last_of, erase, last_of-mem, last_link-chain, IsChain-frame, IsChain-snoc,
}
use baremetal_crt.Event.{
  Handlers, links, set_next, k_event_add_handler, before_from, k_event_remove_handler,
}

-- From `p`, the links lead through the handlers `xs` to NULL.
abbrev pub IsChain : Handlers → ℕ → List ℕ → Type 0
IsChain h p xs = Chain.IsChain (links h) p xs

-- `k_event_add_handler` appends a handler that is not in the list: it returns 0 and the list from the
-- head is the old one with the handler at its end. For a list that ends, without repetition, and fuel
-- beyond its length.
pub add_handler-append :
    (f : ℕ) (h : Handlers) (head handler : ℕ) (ys : List ℕ)
    → handler ≢ 0
    → IsChain h head (head ∷ ys)
    → IsDistinct (head ∷ ys)
    → has handler (head ∷ ys) ≡ false
    → length ys + 1 < f
    → (g : Handlers) × (k_event_add_handler f h head handler ≡ some (pos 0, g))
      × IsChain g head (head ∷ ys ++ handler ∷ [])
unfolding k_event_add_handler set_next
add_handler-append f h head handler ys nz c d out l =
    let g = set_next (set_next h (last_of head ys) handler) handler 0 in
    let t : ((head == 0) || (handler == 0)) ≡ false = ground (arith, c.1) in
    (
      g,
      rw (t, last_link-chain f (links h) head ys 0 c l),
      IsChain-snoc (links h) (links g) handler head ys nz c d out (λ p. ground arith),
    )

-- The handler before `a` in the list `x ∷ ys`.
before : ℕ → ℕ → List ℕ → ℕ
before a x [] = x
before a x (y ∷ ys) = if y == a then x else before a y ys

before-mem :
    (a x y : ℕ) (ys : List ℕ) → has x (y ∷ ys) ≡ false → (y == a) ≡ false → before a y ys ≢ x
unfolding before
before-mem a x y [] h e = ground arith
before-mem a x y (z ∷ zs) h e = ground (arith, before-mem a x z zs)

before_pos :
    (h : Handlers) (a x : ℕ) (ys : List ℕ) → IsChain h x (x ∷ ys) → (before a x ys == 0) ≡ false
unfolding before
before_pos h a x [] (_, n, e) = ground arith
before_pos h a x (y ∷ ys) (_, n, (e, k, c)) = ground (arith, before_pos h a y ys (refl, k, c))

before_from-chain :
    (f : ℕ) (h : Handlers) (x : ℕ) (ys : List ℕ) (a : ℕ)
    → a ≢ 0
    → IsChain h x (x ∷ ys)
    → length ys + 1 < f
    → before_from f h x a ≡ some (if has a ys then before a x ys else 0)
unfolding before_from before
before_from-chain zero h x ys a nz c l = absurd (omega arith)
before_from-chain (suc zero) h x ys a nz c l = absurd (omega arith)
before_from-chain (suc (suc f)) h x [] a nz (_, n, e) l = ground arith
before_from-chain (suc f) h x (y ∷ ys) a nz (_, n, (e, k, d)) l =
    ground (arith, e, before_from-chain f h y ys a nz (refl, k, d))

-- The links after `k_event_remove_handler`.
IsChain-erase :
    (h g : Handlers) (a x : ℕ) (ys : List ℕ)
    → IsChain h x (x ∷ ys)
    → IsDistinct (x ∷ ys)
    → has a ys ≡ true
    → ((p : ℕ) → (g p).hnd_next ≡ (if p == before a x ys then (h a).hnd_next else (h p).hnd_next))
    → IsChain g x (x ∷ erase a ys)
unfolding before
IsChain-erase h g a x [] c d i changed = cc
IsChain-erase h g a x (y ∷ ys) (_, n, (e, k, c)) d i changed = elim (Bool-cases (y == a)) [
  | inl q ↦
      let s : (g x).hnd_next ≡ (h y).hnd_next = ground (arith, changed x) in
      rw q (
        refl,
        n,
        subst (λ r. IsChain g r ys) (sym s)
            (IsChain-frame (links h) (links g) _ ys (λ b m. ground (arith, changed b)) c),
      )
  | inr q ↦
      let s : (g x).hnd_next ≡ y = ground (arith, changed x, before-mem a x y ys) in
      rw q (
        refl,
        n,
        subst (λ r. IsChain g r (y ∷ erase a ys)) (sym s)
            (IsChain-erase h g a y ys (refl, k, c) d.1 (ground arith)
              (λ p. ground (arith, changed p))),
      )
]

erase_absent : (a : ℕ) (xs : List ℕ) → has a xs ≡ false → erase a xs ≡ xs
erase_absent a [] h = refl
erase_absent a (x ∷ xs) h = ground (arith, erase_absent a xs)

chosen :
    (b : Bool) (g h : Handlers) (p : ℕ) (xs : List ℕ)
    → (b ≡ true → IsChain g p xs)
    → (b ≡ false → IsChain h p xs)
    → IsChain (if b then g else h) p xs
chosen true g h p xs f k = f refl
chosen false g h p xs f k = k refl

-- `k_event_remove_handler` unlinks a handler behind the head and returns 0; the head itself, and a handler
-- that is not in the list, are refused with nothing changed. Either way the list afterwards is the old
-- one without the handler behind the head. For a list that ends, without repetition, and fuel beyond its
-- length.
pub remove_handler-erase :
    (f : ℕ) (h : Handlers) (head handler : ℕ) (ys : List ℕ)
    → handler ≢ 0
    → IsChain h head (head ∷ ys)
    → IsDistinct (head ∷ ys)
    → length ys + 1 < f
    → (g : Handlers) × (k_event_remove_handler f h head handler
        ≡ some (if has handler ys then (pos 0, g) else (einval, h)))
      × IsChain (if has handler ys then g else h) head (head ∷ erase handler ys)
unfolding k_event_remove_handler set_next
remove_handler-erase f h head handler ys nz c d l =
    let g = set_next h (before handler head ys) ((h handler).hnd_next) in
    let t : ((head == 0) || (handler == 0)) ≡ false = ground (arith, c.1) in
    (
      g,
      rw (t, before_from-chain f h head ys handler nz c l)
          (elim (Bool-cases (has handler ys)) [
            | inl i ↦ rw (i, before_pos h handler head ys c)
            | inr i ↦ rw i
          ]),
      chosen (has handler ys) g h head (head ∷ erase handler ys)
          (λ i. IsChain-erase h g handler head ys c d i (λ p. ground arith))
          (λ i. rw (erase_absent handler ys i) c),
    )
