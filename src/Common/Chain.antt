-- ===== src/Common/Chain.antt =====
-- Lists that are linked by pointers: a number is a pointer, NULL is 0, and `next` gives the links.
use Prim.Native.Nat.{ℕ, zero, suc, ◌+◌, ◌<◌}
use mathlib.Core.Path.{◌≡◌, refl, sym, subst}
use mathlib.Core.Logic.{◌≢◌}
use mathlib.Core.Bool.{Bool, true, false, ◌||◌}
use mathlib.Core.Option.{Option, none, some}
use mathlib.Core.List.{List, [], ◌∷◌, ◌++◌}
use native.Mathlib.Omega.{arith}
use baremetal_crt.Common.Lists.{length}
use baremetal_crt.Common.Tests.{◌==◌, if◌then◌else◌}

-- `for (x = p; x; x = next(x)) last = x`
unfoldable pub last_link : (fuel : ℕ) → (next : ℕ → ℕ) → (p last : ℕ) → Option ℕ
last_link zero next p last = none
last_link (suc f) next p last =
    let rest = last_link f next (next p) p in if p == 0 then some last else rest

abbrev pub has : ℕ → List ℕ → Bool
has a [] = false
has a (x ∷ xs) = (x == a) || has a xs

abbrev pub IsDistinct : List ℕ → Type 0
IsDistinct [] = Unit {0}
IsDistinct (x ∷ xs) = (has x xs ≡ false) × IsDistinct xs

-- From `p`, the links lead through the pointers `xs` to NULL.
abbrev pub IsChain : (next : ℕ → ℕ) → ℕ → List ℕ → Type 0
IsChain h p [] = p ≡ 0
IsChain h p (x ∷ xs) = (p ≡ x) × (x ≢ 0) × IsChain h (h x) xs

abbrev pub last_of : ℕ → List ℕ → ℕ
last_of x [] = x
last_of x (y ∷ ys) = last_of y ys

-- The list without `a`.
abbrev pub erase : ℕ → List ℕ → List ℕ
erase a [] = []
erase a (x ∷ xs) = if x == a then xs else x ∷ erase a xs

pub last_of-mem : (x y : ℕ) (ys : List ℕ) → has x (y ∷ ys) ≡ false → last_of y ys ≢ x
last_of-mem x y [] h = ground arith
last_of-mem x y (z ∷ zs) h = last_of-mem x z zs (ground arith)

pub last_link-chain :
    (f : ℕ) (h : ℕ → ℕ) (x : ℕ) (ys : List ℕ) (last : ℕ)
    → IsChain h x (x ∷ ys)
    → length ys + 1 < f
    → last_link f h x last ≡ some (last_of x ys)
unfolding last_link
last_link-chain zero h x ys last c l = absurd (omega arith)
last_link-chain (suc zero) h x ys last c l = absurd (omega arith)
last_link-chain (suc (suc f)) h x [] last (_, n, e) l = ground arith
last_link-chain (suc f) h x (y ∷ ys) last (_, n, (e, k, d)) l =
    ground (arith, e, last_link-chain f h y ys x (refl, k, d))

-- A change of links outside a chain leaves it.
pub IsChain-frame :
    (h g : ℕ → ℕ) (p : ℕ) (xs : List ℕ)
    → ((a : ℕ) → has a xs ≡ true → g a ≡ h a)
    → IsChain h p xs
    → IsChain g p xs
IsChain-frame h g p [] same c = c
IsChain-frame h g p (x ∷ xs) same (e, n, c) = (
  e,
  n,
  IsChain-frame h g _ xs (λ a i. same a (ground arith))
      (subst (λ q. IsChain h q xs) (sym (same x (ground arith))) c),
)

-- The links after a pointer is put at the end.
pub IsChain-snoc :
    (h g : ℕ → ℕ) (new x : ℕ) (ys : List ℕ)
    → new ≢ 0
    → IsChain h x (x ∷ ys)
    → IsDistinct (x ∷ ys)
    → has new (x ∷ ys) ≡ false
    → ((p : ℕ) → g p ≡ (if p == new then 0 else if p == last_of x ys then new else h p))
    → IsChain g x (x ∷ ys ++ new ∷ [])
IsChain-snoc h g new x [] nz (_, n, e) d out links =
    (refl, n, (ground (arith, links x), nz, ground (arith, links new)))
IsChain-snoc h g new x (y ∷ ys) nz (_, n, (e, k, c)) d out links =
    let keep : g x ≡ y = ground (arith, links x, last_of-mem x y ys) in
    (
      refl,
      n,
      subst (λ q. IsChain g q (y ∷ ys ++ new ∷ [])) (sym keep)
          (IsChain-snoc h g new y ys nz (refl, k, c) d.1 (ground arith) links),
    )
