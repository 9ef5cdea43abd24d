-- ===== src/Common/Arrays.antt =====
-- C arrays: lists read with a default and written at an index.
use Prim.Native.Nat.{ℕ, zero, suc, ◌<◌}
use mathlib.Core.Path.{◌≡◌, refl}
use mathlib.Core.List.{List, [], ◌∷◌}
use native.Mathlib.Omega.{arith}
use baremetal_crt.Common.Lists.{length, get_or, set}
use baremetal_crt.Common.Tests.{◌==◌, if◌then◌else◌}

module _ {ℓ} {A : Type ℓ} where
  pub get_or-set :
      (xs : List A) (i : ℕ) (v d : A) (j : ℕ)
      → i < length xs
      → get_or (set xs i v) j d ≡ (if i == j then v else get_or xs j d)
  get_or-set [] i v d j h = absurd (omega arith)
  get_or-set (x ∷ xs) zero v d zero h = ground arith
  get_or-set (x ∷ xs) zero v d (suc j) h = ground arith
  get_or-set (x ∷ xs) (suc i) v d zero h = ground arith
  get_or-set (x ∷ xs) (suc i) v d (suc j) h = ground (arith, get_or-set xs i v d j (omega arith))

  -- Lists of one length with the same entries are equal.
  pub list_ext :
      (d : A) (xs ys : List A)
      → length xs ≡ length ys
      → ((j : ℕ) → get_or xs j d ≡ get_or ys j d)
      → xs ≡ ys
  list_ext d [] [] e h = refl
  list_ext d [] (y ∷ ys) e h = absurd (omega arith)
  list_ext d (x ∷ xs) [] e h = absurd (omega arith)
  list_ext d (x ∷ xs) (y ∷ ys) e h =
      let t = list_ext d xs ys (omega arith) (λ j. h (suc j)) in λ k. h 0 k ∷ t k
