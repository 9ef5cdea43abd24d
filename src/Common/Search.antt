-- ===== src/Common/Search.antt =====
-- The first entry of an array that passes a test, as the pointer that the code makes of its index:
-- the index plus 1, and 0 where no entry passes.
use Prim.Native.Nat.{ℕ, zero, suc, ◌+◌, ◌-◌, ◌≤◌, ◌<◌}
use mathlib.Core.Path.{◌≡◌, refl}
use mathlib.Core.Logic.{◌⊎◌, inl, inr}
use mathlib.Core.Bool.{Bool, true, false}
use mathlib.Core.List.{List, [], ◌∷◌}
use native.Mathlib.Omega.{arith}
use baremetal_crt.Common.Lists.{length, get_or}
use baremetal_crt.Common.Tests.{if◌then◌else◌, Bool-cases}

module _ {ℓ} {A : Type ℓ} (test : A → Bool) where
  unfoldable pub first_from : List A → (i : ℕ) → ℕ
  first_from [] i = 0
  first_from (x ∷ xs) i = let rest = first_from xs (i + 1) in if test x then i + 1 else rest

  -- `r` points to the first entry of `xs`, whose entries have the indices from `i` on.
  pub record First (d : A) (xs : List A) (i r : ℕ) : Type 0 where
    pub inside : (i < r) × (r ≤ i + length xs)
    pub passes : test (get_or xs (r - 1 - i) d) ≡ true
    pub least : (j : ℕ) → j < r - 1 - i → test (get_or xs j d) ≡ false

  First-cons :
      (d x : A) (xs : List A) (i r : ℕ)
      → test x ≡ false
      → First d xs (i + 1) r
      → First d (x ∷ xs) i r
  First-cons d x xs i r e f = record {
    inside = omega (arith, f.inside);
    passes = ground (arith, index_eq, f.passes);
    least = go;
  }
    where
      index_eq : r - 1 - i ≡ suc (r - 1 - (i + 1))
      index_eq = omega (arith, f.inside)

      go : (j : ℕ) → j < r - 1 - i → test (get_or (x ∷ xs) j d) ≡ false
      go zero l = e
      go (suc j) l = f.least j (omega arith)

  First-here : (d x : A) (xs : List A) (i : ℕ) → test x ≡ true → First d (x ∷ xs) i (i + 1)
  First-here d x xs i e = record {
    inside = omega arith;
    passes = ground (arith, index_eq, e);
    least = λ j l. absurd (omega arith);
  }
    where
      index_eq : i + 1 - 1 - i ≡ 0
      index_eq = omega arith

  pub first_from-cases :
      (d : A) (xs : List A) (i : ℕ)
      → ((first_from xs i ≡ 0) × ((j : ℕ) → j < length xs → test (get_or xs j d) ≡ false))
        ⊎ First d xs i (first_from xs i)
  unfolding first_from
  first_from-cases d [] i = inl (refl, λ j l. absurd (omega arith))
  first_from-cases d (x ∷ xs) i = elim (Bool-cases (test x)) [
    | inl e ↦ inr (rw e (First-here d x xs i e))
    | inr e ↦ elim (first_from-cases d xs (i + 1)) [
      | inl (z, none) ↦ inl (rw e z, later none e)
      | inr f ↦ inr (rw e (First-cons d x xs i _ e f))
    ]
  ]
    where
      later :
          ((j : ℕ) → j < length xs → test (get_or xs j d) ≡ false)
          → test x ≡ false
          → (j : ℕ) → j < length (x ∷ xs)
          → test (get_or (x ∷ xs) j d) ≡ false
      later none e zero l = e
      later none e (suc j) l = none j (omega arith)
