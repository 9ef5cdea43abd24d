-- ===== src/Common/Loops.antt =====
-- Counted loops.
use Prim.Native.Nat.{ℕ, zero, suc, ◌+◌, ◌≤◌, ◌<◌}
use mathlib.Core.Path.{◌≡◌, subst}
use mathlib.Core.Logic.{inl, inr}
use native.Mathlib.Omega.{arith}
use baremetal_crt.Common.Tests.{Bool-cases, ◌==◌}

-- `for (i = first; i < first + left; i++) s = body(i, s)`
unfoldable pub count_up {ℓ} : {S : Type ℓ} → (body : ℕ → S → S) → (left first : ℕ) → S → S
count_up body zero i s = s
count_up body (suc n) i s = count_up body n (i + 1) (body i s)

-- What each round keeps, the loop keeps.
pub count_up-keeps {ℓ κ} :
    {S : Type ℓ} (Keeps : S → Type κ) (body : ℕ → S → S) (n i : ℕ) (s : S)
    → ((k : ℕ) (t : S) → i ≤ k → k < i + n → Keeps t → Keeps (body k t))
    → Keeps s
    → Keeps (count_up body n i s)
unfolding count_up
count_up-keeps Keeps body zero i s f h = h
count_up-keeps Keeps body (suc n) i s f h =
    count_up-keeps Keeps body n (i + 1) (body i s) (λ k t a b. f k t (omega arith) (omega arith))
      (f i s (omega arith) (omega arith) h)

-- A loop that looks for the least cost: round `k` ends at a cost that is no higher than before it, nor than
-- any of the costs `Seen k` that it looks at. Then the loop ends no higher than all that it has seen.
module _ {ℓ κ μ} {S : Type ℓ} (Keeps : S → Type κ) (cost : S → ℕ) (Seen : ℕ → ℕ → Type μ)
    (body : ℕ → S → S) (keep : (k : ℕ) (s : S) → Keeps s → Keeps (body k s))
    (lower : (k : ℕ) (s : S) → Keeps s → cost (body k s) ≤ cost s)
    (least : (k : ℕ) (s : S) → Keeps s → (b : ℕ) → Seen k b → cost (body k s) ≤ b) where
  pub count_up-lower : (n i : ℕ) (s : S) → Keeps s → cost (count_up body n i s) ≤ cost s
  unfolding count_up
  count_up-lower zero i s h = omega arith
  count_up-lower (suc n) i s h =
      omega (arith, count_up-lower n (i + 1) (body i s) (keep i s h), lower i s h)

  pub count_up-least :
      (n i : ℕ) (s : S)
      → Keeps s
      → (k b : ℕ) → i ≤ k
      → k < i + n
      → Seen k b
      → cost (count_up body n i s) ≤ b
  unfolding count_up
  count_up-least zero i s h k b p q x = absurd (omega arith)
  count_up-least (suc n) i s h k b p q x = elim (Bool-cases (k == i)) [
    | inl e ↦
        let same : k ≡ i = ground (arith, e) in
        let now : cost (body i s) ≤ b = least i s h b (subst (λ m. Seen m b) same x) in
        omega (arith, now, count_up-lower n (i + 1) (body i s) (keep i s h))
    | inr e ↦
        count_up-least n (i + 1) (body i s) (keep i s h) k b (ground (arith, e)) (omega arith) x
  ]
