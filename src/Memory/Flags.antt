-- ===== src/Memory/Flags.antt =====
-- `k_mem_node_set_page_flag` and the page states that it leaves.
use baremetal_crt.Common.{
  ℕ, zero, suc, ◌+◌, ◌%◌, ◌≤◌, ◌<◌, ◌≡◌, refl, Bool, true, false, ◌&&◌, none, some, List, arith,
  length, get_or, set, length-set, get_or-set, ltb, leb, if◌then◌else◌,
}
use baremetal_crt.Memory.{k_mem_node_set_page_flag, any_free, in_use}

-- `st'` is `st` with the value `v` at the `n` pages from `i` on.
pub record Marked (st : List ℕ) (i n v : ℕ) (st' : List ℕ) : Type 0 where
  pub same_length : length st' ≡ length st
  pub at : (j : ℕ) → get_or st' j 0 ≡ (if leb i j && ltb j (i + n) then v else get_or st j 0)

-- Within the bounds the flags are set.
pub set_flag-Marked :
    (st : List ℕ) (i n v : ℕ)
    → i + n ≤ length st
    → (st' : List ℕ) × (k_mem_node_set_page_flag st i n v ≡ some st') × Marked st i n (v % 256) st'
unfolding k_mem_node_set_page_flag
set_flag-Marked st i zero v h = (st, refl, record { same_length = refl; at = λ j. ground arith })
set_flag-Marked st i (suc n) v h =
    let (st', e, mk) =
      set_flag-Marked (set st i (v % 256)) (i + 1) n v (omega (arith, length-set st i (v % 256))) in
    (
      st',
      ground (arith, e),
      record {
        same_length = omega (arith, mk.same_length, length-set st i (v % 256));
        at = λ j. ground (arith, mk.at j, get_or-set st i (v % 256) 0 j);
      },
    )

-- Past them the write leaves the array.
pub set_flag-none :
    (st : List ℕ) (i n v : ℕ) → length st < i + n → 0 < n → k_mem_node_set_page_flag st i n v ≡ none
unfolding k_mem_node_set_page_flag
set_flag-none st i zero v h p = absurd (omega arith)
set_flag-none st i (suc zero) v h p = ground arith
set_flag-none st i (suc (suc n)) v h p =
    ground (arith, set_flag-none (set st i (v % 256)) (i + 1) (suc n) v, length-set st i (v % 256))

-- The check loop reads `n` pages within the bounds, and tells whether one of them is free.
pub any_free-some :
    (st : List ℕ) (i n : ℕ) → i + n ≤ length st → (b : Bool) × (any_free st i n ≡ some b)
unfolding any_free
any_free-some st i zero h = (false, refl)
any_free-some st i (suc n) h =
    let (b, e) = any_free-some st (i + 1) n (omega arith) in
    ((if in_use st i then b else true), ground (arith, e))
