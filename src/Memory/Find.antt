-- ===== src/Memory/Find.antt =====
-- The search for free pages: what `k_mem_node_count_cont_pages` counts and what the loop of
-- `k_mem_node_alloc_pages_nolock` finds.
use baremetal_crt.Common.{
  ℕ, zero, suc, ◌+◌, ◌-◌, ◌≤◌, ◌<◌, ◌≡◌, ◌⊎◌, inl, inr, true, false, ◌||◌, Option, none, some, List,
  arith, ltb, leb, ltb→lt, leb→le, Bool-cases, dec_lt,
}
use baremetal_crt.Memory.{MemNode, in_use, count_cont, k_mem_node_count_cont_pages, find_pages}

-- The count `c` of a run from page `i` that starts at `r`, goes over at most `k` pages and is cut
-- at `lim`: the pages passed are free, and it stops at the limit, at the end or at a page in use.
record Counted (k : ℕ) (st : List ℕ) (i r lim c : ℕ) : Type 0 where
  least : r ≤ c
  within : c ≤ r + k
  free : (j : ℕ) → r + j < c → in_use st (i + j) ≡ false
  stop : (lim ≤ c) ⊎ (c ≡ r + k) ⊎ (in_use st (i + (c - r)) ≡ true)

Counted-here :
    (k : ℕ) (st : List ℕ) (i r lim : ℕ)
    → (lim ≤ r) ⊎ (r ≡ r + k) ⊎ (in_use st i ≡ true)
    → Counted k st i r lim r
Counted-here k st i r lim h = record {
  least = omega arith;
  within = omega arith;
  free = λ j l. absurd (omega arith);
  stop = ground (arith, here_eq);
}
  where
    here_eq : i + (r - r) ≡ i
    here_eq = omega arith

Counted-step :
    (k : ℕ) (st : List ℕ) (i r lim c : ℕ)
    → in_use st i ≡ false
    → Counted k st (i + 1) (r + 1) lim c
    → Counted (suc k) st i r lim c
Counted-step k st i r lim c e f = record {
  least = omega (arith, f.least);
  within = omega (arith, f.within);
  free = free_all;
  stop = ground (arith, f.stop, f.least, last_eq);
}
  where
    last_eq : r + 1 ≤ c → i + 1 + (c - (r + 1)) ≡ i + (c - r)
    last_eq l = omega arith

    free_all : (j : ℕ) → r + j < c → in_use st (i + j) ≡ false
    free_all zero l = ground (arith, e)
    free_all (suc j) l = ground (arith, f.free j)

count_cont-Counted :
    (k : ℕ) (st : List ℕ) (i r lim : ℕ) → Counted k st i r lim (count_cont k st i r lim)
unfolding count_cont
count_cont-Counted zero st i r lim = Counted-here zero st i r lim (omega arith)
count_cont-Counted (suc k) st i r lim = elim (Bool-cases (in_use st i || leb lim r)) [
  | inl e ↦ rw e (Counted-here (suc k) st i r lim (ground arith))
  | inr e ↦
      rw e
        (Counted-step k st i r lim _ (ground arith) (count_cont-Counted k st (i + 1) (r + 1) lim))
]

-- What the loop looks for at page `i`: the page is free, and so are the `req - 2` pages after it.
pub record Fits (m : MemNode) (req i : ℕ) : Type 0 where
  pub inside : i < m.page_total
  pub first : in_use m.stat_page i ≡ false
  pub run : (j : ℕ) → suc j < req → (i + j < m.page_total) × (in_use m.stat_page (i + j) ≡ false)

count-Counted :
    (m : MemNode) (req i : ℕ)
    → Counted (m.page_total - i) m.stat_page i 1 req (k_mem_node_count_cont_pages m i req)
unfolding k_mem_node_count_cont_pages
count-Counted m req i = count_cont-Counted (m.page_total - i) m.stat_page i 1 req

module _ (m : MemNode) (req i : ℕ) (inside : i < m.page_total) where
  counted-Fits :
      in_use m.stat_page i ≡ false → req ≤ k_mem_node_count_cont_pages m i req → Fits m req i
  counted-Fits e h =
      let c = count-Counted m req i in
      record { inside = inside; first = e; run = λ j l. ground (arith, c.free j, c.within) }

  -- No page that the loop passes over fits.
  skipped-not_Fits :
      (i' : ℕ)
      → in_use m.stat_page i ≡ false
      → k_mem_node_count_cont_pages m i req < req
      → i ≤ i'
      → i' < i + k_mem_node_count_cont_pages m i req
      → Fits m req i'
      → ⊥
  skipped-not_Fits i' e h l u f =
      let c = count-Counted m req i in
      let n = k_mem_node_count_cont_pages m i req in
      let j : ℕ = i + (n - 1) - i' in
      let q : i' + j ≡ i + (n - 1) = omega (arith, c.least) in
      let r = f.run j (omega (arith, c.least)) in
      let r' : (i + (n - 1) < m.page_total) × (in_use m.stat_page (i + (n - 1)) ≡ false) =
        rw (← q) r in
      ground (arith, c.stop, c.least, c.within, r')

  count_pos : 0 < k_mem_node_count_cont_pages m i req
  count_pos = omega (arith, (count-Counted m req i).least)

-- What the loop finds from page `i` on: the least page that fits, or that there is none.
unfoldable pub FoundFrom : MemNode → (req i : ℕ) → Option ℕ → Type 0
FoundFrom m req i none = (j : ℕ) → i ≤ j → ¬ Fits m req j
FoundFrom m req i (some k) = (i ≤ k) × Fits m req k × ((j : ℕ) → i ≤ j → j < k → ¬ Fits m req j)

-- Pages passed over on the way to `i'` do not matter.
FoundFrom-skip :
    (m : MemNode) (req i i' : ℕ) (r : Option ℕ)
    → i ≤ i'
    → ((j : ℕ) → i ≤ j → j < i' → ¬ Fits m req j)
    → FoundFrom m req i' r
    → FoundFrom m req i r
unfolding FoundFrom
FoundFrom-skip m req i i' none h skip f =
    λ j l x. elim (dec_lt j i') [ yes p ↦ skip j l p x | no p ↦ f j (omega arith) x ]
FoundFrom-skip m req i i' (some k) h skip f = (
  omega (arith, f.0),
  f.1,
  λ j l u x. elim (dec_lt j i') [ yes p ↦ skip j l p x | no p ↦ f.2 j (omega arith) u x ],
)

pub find_pages-FoundFrom :
    (f : ℕ) (m : MemNode) (req i : ℕ)
    → m.page_total < i + f
    → FoundFrom m req i (find_pages f m req i)
unfolding find_pages FoundFrom
find_pages-FoundFrom zero m req i h = λ j l x. absurd (omega (arith, x.inside))
find_pages-FoundFrom (suc f) m req i h = elim (Bool-cases (ltb i m.page_total)) [
  | inr e ↦ rw e (λ j l x. ground (arith, x.inside))
  | inl e ↦ elim (Bool-cases (in_use m.stat_page i)) [
    | inl u ↦
        rw (e, u)
          (FoundFrom-skip m req i (i + 1) _ (omega arith)
            (λ j l k x. ground (arith, at_eq j l k, x.first))
            (find_pages-FoundFrom f m req (i + 1) (omega arith)))
    | inr u ↦
        let n = k_mem_node_count_cont_pages m i req in
        let inside : i < m.page_total = ltb→lt _ _ e in
        elim (Bool-cases (leb req n)) [
          | inl g ↦
              rw (e, u, g)
                (
                  omega arith,
                  counted-Fits m req i inside u (leb→le _ _ g),
                  λ j l k x. absurd (omega arith),
                )
          | inr g ↦
              rw (e, u, g)
                (FoundFrom-skip m req i (i + n) _ (omega arith)
                  (λ j l k x. skipped-not_Fits m req i inside j u (ground arith) l k x)
                  (find_pages-FoundFrom f m req (i + n) (omega (arith, count_pos m req i inside))))
        ]
  ]
]
  where
    at_eq : (j : ℕ) → i ≤ j → j < i + 1 → j ≡ i
    at_eq j l k = omega arith
