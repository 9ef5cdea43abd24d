-- ===== src/CString/Fill.antt =====
-- `k_memset` is a plain fill.
use baremetal_crt.Common.{
  ℕ, zero, suc, ◌+◌, ◌-◌, ◌/◌, ◌%◌, ◌^◌, ◌≤◌, ◌<◌, ◌≡◌, refl, Bool, true, ◌&&◌, inl, inr, arith,
  ltb, leb, ◌==◌, if◌then◌else◌, Bool-cases, leb→le,
}
use native.Mathlib.Nat.{mod-mod}
use baremetal_crt.CString.{
  Memory, store_byte, store_word, Cursor, is_aligned, memset_head, memset_pattern, memset_blocks,
  memset_words, memset_tail, memset_aligned, k_memset,
}

-- `m'` is `m` with the byte `v` at the addresses from `s` up to `e`.
abbrev pub Filled : Memory → ℕ → ℕ → ℕ → Memory → Type 0
Filled m s e v m' = (x : ℕ) → m' x ≡ (if leb s x && ltb x e then v else m x)

Filled-trans :
    (m m' m'' : Memory) (s e u v : ℕ)
    → s ≤ e
    → e ≤ u
    → Filled m s e v m'
    → Filled m' e u v m''
    → Filled m s u v m''
Filled-trans m m' m'' s e u v h k f g x = ground (arith, f x, g x)

Filled-refl : (m : Memory) (s v : ℕ) → Filled m s s v m
Filled-refl m s v x = ground arith

store_byte-Filled : (m : Memory) (s c : ℕ) → Filled m s (s + 1) (c % 256) (store_byte m s c)
unfolding store_byte
store_byte-Filled m s c x = ground arith

-- The lowest `k` bytes of the pattern of `c` are `c`.
has_bytes : (c k : ℕ) → Bool
has_bytes c zero = true
has_bytes c (suc k) = has_bytes c k && (memset_pattern c / 256 ^ k % 256 == c)

has_bytes-at : (c k j : ℕ) → has_bytes c k ≡ true → j < k → memset_pattern c / 256 ^ j % 256 ≡ c
unfolding has_bytes
has_bytes-at c zero j e h = absurd (omega arith)
has_bytes-at c (suc k) j e h = elim (Bool-cases (j == k)) [
  | inl q ↦ let same : j ≡ k = ground (arith, q) in rw same (ground (arith, e))
  | inr q ↦ has_bytes-at c k j (ground (arith, e)) (ground (arith, q, h))
]

-- The same for every `c` below `n`, all eight bytes.
patterns : (n : ℕ) → Bool
patterns zero = true
patterns (suc c) = patterns c && has_bytes c 8

patterns-at : (n c : ℕ) → patterns n ≡ true → c < n → has_bytes c 8 ≡ true
unfolding patterns
patterns-at zero c e h = absurd (omega arith)
patterns-at (suc n) c e h = elim (Bool-cases (c == n)) [
  | inl q ↦ let same : c ≡ n = ground (arith, q) in rw same (ground (arith, e))
  | inr q ↦ patterns-at n c (ground (arith, e)) (ground (arith, q, h))
]

patterns_256 : patterns 256 ≡ true
unfolding patterns has_bytes memset_pattern
patterns_256 = refl

-- Each byte of `c2` is the byte of `c`.
pattern-byte : (c k : ℕ) → c < 256 → k < 8 → memset_pattern c / 256 ^ k % 256 ≡ c
pattern-byte c k h l = has_bytes-at c 8 k (patterns-at 256 c patterns_256 h) l

pattern-mod : (c : ℕ) → memset_pattern (c % 256) ≡ memset_pattern c
unfolding memset_pattern
pattern-mod c = rw mod-mod

store_word-Filled :
    (m : Memory) (s c : ℕ) → Filled m s (s + 8) (c % 256) (store_word m s (memset_pattern c))
unfolding store_word
store_word-Filled m s c x = ground (arith, pattern-mod c, pattern-byte (c % 256) (x - s))

-- What a loop of `k_memset` leaves, started at `s` with `n` bytes to fill.
record Stage (m : Memory) (s n v : ℕ) (r : Cursor) : Type 0 where
  forward : s ≤ r.at
  total : r.at + r.left ≡ s + n
  filled : Filled m s r.at v r.mem

Stage-refl : (m : Memory) (s n v : ℕ) → Stage m s n v (record { mem = m; at = s; left = n })
Stage-refl m s n v = record {
  forward = omega arith;
  total = omega arith;
  filled = Filled-refl m s v;
}

-- One step that fills `k` bytes, then the rest.
Stage-step :
    (m m' : Memory) (s n v k n' : ℕ) {r : Cursor}
    → k + n' ≡ n
    → Filled m s (s + k) v m'
    → Stage m' (s + k) n' v r
    → Stage m s n v r
Stage-step m m' s n v k n' {r} h f g = record {
  forward = omega (arith, g.forward);
  total = omega (arith, g.total);
  filled = Filled-trans m m' r.mem s (s + k) r.at v (omega arith) g.forward f g.filled;
}

head-Stage : (m : Memory) (s c n : ℕ) → Stage m s n (c % 256) (memset_head m s c n)
unfolding memset_head
head-Stage m s c zero = Stage-refl m s zero (c % 256)
head-Stage m s c (suc n) = elim (Bool-cases (is_aligned s)) [
  | inl e ↦ rw e (Stage-refl m s (suc n) (c % 256))
  | inr e ↦ rw e (
      Stage-step m (store_byte m s c) s (suc n) (c % 256) 1 n (omega arith)
        (store_byte-Filled m s c) (head-Stage (store_byte m s c) (s + 1) c n))
]

words-Stage :
    (f : ℕ) (m : Memory) (s c n : ℕ)
    → Stage m s n (c % 256) (memset_words f m s (memset_pattern c) n)
unfolding memset_words
words-Stage zero m s c n = Stage-refl m s n (c % 256)
words-Stage (suc f) m s c n = elim (Bool-cases (leb 8 n)) [
  | inl e ↦ rw e (
      Stage-step m _ s n (c % 256) 8 (n - 8) (omega (arith, leb→le 8 n e)) (store_word-Filled m s c)
        (words-Stage f (store_word m s (memset_pattern c)) (s + 8) c (n - 8)))
  | inr e ↦ rw e (Stage-refl m s n (c % 256))
]

-- The four words of a block.
block-Filled :
    (m : Memory) (s c : ℕ)
    → let p = memset_pattern c in
      Filled m s
        (s + 32)
        (c % 256)
        (store_word (store_word (store_word (store_word m s p) (s + 8) p) (s + 16) p) (s + 24) p)
block-Filled m s c x =
    let p = memset_pattern c in
    let m1 = store_word m s p in
    let m2 = store_word m1 (s + 8) p in
    let m3 = store_word m2 (s + 16) p in
    ground (
      arith,
      store_word-Filled m s c x,
      store_word-Filled m1 (s + 8) c x,
      store_word-Filled m2 (s + 16) c x,
      store_word-Filled m3 (s + 24) c x,
    )

blocks-Stage :
    (f : ℕ) (m : Memory) (s c n : ℕ)
    → Stage m s n (c % 256) (memset_blocks f m s (memset_pattern c) n)
unfolding memset_blocks
blocks-Stage zero m s c n = Stage-refl m s n (c % 256)
blocks-Stage (suc f) m s c n = elim (Bool-cases (leb 32 n)) [
  | inl e ↦ rw e (
      Stage-step m _ s n (c % 256) 32 (n - 32) (omega (arith, leb→le 32 n e)) (block-Filled m s c)
        (blocks-Stage f _ (s + 32) c (n - 32)))
  | inr e ↦ rw e (Stage-refl m s n (c % 256))
]

-- The stages of two loops, one after the other.
Stage-trans :
    (m : Memory) (s n v : ℕ) {r r' : Cursor}
    → Stage m s n v r
    → Stage r.mem r.at r.left v r'
    → Stage m s n v r'
Stage-trans m s n v {r} {r'} f g = record {
  forward = omega (arith, f.forward, g.forward);
  total = omega (arith, f.total, g.total);
  filled = Filled-trans m r.mem r'.mem s r.at r'.at v f.forward g.forward f.filled g.filled;
}

aligned-Stage : (h : Cursor) (c : ℕ) → Stage h.mem h.at h.left (c % 256) (memset_aligned h c)
unfolding memset_aligned
aligned-Stage h c = elim (Bool-cases (is_aligned h.at)) [
  | inl e ↦ rw e (
      Stage-trans h.mem h.at h.left (c % 256) (blocks-Stage h.left h.mem h.at c h.left)
        (words-Stage _ _ _ c _))
  | inr e ↦ rw e (Stage-refl h.mem h.at h.left (c % 256))
]

tail-Filled : (m : Memory) (s c n : ℕ) → Filled m s (s + n) (c % 256) (memset_tail m s c n)
unfolding memset_tail
tail-Filled m s c zero = λ x. ground arith
tail-Filled m s c (suc n) =
    λ x. ground (arith, store_byte-Filled m s c x, tail-Filled (store_byte m s c) (s + 1) c n x)

-- `k_memset`, with its aligned words and blocks of words, fills exactly the `n` bytes at `s` with the
-- low byte of `c`: every byte from `s` up to `s + n` is `c % 256` afterwards, and no other changes.
pub k_memset-Filled :
    (m : Memory) (s c n x : ℕ)
    → k_memset m s c n x ≡ (if leb s x && ltb x (s + n) then c % 256 else m x)
unfolding k_memset
k_memset-Filled m s c n x =
    let h = memset_head m s c n in
    let w = memset_aligned h c in
    let st = Stage-trans m s n (c % 256) (head-Stage m s c n) (aligned-Stage h c) in
    ground (arith, st.forward, st.total, st.filled x, tail-Filled w.mem w.at c w.left x)
