-- ===== src/CString/Copy.antt =====
-- `k_memcpy` is a plain copy of disjoint objects.
use baremetal_crt.Common.{
  ℕ, zero, suc, ◌+◌, ◌-◌, ◌*◌, ◌/◌, ◌%◌, ◌^◌, ◌≤◌, ◌<◌, ◌≡◌, ap, ◌&&◌, ◌⊎◌, inl, inr, arith, ltb,
  leb, if◌then◌else◌, Bool-cases, leb→le,
}
use native.Mathlib.Nat.{add-zero, div-one}
use baremetal_crt.CString.{
  Memory, store_byte, store_word, load_word, copy_word, CopyCursor, is_aligned, memcpy_blocks,
  memcpy_words, memcpy_tail, memcpy_aligned, k_memcpy,
}

-- Every address holds a byte.
abbrev pub IsBytes : Memory → Type 0
IsBytes m = (x : ℕ) → m x < 256

-- The `n` bytes at `d` and those at `s` are disjoint.
abbrev pub Apart : ℕ → ℕ → ℕ → Type 0
Apart d s n = (d + n ≤ s) ⊎ (s + n ≤ d)

-- `m'` is `m` with the bytes from `s` on copied to the addresses from `d` up to `e`.
abbrev pub Copied : Memory → ℕ → ℕ → ℕ → Memory → Type 0
Copied m d e s m' = (x : ℕ) → m' x ≡ (if leb d x && ltb x e then m (s + (x - d)) else m x)

Copied-IsBytes : (m m' : Memory) (d e s : ℕ) → IsBytes m → Copied m d e s m' → IsBytes m'
Copied-IsBytes m m' d e s b f x = ground (arith, f x, b x, b (s + (x - d)))

Copied-trans :
    (m m' m'' : Memory) (d e u s t : ℕ)
    → d ≤ e
    → e ≤ u
    → t + d ≡ s + e
    → Apart d s (u - d)
    → Copied m d e s m'
    → Copied m' e u t m''
    → Copied m d u s m''
Copied-trans m m' m'' d e u s t h k j ap f g x = ground (arith, g x, f x, f (t + (x - e)), ap_arg)
  where
    ap_arg : e ≤ x → m (t + (x - e)) ≡ m (s + (x - d))
    ap_arg l = ap' (omega arith)
      where
        ap' : t + (x - e) ≡ s + (x - d) → m (t + (x - e)) ≡ m (s + (x - d))
        ap' q = λ i. m (q i)

Copied-refl : (m : Memory) (d s : ℕ) → Copied m d d s m
Copied-refl m d s x = ground arith

store_byte-Copied : (m : Memory) (d s : ℕ) → IsBytes m → Copied m d (d + 1) s (store_byte m d (m s))
unfolding store_byte
store_byte-Copied m d s b x = ground (arith, b s)

-- The digits of a word of bytes.
digit :
    (a b c d e f g h : ℕ)
    → a < 256
    → b < 256
    → c < 256
    → d < 256
    → e < 256
    → f < 256
    → g < 256
    → h < 256
    → let w =
        a
        + 256 * b
        + 256 ^ 2 * c
        + 256 ^ 3 * d
        + 256 ^ 4 * e
        + 256 ^ 5 * f
        + 256 ^ 6 * g
        + 256 ^ 7 * h in
      (w % 256 ≡ a)
      × (w / 256 % 256 ≡ b)
      × (w / 256 ^ 2 % 256 ≡ c)
      × (w / 256 ^ 3 % 256 ≡ d)
      × (w / 256 ^ 4 % 256 ≡ e)
      × (w / 256 ^ 5 % 256 ≡ f)
      × (w / 256 ^ 6 % 256 ≡ g)
      × (w / 256 ^ 7 % 256 ≡ h)
digit a b c d e f g h ha hb hc hd he hf hg hh = omega arith

load_word-byte :
    (m : Memory) (s k : ℕ) → IsBytes m → k < 8 → load_word m s / 256 ^ k % 256 ≡ m (s + k)
unfolding load_word
load_word-byte m s k b h = pick k h
  where
    w : ℕ
    w = load_word m s

    ds :
        (w % 256 ≡ m s)
        × (w / 256 % 256 ≡ m (s + 1))
        × (w / 256 ^ 2 % 256 ≡ m (s + 2))
        × (w / 256 ^ 3 % 256 ≡ m (s + 3))
        × (w / 256 ^ 4 % 256 ≡ m (s + 4))
        × (w / 256 ^ 5 % 256 ≡ m (s + 5))
        × (w / 256 ^ 6 % 256 ≡ m (s + 6))
        × (w / 256 ^ 7 % 256 ≡ m (s + 7))
    ds = digit _ _ _ _ _ _ _ _ (b _) (b _) (b _) (b _) (b _) (b _) (b _) (b _)

    pick : (k : ℕ) → k < 8 → w / 256 ^ k % 256 ≡ m (s + k)
    pick zero l = rw (add-zero, div-one) ds.0
    pick (suc zero) l = ds.1
    pick (suc (suc zero)) l = ds.2
    pick (suc (suc (suc zero))) l = ds.3
    pick (suc (suc (suc (suc zero)))) l = ds.4
    pick (suc (suc (suc (suc (suc zero))))) l = ds.5
    pick (suc (suc (suc (suc (suc (suc zero)))))) l = ds.6
    pick (suc (suc (suc (suc (suc (suc (suc zero))))))) l = ds.7
    pick (suc (suc (suc (suc (suc (suc (suc (suc k)))))))) l = absurd (omega arith)

copy_word-Copied : (m : Memory) (d s : ℕ) → IsBytes m → Copied m d (d + 8) s (copy_word m d s)
unfolding copy_word store_word
copy_word-Copied m d s b x = ground (arith, load_word-byte m s (x - d) b)

-- What a loop of `k_memcpy` leaves, started at `d` and `s` with `n` bytes to copy.
record Stage (m : Memory) (d s n : ℕ) (r : CopyCursor) : Type 0 where
  forward : d ≤ r.to
  follow : r.from + d ≡ s + r.to
  total : r.to + r.left ≡ d + n
  copied : Copied m d r.to s r.mem

Stage-refl :
    (m : Memory) (d s n : ℕ) → Stage m d s n (record { mem = m; to = d; from = s; left = n })
Stage-refl m d s n = record {
  forward = omega arith;
  follow = omega arith;
  total = omega arith;
  copied = Copied-refl m d s;
}

Stage-trans :
    (m : Memory) (d s n : ℕ) {r r' : CopyCursor}
    → Apart d s n
    → Stage m d s n r
    → Stage r.mem r.to r.from r.left r'
    → Stage m d s n r'
Stage-trans m d s n {r} {r'} a f g = record {
  forward = omega (arith, f.forward, g.forward);
  follow = omega (arith, f.follow, g.follow);
  total = omega (arith, f.total, g.total);
  copied =
      Copied-trans m r.mem r'.mem d r.to r'.to s r.from f.forward g.forward f.follow
        (omega (arith, f.total, f.forward, g.total, g.forward)) f.copied g.copied;
}

Stage-IsBytes :
    {m : Memory} {d s n : ℕ} {r : CopyCursor} → IsBytes m → Stage m d s n r → IsBytes r.mem
Stage-IsBytes {m} {d} {s} {r} b f = Copied-IsBytes m r.mem d r.to s b f.copied

-- One word, as a stage.
word-Stage :
    (m : Memory) (d s n : ℕ)
    → IsBytes m
    → 8 ≤ n
    → Stage m d s n (record { mem = copy_word m d s; to = d + 8; from = s + 8; left = n - 8 })
word-Stage m d s n b h = record {
  forward = omega arith;
  follow = omega arith;
  total = omega arith;
  copied = copy_word-Copied m d s b;
}

Apart-step :
    (m : Memory) (d s n : ℕ) {r : CopyCursor}
    → Apart d s n
    → Stage m d s n r
    → Apart r.to r.from r.left
Apart-step m d s n a f = omega (arith, f.forward, f.follow, f.total)

words-Stage :
    (f : ℕ) (m : Memory) (d s n : ℕ)
    → IsBytes m
    → Apart d s n
    → Stage m d s n (memcpy_words f m d s n)
unfolding memcpy_words
words-Stage zero m d s n b a = Stage-refl m d s n
words-Stage (suc f) m d s n b a = elim (Bool-cases (leb 8 n)) [
  | inl e ↦
      let w = word-Stage m d s n b (leb→le 8 n e) in
      rw e (
        Stage-trans m d s n a w
          (words-Stage f _ (d + 8) (s + 8) (n - 8) (Stage-IsBytes b w) (Apart-step m d s n a w)))
  | inr e ↦ rw e (Stage-refl m d s n)
]

-- One word more after a stage, with the new cursor written in any form.
word_after :
    (m : Memory) (d s n : ℕ) (m' : Memory) (d' s' n' d'' s'' n'' : ℕ)
    → IsBytes m
    → Apart d s n
    → Stage m d s n (record { mem = m'; to = d'; from = s'; left = n' })
    → d'' ≡ d' + 8
    → s'' ≡ s' + 8
    → n'' + 8 ≡ n'
    → Stage m d s n (record { mem = copy_word m' d' s'; to = d''; from = s''; left = n'' })
word_after m d s n m' d' s' n' d'' s'' n'' b a f p q r = Stage-trans m d s n a f (record {
  forward = omega arith;
  follow = omega arith;
  total = omega arith;
  copied = rw p (copy_word-Copied m' d' s' (Stage-IsBytes b f));
})

block-Stage :
    (m : Memory) (d s n : ℕ)
    → IsBytes m
    → Apart d s n
    → 32 ≤ n
    → let m1 = copy_word m d s in
      let m2 = copy_word m1 (d + 8) (s + 8) in
      let m3 = copy_word m2 (d + 16) (s + 16) in
      Stage m d s n
        (record { mem = copy_word m3 (d + 24) (s + 24); to = d + 32; from = s + 32; left = n - 32 })
block-Stage m d s n b a h =
    let m1 = copy_word m d s in
    let m2 = copy_word m1 (d + 8) (s + 8) in
    let m3 = copy_word m2 (d + 16) (s + 16) in
    let w1 = word-Stage m d s n b (omega arith) in
    let w2 =
      word_after m d s n m1 (d + 8) (s + 8) (n - 8) (d + 16) (s + 16) (n - 16) b a w1 (omega arith)
        (omega arith) (omega arith) in
    let w3 =
      word_after m d s n m2 (d + 16) (s + 16) (n - 16) (d + 24) (s + 24) (n - 24) b a w2
        (omega arith) (omega arith) (omega arith) in
    word_after m d s n m3 (d + 24) (s + 24) (n - 24) (d + 32) (s + 32) (n - 32) b a w3 (omega arith)
      (omega arith) (omega arith)

blocks-Stage :
    (f : ℕ) (m : Memory) (d s n : ℕ)
    → IsBytes m
    → Apart d s n
    → Stage m d s n (memcpy_blocks f m d s n)
unfolding memcpy_blocks
blocks-Stage zero m d s n b a = Stage-refl m d s n
blocks-Stage (suc f) m d s n b a = elim (Bool-cases (leb 32 n)) [
  | inl e ↦
      let w = block-Stage m d s n b a (leb→le 32 n e) in
      rw e (
        Stage-trans m d s n a w (
          blocks-Stage f _ (d + 32) (s + 32) (n - 32) (Stage-IsBytes b w) (Apart-step m d s n a w)))
  | inr e ↦ rw e (Stage-refl m d s n)
]

aligned-Stage :
    (m : Memory) (d s n : ℕ) → IsBytes m → Apart d s n → Stage m d s n (memcpy_aligned m d s n)
unfolding memcpy_aligned
aligned-Stage m d s n b a = elim (Bool-cases (is_aligned d && is_aligned s)) [
  | inl e ↦
      let f = blocks-Stage n m d s n b a in
      rw e (
        Stage-trans m d s n a f
          (words-Stage _ _ _ _ _ (Stage-IsBytes b f) (Apart-step m d s n a f)))
  | inr e ↦ rw e (Stage-refl m d s n)
]

tail-Copied :
    (m : Memory) (d s n : ℕ) → IsBytes m → Apart d s n → Copied m d (d + n) s (memcpy_tail m d s n)
unfolding memcpy_tail
tail-Copied m d s zero b a = λ x. ground arith
tail-Copied m d s (suc n) b a =
    let f = store_byte-Copied m d s b in
    Copied-trans m (store_byte m d (m s)) (memcpy_tail m d s (suc n)) d (d + 1) (d + suc n) s
      (s + 1) (omega arith) (omega arith) (omega arith) (omega arith) f
      (λ x. rw (split n) (
        tail-Copied (store_byte m d (m s)) (d + 1) (s + 1) n (Copied-IsBytes m _ d (d + 1) s b f)
          (omega arith) x))
  where
    split : (n : ℕ) → d + suc n ≡ d + 1 + n
    split n = omega arith

-- `k_memcpy`, with its blocks of words, copies exactly `n` bytes between disjoint objects: every byte
-- from `d` up to `d + n` is the source's byte at the same offset, and no other byte changes. The
-- memory holds bytes (numbers below 256).
pub k_memcpy-Copied :
    (m : Memory) (d s n x : ℕ)
    → IsBytes m
    → Apart d s n
    → k_memcpy m d s n x ≡ (if leb d x && ltb x (d + n) then m (s + (x - d)) else m x)
unfolding k_memcpy
k_memcpy-Copied m d s n x b a =
    let w = memcpy_aligned m d s n in
    let f = aligned-Stage m d s n b a in
    let r = memcpy_tail w.mem w.to w.from w.left in
    let g : Copied w.mem w.to (d + n) w.from r =
      rw (← f.total)
        (tail-Copied w.mem w.to w.from w.left (Stage-IsBytes b f) (Apart-step m d s n a f)) in
    Copied-trans m w.mem r d w.to (d + n) s w.from f.forward (omega (arith, f.total)) f.follow
      (omega arith) f.copied g x
