-- ===== src/CString.antt =====
-- sys/sys/string.c: memory fills and copies over a byte memory, and the string comparisons.
-- The build is the 64-bit one (OPT_BYTES is 8), and words are little-endian, as on RISC-V. A pointer
-- is an address; an object does not wrap round the address space. A C string is the list of its bytes
-- before the terminator, and `char` is unsigned, as on RISC-V.
pub mod Fill
pub mod Copy
pub mod Compare
use Prim.Native.Nat.{bit_or}
use baremetal_crt.Common.{
  ℕ, zero, suc, ◌+◌, ◌-◌, ◌*◌, ◌/◌, ◌%◌, ◌^◌, Bool, true, false, not, ◌&&◌, List, [], ◌∷◌, length,
  ltb, leb, ◌==◌, if◌then◌else◌, ℤ, pos, sub_ℕ, is_nonzero,
}

-- A byte for each address.
abbrev pub Memory : Type 0
Memory = ℕ → ℕ

-- `*(char *)a = v`
pub store_byte : Memory → ℕ → ℕ → Memory
store_byte m a v x = if x == a then v % 256 else m x

-- `*(uint64_t *)a = v`
pub store_word : Memory → ℕ → ℕ → Memory
store_word m a v x = if leb a x && ltb x (a + 8) then v / 256 ^ (x - a) % 256 else m x

-- `*(const uint64_t *)a`
pub load_word : Memory → ℕ → ℕ
load_word m a =
    m a
    + 256 * m (a + 1)
    + 256 ^ 2 * m (a + 2)
    + 256 ^ 3 * m (a + 3)
    + 256 ^ 4 * m (a + 4)
    + 256 ^ 5 * m (a + 5)
    + 256 ^ 6 * m (a + 6)
    + 256 ^ 7 * m (a + 7)

-- `is_aligned(p, OPT_BYTES)`
abbrev pub is_aligned : ℕ → Bool
is_aligned p = p % 8 == 0

-- Where a loop of `k_memset` stands: the memory, `s` and `n`.
pub record Cursor : Type 0 where
  pub mem : Memory
  pub at : ℕ
  pub left : ℕ

-- The first loop of `k_memset`: bytes up to an aligned address.
pub memset_head : Memory → ℕ → ℕ → ℕ → Cursor
unfolding store_byte
memset_head m s c zero = record { mem = m; at = s; left = zero }
memset_head m s c (suc n) =
    let rest = memset_head (store_byte m s c) (s + 1) c n in
    if is_aligned s then record { mem = m; at = s; left = suc n } else rest

-- `c2`: the byte in every place of a word.
pub memset_pattern : ℕ → ℕ
memset_pattern c =
    let b = c % 256 in
    let h = bit_or b (b * 2 ^ 8 % 2 ^ 64) in
    let w = bit_or h (h * 2 ^ 16 % 2 ^ 64) in bit_or w (w * 2 ^ 16 % 2 ^ 64 * 2 ^ 16 % 2 ^ 64)

-- The loop of four words at a time, on fuel.
pub memset_blocks : ℕ → Memory → ℕ → ℕ → ℕ → Cursor
unfolding store_word
memset_blocks zero m s c2 n = record { mem = m; at = s; left = n }
memset_blocks (suc f) m s c2 n =
    let m1 = store_word m s c2 in
    let m2 = store_word m1 (s + 8) c2 in
    let m3 = store_word m2 (s + 16) c2 in
    let m4 = store_word m3 (s + 24) c2 in
    let rest = memset_blocks f m4 (s + 32) c2 (n - 32) in
    if leb 32 n then rest else record { mem = m; at = s; left = n }

-- The loop of one word at a time, on fuel.
pub memset_words : ℕ → Memory → ℕ → ℕ → ℕ → Cursor
unfolding store_word
memset_words zero m s c2 n = record { mem = m; at = s; left = n }
memset_words (suc f) m s c2 n =
    let rest = memset_words f (store_word m s c2) (s + 8) c2 (n - 8) in
    if leb 8 n then rest else record { mem = m; at = s; left = n }

-- The last loop: the bytes that are left.
pub memset_tail : Memory → ℕ → ℕ → ℕ → Memory
unfolding store_byte
memset_tail m s c zero = m
memset_tail m s c (suc n) = memset_tail (store_byte m s c) (s + 1) c n

-- The part of `k_memset` under `if (is_aligned(s, OPT_BYTES))`. Fuel `n` is enough for both loops.
pub memset_aligned : Cursor → ℕ → Cursor
unfolding memset_pattern memset_blocks memset_words
memset_aligned h c =
    let b = memset_blocks h.left h.mem h.at (memset_pattern c) h.left in
    let w = memset_words b.left b.mem b.at (memset_pattern c) b.left in
    if is_aligned h.at then w else h

unfoldable pub k_memset : Memory → ℕ → ℕ → ℕ → Memory
unfolding memset_head memset_aligned memset_tail
k_memset m s c n =
    let h = memset_head m s c n in let w = memset_aligned h c in memset_tail w.mem w.at c w.left

-- Where a loop of `k_memcpy` stands: the memory, `dest`, `src` and `n`.
pub record CopyCursor : Type 0 where
  pub mem : Memory
  pub to : ℕ
  pub from : ℕ
  pub left : ℕ

-- `*(OPT_T *)dest = *(const OPT_T *)src`
pub copy_word : Memory → ℕ → ℕ → Memory
unfolding store_word load_word
copy_word m d s = store_word m d (load_word m s)

pub memcpy_blocks : ℕ → Memory → ℕ → ℕ → ℕ → CopyCursor
unfolding copy_word
memcpy_blocks zero m d s n = record { mem = m; to = d; from = s; left = n }
memcpy_blocks (suc f) m d s n =
    let m1 = copy_word m d s in
    let m2 = copy_word m1 (d + 8) (s + 8) in
    let m3 = copy_word m2 (d + 16) (s + 16) in
    let m4 = copy_word m3 (d + 24) (s + 24) in
    let rest = memcpy_blocks f m4 (d + 32) (s + 32) (n - 32) in
    if leb 32 n then rest else record { mem = m; to = d; from = s; left = n }

pub memcpy_words : ℕ → Memory → ℕ → ℕ → ℕ → CopyCursor
unfolding copy_word
memcpy_words zero m d s n = record { mem = m; to = d; from = s; left = n }
memcpy_words (suc f) m d s n =
    let rest = memcpy_words f (copy_word m d s) (d + 8) (s + 8) (n - 8) in
    if leb 8 n then rest else record { mem = m; to = d; from = s; left = n }

pub memcpy_tail : Memory → ℕ → ℕ → ℕ → Memory
unfolding store_byte
memcpy_tail m d s zero = m
memcpy_tail m d s (suc n) = memcpy_tail (store_byte m d (m s)) (d + 1) (s + 1) n

-- The part of `k_memcpy` for two aligned pointers. Fuel `n` is enough for both loops.
pub memcpy_aligned : Memory → ℕ → ℕ → ℕ → CopyCursor
unfolding memcpy_blocks memcpy_words
memcpy_aligned m d s n =
    let b = memcpy_blocks n m d s n in
    let w = memcpy_words b.left b.mem b.to b.from b.left in
    if is_aligned d && is_aligned s then w else record { mem = m; to = d; from = s; left = n }

unfoldable pub k_memcpy : Memory → ℕ → ℕ → ℕ → Memory
unfolding memcpy_aligned memcpy_tail
k_memcpy m d s n = let w = memcpy_aligned m d s n in memcpy_tail w.mem w.to w.from w.left

-- A C string: its bytes before the terminator.
abbrev pub CString : Type 0
CString = List ℕ

pub k_strlen : CString → ℕ
k_strlen [] = 0
k_strlen (c ∷ s) = suc (k_strlen s)

-- The loop of `k_strcmp`, and the difference that it returns; the terminator is the byte 0.
unfoldable pub strcmp_loop : CString → CString → ℤ
strcmp_loop [] [] = pos 0
strcmp_loop [] (d ∷ t) = sub_ℕ 0 d
strcmp_loop (c ∷ s) [] = sub_ℕ c 0
strcmp_loop (c ∷ s) (d ∷ t) = if c == d then strcmp_loop s t else sub_ℕ c d

-- `same` is the test `s1 == s2` of the two pointers.
unfoldable pub k_strcmp : (same : Bool) → CString → CString → ℤ
unfolding strcmp_loop
k_strcmp same s t = if same then pos 0 else strcmp_loop s t

-- The loop of `k_strncmp`. It stops at `n == 0` with the pointers past the bytes compared.
pub strncmp_loop : CString → CString → ℕ → ℤ
strncmp_loop [] [] n = pos 0
strncmp_loop [] (d ∷ t) n = sub_ℕ 0 d
strncmp_loop (c ∷ s) [] n = sub_ℕ c 0
strncmp_loop (c ∷ s) (d ∷ t) zero = sub_ℕ c d
strncmp_loop (c ∷ s) (d ∷ t) (suc n) = if c == d then strncmp_loop s t n else sub_ℕ c d

pub k_strncmp : (same : Bool) → CString → CString → ℕ → ℤ
unfolding strncmp_loop
k_strncmp same s t n = if same then pos 0 else strncmp_loop s t n

unfoldable pub k_isupper : ℕ → Bool
k_isupper c = leb b'A' c && leb c b'Z'

unfoldable pub k_tolower : ℕ → ℕ
unfolding k_isupper
k_tolower c = if k_isupper c then c - b'A' + b'a' else c

-- The loop of `k_strcasecmp`.
unfoldable pub strcasecmp_loop : CString → CString → ℤ
unfolding k_tolower
strcasecmp_loop [] [] = pos 0
strcasecmp_loop [] (d ∷ t) = sub_ℕ 0 (k_tolower d)
strcasecmp_loop (c ∷ s) [] = sub_ℕ (k_tolower c) 0
strcasecmp_loop (c ∷ s) (d ∷ t) =
    let diff = sub_ℕ (k_tolower c) (k_tolower d) in
    if is_nonzero diff then diff else strcasecmp_loop s t

unfoldable pub k_strcasecmp : (same : Bool) → CString → CString → ℤ
unfolding strcasecmp_loop
k_strcasecmp same s t = if same then pos 0 else strcasecmp_loop s t

-- The loop of `k_strncasecmp`: `d` is 0 when `n` runs out.
pub strncasecmp_loop : CString → CString → ℕ → ℤ
unfolding k_tolower
strncasecmp_loop s t zero = pos 0
strncasecmp_loop [] [] (suc n) = pos 0
strncasecmp_loop [] (d ∷ t) (suc n) = sub_ℕ 0 (k_tolower d)
strncasecmp_loop (c ∷ s) [] (suc n) = sub_ℕ (k_tolower c) 0
strncasecmp_loop (c ∷ s) (d ∷ t) (suc n) =
    let diff = sub_ℕ (k_tolower c) (k_tolower d) in
    if is_nonzero diff then diff else strncasecmp_loop s t n

pub k_strncasecmp : (same : Bool) → CString → CString → ℕ → ℤ
unfolding strncasecmp_loop
k_strncasecmp same s t n = if same then pos 0 else strncasecmp_loop s t n
