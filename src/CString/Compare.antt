-- ===== src/CString/Compare.antt =====
-- The string comparisons against their specifications.
use baremetal_crt.Common.{
  ℕ, zero, suc, ◌≡◌, refl, ap, Bool, true, false, ◌↔◌, ◌≢◌, [], ◌∷◌, map, arith, take, pos, ◌-ℤ◌,
}
use baremetal_crt.CString.{
  CString, k_strcmp, strcmp_loop, k_strncmp, strncmp_loop, k_tolower, k_strcasecmp, strcasecmp_loop,
  k_strncasecmp, strncasecmp_loop,
}

-- No byte before the terminator is 0.
abbrev pub IsString : CString → Type 0
IsString [] = Unit {0}
IsString (c ∷ s) = (c ≢ 0) × IsString s

loop_refl : (s : CString) → strcmp_loop s s ≡ pos 0
unfolding strcmp_loop
loop_refl [] = refl
loop_refl (c ∷ s) = ground (arith, loop_refl s)

eq_of_loop : (s t : CString) → IsString s → IsString t → strcmp_loop s t ≡ pos 0 → s ≡ t
unfolding strcmp_loop
eq_of_loop [] [] hs ht e = refl
eq_of_loop [] (d ∷ t) hs ht e = ground arith
eq_of_loop (c ∷ s) [] hs ht e = ground arith
eq_of_loop (c ∷ s) (d ∷ t) hs ht e = ground (arith, eq_of_loop s t hs.1 ht.1)

-- `k_strcmp` returns 0 exactly for equal strings (`same` tells that the pointers are equal, which
-- they are only for one string).
pub k_strcmp-eq_iff :
    (same : Bool) (s t : CString)
    → IsString s
    → IsString t
    → (same ≡ true → s ≡ t)
    → (k_strcmp same s t ≡ pos 0) ↔ (s ≡ t)
unfolding k_strcmp
k_strcmp-eq_iff true s t hs ht h = (λ _. h refl, λ _. refl)
k_strcmp-eq_iff false s t hs ht h = (eq_of_loop s t hs ht, λ e. rw e (loop_refl t))

-- Comparing in the other order negates the result.
pub strcmp_loop-swap : (s t : CString) → strcmp_loop t s ≡ pos 0 -ℤ strcmp_loop s t
unfolding strcmp_loop ◌-ℤ◌
strcmp_loop-swap [] [] = refl
strcmp_loop-swap [] (d ∷ t) = ground arith
strcmp_loop-swap (c ∷ s) [] = ground arith
strcmp_loop-swap (c ∷ s) (d ∷ t) = ground (arith, strcmp_loop-swap s t)

-- `k_strncmp` with the limit `n` compares `n + 1` bytes: its result is that of `k_strcmp` on the first
-- `n + 1` bytes of the strings.
pub k_strncmp-take :
    (s t : CString) (n : ℕ)
    → k_strncmp false s t n ≡ k_strcmp false (take (suc n) s) (take (suc n) t)
unfolding k_strncmp k_strcmp strncmp_loop
k_strncmp-take [] [] n = refl
k_strncmp-take [] (d ∷ t) n = refl
k_strncmp-take (c ∷ s) [] n = refl
k_strncmp-take (c ∷ s) (d ∷ t) zero = ground arith
k_strncmp-take (c ∷ s) (d ∷ t) (suc n) = ground (arith, k_strncmp-take s t n)

tolower_pos : (c : ℕ) → c ≢ 0 → k_tolower c ≢ 0
unfolding k_tolower
tolower_pos c h = ground arith

eq_of_caseloop :
    (s t : CString)
    → IsString s
    → IsString t
    → strcasecmp_loop s t ≡ pos 0
    → map k_tolower s ≡ map k_tolower t
unfolding strcasecmp_loop
eq_of_caseloop [] [] hs ht e = refl
eq_of_caseloop [] (d ∷ t) hs ht e = ground (arith, tolower_pos d)
eq_of_caseloop (c ∷ s) [] hs ht e = ground (arith, tolower_pos c)
eq_of_caseloop (c ∷ s) (d ∷ t) hs ht e = ground (arith, eq_of_caseloop s t hs.1 ht.1)

caseloop_of_eq :
    (s t : CString)
    → IsString s
    → IsString t
    → map k_tolower s ≡ map k_tolower t
    → strcasecmp_loop s t ≡ pos 0
unfolding strcasecmp_loop
caseloop_of_eq [] [] hs ht e = refl
caseloop_of_eq [] (d ∷ t) hs ht e = cc
caseloop_of_eq (c ∷ s) [] hs ht e = cc
caseloop_of_eq (c ∷ s) (d ∷ t) hs ht e = ground (arith, caseloop_of_eq s t hs.1 ht.1)

-- `k_strcasecmp` returns 0 exactly for strings that are equal once every byte is in lower case
-- (`same` tells that the pointers are equal, which they are only for one string).
pub k_strcasecmp-eq_iff :
    (same : Bool) (s t : CString)
    → IsString s
    → IsString t
    → (same ≡ true → s ≡ t)
    → (k_strcasecmp same s t ≡ pos 0) ↔ (map k_tolower s ≡ map k_tolower t)
unfolding k_strcasecmp
k_strcasecmp-eq_iff true s t hs ht h = (λ _. ap (map k_tolower) (h refl), λ _. refl)
k_strcasecmp-eq_iff false s t hs ht h = (eq_of_caseloop s t hs ht, caseloop_of_eq s t hs ht)

-- `k_strncasecmp` is `k_strcasecmp` on the first `n` bytes of the strings.
pub k_strncasecmp-take :
    (s t : CString) (n : ℕ) → k_strncasecmp false s t n ≡ k_strcasecmp false (take n s) (take n t)
unfolding k_strncasecmp k_strcasecmp strncasecmp_loop strcasecmp_loop
k_strncasecmp-take s t zero = refl
k_strncasecmp-take [] [] (suc n) = refl
k_strncasecmp-take [] (d ∷ t) (suc n) = refl
k_strncasecmp-take (c ∷ s) [] (suc n) = refl
k_strncasecmp-take (c ∷ s) (d ∷ t) (suc n) = ground (arith, k_strncasecmp-take s t n)
