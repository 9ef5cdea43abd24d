-- ===== src/Tests/Strings.antt =====
-- Fills, copies and comparisons of a few bytes.
use baremetal_crt.Common.{◌%◌, ◌≡◌, inr, [], ◌∷◌, arith}
use baremetal_crt.CString.{CString, Memory, k_memset, k_memcpy}
use baremetal_crt.CString.Fill.{k_memset-Filled}
use baremetal_crt.CString.Copy.{k_memcpy-Copied}

abbrev bytes : Memory
bytes x = x % 256

k_memset-Filled_example : k_memset bytes 1003 300 200 1100 ≡ 44
k_memset-Filled_example = k_memset-Filled bytes 1003 300 200 1100

k_memcpy-Copied_example : k_memcpy bytes 4096 1003 200 4100 ≡ 239
k_memcpy-Copied_example =
    k_memcpy-Copied bytes 4096 1003 200 4100 (λ x. omega arith) (inr (omega arith))

-- "aB" and "ab"
abbrev upper : CString
upper = 97 ∷ 66 ∷ []

abbrev lower : CString
lower = 97 ∷ 98 ∷ []
