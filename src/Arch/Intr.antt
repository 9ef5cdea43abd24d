-- ===== src/Arch/Intr.antt =====
-- arch/riscv/intr.c: the tables of the handlers of interrupts and exceptions, and the entry of an
-- interrupt. A handler is a pointer, and NULL is 0.
use baremetal_crt.Common.{
  ℕ, ◌%◌, ◌^◌, Bool, false, Option, none, some, List, [], ◌∷◌, ◌==◌, ◌||◌, leb, if◌then◌else◌,
  ◌>>=◌, set, get_or, ℤ, pos, negsuc, eq_ℤ, einval,
}
use baremetal_crt.Event.{Handlers, event_handled}

-- `k_int_handlers`, with RV_CAUSE_INT_MAX_NUM entries, and `k_exc_handlers`, with RV_CAUSE_EXC_MAX_NUM.
pub record Vectors : Type 0 where
  pub int_handlers : List ℕ
  pub exc_handlers : List ℕ

abbrev pub is_one_of : List ℕ → ℕ → Bool
is_one_of [] n = false
is_one_of (x ∷ xs) n = (x == n) || is_one_of xs n

-- The interrupts of the `switch`: software, timer and external ones of the modes U, S and M.
abbrev pub is_interrupt : (event : ℤ) → Bool
is_interrupt (pos n) = is_one_of (0 ∷ 1 ∷ 3 ∷ 4 ∷ 5 ∷ 7 ∷ 8 ∷ 9 ∷ 11 ∷ []) n
is_interrupt (negsuc n) = false

-- The exceptions of the `switch`.
abbrev pub is_exception : (event : ℤ) → Bool
is_exception (pos n) = is_one_of (0 ∷ 1 ∷ 2 ∷ 3 ∷ 4 ∷ 5 ∷ 6 ∷ 7 ∷ 8 ∷ 9 ∷ 11 ∷ 12 ∷ 13 ∷ 15 ∷ []) n
is_exception (negsuc n) = false

abbrev pub index_of : (event : ℤ) → ℕ
index_of (pos n) = n
index_of (negsuc n) = 0

-- The handler is stored where the result is 0; `hnd` is not NULL.
unfoldable pub k_arch_riscv_get_intr_handler : Vectors → (event : ℤ) → ℤ × Option ℕ
k_arch_riscv_get_intr_handler v event =
    if is_interrupt event
    then (pos 0, some (get_or v.int_handlers (index_of event) 0))
    else (einval, none)

unfoldable pub k_arch_riscv_set_intr_handler : Vectors → (event : ℤ) → (hnd : ℕ) → ℤ × Vectors
k_arch_riscv_set_intr_handler v event hnd =
    if is_interrupt event
    then (pos 0, record v { int_handlers = set v.int_handlers (index_of event) hnd })
    else (einval, v)

unfoldable pub k_arch_riscv_get_exc_handler : Vectors → (event : ℤ) → ℤ × Option ℕ
k_arch_riscv_get_exc_handler v event =
    if is_exception event
    then (pos 0, some (get_or v.exc_handlers (index_of event) 0))
    else (einval, none)

unfoldable pub k_arch_riscv_set_exc_handler : Vectors → (event : ℤ) → (hnd : ℕ) → ℤ × Vectors
k_arch_riscv_set_exc_handler v event hnd =
    if is_exception event
    then (pos 0, record v { exc_handlers = set v.exc_handlers (index_of event) hnd })
    else (einval, v)

-- `csrc_mip` is the instruction `csrc mip`, with the bits to clear: what it does to a bit that only the
-- hardware sets is the hardware's. `none` is a handler's function that does not return.
unfoldable pub k_arch_riscv_interrupt {ℓ} :
    {W : Type ℓ} (csrc_mip : (mask : ℕ) → W → W)
    (call : (func : ℕ) → (event : ℤ) → (handler : ℕ) → Handlers × W → Option (ℤ × Handlers × W))
    → Vectors
    → (mcause : ℕ) → Handlers × W
    → Option (ℤ × Handlers × W)
k_arch_riscv_interrupt csrc_mip call v mcause (h, w) =
    let cause = mcause % 2 ^ 31 in
    let p = get_or v.int_handlers cause 0 in
    if leb 12 cause
    then some (pos 0, h, w)
    else if (p == 0) || ((h p).func == 0)
    then some (pos 0, h, w)
    else (do
      (r, h1, w1) ← call (h p).func (pos cause) p (h, w)
      some (pos 0, h1, if eq_ℤ r event_handled then csrc_mip (2 ^ cause) w1 else w1))
