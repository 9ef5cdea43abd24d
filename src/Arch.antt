-- ===== src/Arch.antt =====
-- arch/riscv/cpu.c and include/bmetal/arch-gen/cpu.h: the saved registers of a context as the
-- words of `struct k_arch_riscv_user_regs`, and the arguments that the system reads and writes there.
pub mod Intr
use baremetal_crt.Common.{ℕ, ◌≡◌, arith, ◌==◌, if◌then◌else◌, ℤ, pos}

-- The word at each index of the struct (ra is word 0, mepc word 31, mstatus word 32, mscratch word 33).
abbrev pub Regs : Type 0
Regs = ℕ → ℕ

-- `enum k_arch_arg_type`
pub data ArgType : Type 0 where
  arg_1 arg_2 arg_3 arg_4 arg_5 arg_6 intaddr retaddr retval stack stack_intr tls : ArgType

-- The word that an argument stands in: a0 to a5 are the words 11 to 16.
unfoldable pub arg_word : ArgType → ℕ
arg_word arg_1 = 11
arg_word retval = 11
arg_word arg_2 = 12
arg_word arg_3 = 13
arg_word arg_4 = 14
arg_word arg_5 = 15
arg_word arg_6 = 16
arg_word retaddr = 0
arg_word stack = 1
arg_word stack_intr = 33
arg_word tls = 3
arg_word intaddr = 31

unfoldable pub k_arch_riscv_get_arg : Regs → ArgType → ℤ × ℕ
unfolding arg_word
k_arch_riscv_get_arg regs t = (pos 0, regs (arg_word t))

unfoldable pub k_arch_riscv_set_arg : Regs → ArgType → ℕ → Regs
unfolding arg_word
k_arch_riscv_set_arg regs t v w = if w == arg_word t then v else regs w

-- An argument that is set is read back, and setting it changes no argument that is another word
-- (`arg_1` and `retval` are one word).
pub get_arg-set_arg :
    (regs : Regs) (t u : ArgType) (v : ℕ)
    → k_arch_riscv_get_arg (k_arch_riscv_set_arg regs t v) u
      ≡ (if arg_word u == arg_word t then (pos 0, v) else k_arch_riscv_get_arg regs u)
unfolding k_arch_riscv_get_arg k_arch_riscv_set_arg
get_arg-set_arg regs t u v = ground arith
