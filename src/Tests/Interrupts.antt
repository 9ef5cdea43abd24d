-- ===== src/Tests/Interrupts.antt =====
-- Interrupts from another hart and from outside, over registers that keep what is written.
use baremetal_crt.Common.{
  ℕ, get_or, none, ◌^◌, ◌+◌, ◌<◌, ◌≡◌, refl, true, not, ◌&&◌, ◌||◌, Option, some, List, [], ◌∷◌,
  arith, set, ◌==◌, if◌then◌else◌, ℤ, pos,
}
use baremetal_crt.Common.Masks.{bit}
use baremetal_crt.Event.{Handlers, event_handled}
use baremetal_crt.Event.Dispatch.{call_all}
use baremetal_crt.Arch.Intr.{Vectors, k_arch_riscv_interrupt}
use baremetal_crt.Intc.Plic.{PlicPriv, reg_claim, intc_plic_add_handler, intc_plic_remove_handler}
use baremetal_crt.Intc.Plic.Enabled.{enabled, add_handler-remove}
use baremetal_crt.Intc.Clint.{reg_msip, intc_clint_raise_ipi}
use baremetal_crt.Intc.RvPriv.{IntcPriv, intc_priv_cpu_event}
use baremetal_crt.Intc.RvPriv.Masks.{selected, intc_priv_cpu_event-bits}
use baremetal_crt.Intc.RvPriv.Add.{Core, intc_priv_add}
use baremetal_crt.Intc.RvPriv.Add.Woken.{call_event, intc_priv_add-told}
use baremetal_crt.Intc.System.{Functions, call_device, call_entry}
use baremetal_crt.Intc.System.Ipi.{raise_ipi-taken}
use baremetal_crt.Intc.System.External.{interrupt-served}
use baremetal_crt.Kernel.Handlers.{k_cpu_add_handler, k_cpu_on_wakeup, k_cpu_on_sleep, driver_part}
use baremetal_crt.Kernel.Handlers.Reached.{on_wakeup-reaches}

abbrev Registers : Type 0
Registers = ℕ → ℕ

abbrev read_word : (off : ℕ) → Registers → ℕ × Registers
read_word off w = (w off, w)

abbrev write_word : (dat off : ℕ) → Registers → Registers
write_word dat off w x = if off == x then dat else w x

abbrev idle : Registers
idle x = 0

-- A table of 64 sources without a handler, and one where source 2 has the handler 20.
abbrev eight_free : List ℕ
eight_free = 0 ∷ 0 ∷ 0 ∷ 0 ∷ 0 ∷ 0 ∷ 0 ∷ 0 ∷ []

abbrev rest_free : List ℕ → List ℕ
rest_free xs = 0 ∷ 0 ∷ 0 ∷ 0 ∷ 0 ∷ 0 ∷ 0 ∷ 0 ∷ xs

abbrev free_plic : PlicPriv
free_plic = record {
  n_event = 64;
  n_ctx = 1;
  hnd =
      rest_free (rest_free (rest_free (rest_free (rest_free (rest_free (rest_free eight_free))))));
}

abbrev plic : PlicPriv
plic = record free_plic { hnd = set free_plic.hnd 2 20 }

-- The function 1 is that of a core, 2 of the PLIC and 3 of the CLINT; 4 is a driver's.
abbrev functions : Functions
functions = record { priv_intr = 1; plic_intr = 2; clint_intr = 3; plic = plic }

-- The core at 10 has the PLIC's handler 11 for the interrupts from outside, and the core at 12 that of the CLINT, 13, for
-- the software interrupts.
abbrev handlers : Handlers
handlers x = record {
  func =
      if x == 10 then 1 else if x == 12 then 1 else if x == 11 then 2 else if x == 13 then 3 else 4;
  priv = 0;
  event = if x == 11 then pos 11 else if x == 13 then pos 3 else pos 2;
  hnd_next = if x == 10 then 11 else if x == 12 then 13 else 0;
}

abbrev vectors : Vectors
vectors = record {
  int_handlers = 0 ∷ 0 ∷ 0 ∷ 12 ∷ 0 ∷ 0 ∷ 0 ∷ 0 ∷ 0 ∷ 0 ∷ 0 ∷ 10 ∷ [];
  exc_handlers = [];
}

-- The driver writes 7 at 0x100, and has handled the event.
abbrev driver :
    (func : ℕ) → (event : ℤ) → (handler : ℕ) → Handlers × Registers → ℤ × Handlers × Registers
driver func event handler (h, w) = (event_handled, h, write_word 7 0x100 w)

abbrev fault : Registers → Registers
fault w = w

-- The bits of mip that the interrupts here set are the hardware's, and the instruction leaves them.
abbrev csrc_mip : (mask : ℕ) → Registers → Registers
csrc_mip mask w = w

abbrev entry :
    (hart func : ℕ)
    → (event : ℤ) → (handler : ℕ) → Handlers × Registers
    → Option (ℤ × Handlers × Registers)
entry hart = call_entry functions 3 hart read_word write_word write_word driver fault

raise_ipi-taken_example :
    (w1 w2 : Registers) × (intc_clint_raise_ipi write_word 0 0 1 idle ≡ (pos 0, w1))
    × (w1 (reg_msip 1) ≡ 1)
    × (k_arch_riscv_interrupt csrc_mip (entry 1) vectors (2 ^ 63 + 3) (handlers, w1)
        ≡ some (pos 0, handlers, w2))
    × (w2 (reg_msip 1) ≡ 0)
raise_ipi-taken_example =
    raise_ipi-taken functions 3 read_word write_word write_word csrc_mip driver fault (λ w. w)
      (λ dat off w x. refl) (λ mask w x. refl) vectors handlers idle 0 1 12 13 1 refl (omega arith)
      refl (omega arith) (refl, omega arith, refl) refl refl (omega arith) (omega arith)

-- Source 2 is pending.
abbrev two_pending : Registers
two_pending x = if x == reg_claim 0 then 2 else 0

interrupt-served_example :
    k_arch_riscv_interrupt csrc_mip (entry 0) vectors (2 ^ 63 + 11) (handlers, two_pending)
    ≡ some (pos 0, handlers, write_word 7 0x100 (write_word 2 (reg_claim 0) two_pending))
unfolding call_all call_device
interrupt-served_example =
    interrupt-served functions 3 0 read_word write_word write_word csrc_mip driver fault
      (λ func event q h w. refl) vectors handlers two_pending 10 11 2 20 (20 ∷ []) refl
      (omega arith) refl (omega arith) (refl, omega arith, refl) refl refl refl refl (omega arith)
      (refl, omega arith, refl) (omega arith)

add_handler-remove_example :
    (w1 w2 : Registers) × (intc_plic_add_handler read_word write_word
        (some free_plic)
        (pos 2)
        20
        idle
      ≡ (pos 0, some plic, w1))
    × ((n ctx : ℕ)
        → n < 1024
        → ctx < 15872
        → enabled read_word write_word
            (λ w. w)
            (λ off w p q. refl)
            (λ dat off w x p q. refl)
            w1
            n
            ctx
          ≡ (enabled read_word write_word
                (λ w. w)
                (λ off w p q. refl)
                (λ dat off w x p q. refl)
                idle
                n
                ctx
              || ((n == 2) && (ctx == 0))))
    × (intc_plic_remove_handler read_word write_word (some plic) (pos 2) w1
        ≡ (pos 0, some free_plic, w2))
    × ((n ctx : ℕ)
        → n < 1024
        → ctx < 15872
        → enabled read_word write_word
            (λ w. w)
            (λ off w p q. refl)
            (λ dat off w x p q. refl)
            w2
            n
            ctx
          ≡ enabled read_word write_word
              (λ w. w)
              (λ off w p q. refl)
              (λ dat off w x p q. refl)
              idle
              n
              ctx)
unfolding bit
add_handler-remove_example =
    add_handler-remove read_word write_word (λ w. w) (λ off w p q. refl) (λ dat off w x p q. refl)
      free_plic 2 20 idle (omega arith) (omega arith) refl refl refl

-- The interrupts from outside and of the timer are in use and enabled.
abbrev core : IntcPriv
core = record {
  hnd_ex = 10;
  hnd_tm = 14;
  hnd_sw = 12;
  hnd_wake = 15;
  hnd_sleep = 16;
  has_ex = true;
  enabled_ex = true;
  has_tm = true;
  enabled_tm = true;
  has_sw = true;
  enabled_sw = true;
}

intc_priv_cpu_event-bits_example :
    ((intc_priv_cpu_event core (pos 1) 0).0 ≡ event_handled)
    × (bit 11 (intc_priv_cpu_event core (pos 1) 0).1 ≡ (bit 11 0 || selected core 11))
    × ((intc_priv_cpu_event core (pos 2) 0).0 ≡ event_handled)
    × (bit 11 (intc_priv_cpu_event core (pos 2) 0).1 ≡ (bit 11 0 && not (selected core 11)))
intc_priv_cpu_event-bits_example = intc_priv_cpu_event-bits core 0 11 (omega arith)

-- The heads are at 100 and above; the handler 20 is the only one for the wakeup.
abbrev no_handlers : Handlers
no_handlers x = record { func = 4; priv = 0; event = pos 0; hnd_next = 0 }

on_wakeup-reaches_example :
    (g : Handlers) × (k_cpu_add_handler (λ event. 100 + event) 3 1 20 no_handlers ≡ some (pos 0, g))
    × ((op : Option (Registers → ℤ × Registers)) (w w1 : Registers)
        → driver_part op w ≡ (pos 0, w1)
        → k_cpu_on_wakeup driver (λ event. 100 + event) 3 op (g, w)
          ≡ some (pos 0, g, write_word 7 0x100 w1))
unfolding call_all
on_wakeup-reaches_example =
    on_wakeup-reaches driver (λ func event q h w. refl) (λ event. 100 + event) 3 no_handlers 20 []
      (omega arith) (refl, omega arith, refl) (refl, tt) refl (omega arith)

abbrev empty_table : Vectors
empty_table = record {
  int_handlers = 0 ∷ 0 ∷ 0 ∷ 0 ∷ 0 ∷ 0 ∷ 0 ∷ 0 ∷ 0 ∷ 0 ∷ 0 ∷ 0 ∷ [];
  exc_handlers = [];
}

abbrev new_core : Core
new_core = record { vectors = empty_table; handlers = no_handlers; priv = core }

-- 1 stands for `intc_priv_intr` and 5 for `intc_priv_cpu_event`.
intc_priv_add-told_example :
    (d : Core) × (intc_priv_add 1 5 30 2 (some (pos 0, λ event. 100 + event)) true new_core
      ≡ some (pos 0, d))
    × (get_or d.vectors.int_handlers 11 0 ≡ 10)
    × (get_or d.vectors.int_handlers 7 0 ≡ 14)
    × (get_or d.vectors.int_handlers 3 0 ≡ 12)
    × ((p : IntcPriv) (mie : ℕ)
        → (k_cpu_on_wakeup (call_event 5 p) (λ event. 100 + event) 2 none (d.handlers, mie)
            ≡ some (pos 0, d.handlers, (intc_priv_cpu_event p (pos 1) mie).1))
          × (k_cpu_on_sleep (call_event 5 p) (λ event. 100 + event) 2 none (d.handlers, mie)
              ≡ some (pos 0, d.handlers, (intc_priv_cpu_event p (pos 2) mie).1)))
intc_priv_add-told_example =
    intc_priv_add-told 1 5 30 2 (λ event. 100 + event) new_core
      (refl, (refl, (refl, (refl, (refl, (refl, (refl, (refl, tt)))))))) refl refl (omega arith)
      (omega arith)
