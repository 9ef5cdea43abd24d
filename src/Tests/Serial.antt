-- ===== src/Tests/Serial.antt =====
-- A 16550, the UART of SiFive and the timer of the CLINT.
use Prim.Native.Nat.{bit_and}
use baremetal_crt.Common.{
  ℕ, ◌+◌, ◌-◌, ◌*◌, ◌/◌, ◌%◌, ◌^◌, ◌<◌, ◌≤◌, ◌≡◌, refl, Bool, true, false, not, ◌&&◌, Option, some,
  List, [], ◌∷◌, arith, ◌==◌, ap, ◌≢◌, inl, inr, Bool-cases, if◌then◌else◌, pos,
}
use baremetal_crt.Common.Masks.{bit}
use baremetal_crt.Clock.{k_clock_raw_to_timespec}
use baremetal_crt.Clock.Raw.{time}
use baremetal_crt.Driver.Uart.{UartOps, Console, uart_putc, k_uart_add_device}
use baremetal_crt.Driver.Uart.Services.{UartPriv}
use baremetal_crt.Driver.Uart.Ns16550.{uart_ns16550_set_baud, ns16550_uart_ops}
use baremetal_crt.Driver.Uart.Ns16550.Baud.{set_baud-divisor}
use baremetal_crt.Driver.Uart.Ns16550.Console.{EmptyAfter, putc-sends}
use baremetal_crt.Driver.ClintTimer.{
  reg_mtimeh, get_raw_32, get_timecmp_32, set_timecmp_32, timer_clint_set_trigger,
}
use baremetal_crt.Driver.ClintTimer.Count.{get_raw_32-count}
use baremetal_crt.Driver.ClintTimer.Trigger.{compare_of, set_trigger-compare}

-- The registers of a 16550 that concern the speed.
record Latch : Type 0 where
  lcr : ℕ
  ier : ℕ
  dll : ℕ
  dlm : ℕ

abbrev read_latch : (width off : ℕ) → Latch → ℕ × Latch
read_latch width off w = (w.lcr, w)

abbrev write_latch : (width dat off : ℕ) → Latch → Latch
write_latch width dat off w = record {
  lcr = if off == 3 then dat else w.lcr;
  ier = if not (bit 7 w.lcr) && (off == 1) then dat else w.ier;
  dll = if bit 7 w.lcr && (off == 0) then dat else w.dll;
  dlm = if bit 7 w.lcr && (off == 1) then dat else w.dlm;
}

abbrev eight_bits : Latch
eight_bits = record { lcr = 3; ier = 1; dll = 0; dlm = 0 }

-- 115200 baud from 48 MHz: the divisor is 26.
set_baud-divisor_example :
    (w' : Latch) × (uart_ns16550_set_baud read_latch write_latch 0 48000000 115200 eight_bits
      ≡ some (pos 0, w'))
    × ((w'.dll + 256 * w'.dlm) * (115200 * 16) ≤ 48000000)
    × (48000000 < (w'.dll + 256 * w'.dlm) * (115200 * 16) + 115200 * 16)
    × ((j : ℕ) → j < 8 → bit j w'.lcr ≡ (bit j 3 && not (j == 7)))
    × (w'.ier ≡ 1)
set_baud-divisor_example =
    set_baud-divisor read_latch write_latch 0 (λ w. w.lcr) (λ w. w.ier) (λ w. w.dll) (λ w. w.dlm)
      (λ w. refl) (λ off dat w. ground arith) (λ off dat w. ground arith)
      (λ off dat w. ground arith) (λ off dat w. ground arith) 48000000 115200 eight_bits
      (omega arith) (omega arith) (omega arith) (omega arith)

-- A line that is busy for a number of reads, and what it has sent: a character that is written to it while it is busy is
-- lost.
record BusyLine : Type 0 where
  busy : ℕ
  sent : List ℕ

abbrev read_line : (width off : ℕ) → BusyLine → ℕ × BusyLine
read_line width off w = (if w.busy == 0 then 0x60 else 0, record w { busy = w.busy - 1 })

abbrev write_line : (width dat off : ℕ) → BusyLine → BusyLine
write_line width dat off w = record {
  busy = 2;
  sent = if w.busy == 0 then dat ∷ w.sent else w.sent;
}

abbrev priv : UartPriv
priv = record {
  clk = 1;
  index_clk = 0;
  freq_in = 48000000;
  addr_shift = 0;
  intc = 0;
  num_irq = 0;
  handles = false;
  conf = 0;
}

abbrev line_ops : (uart : ℕ) → Option (UartOps BusyLine)
line_ops uart = some (ns16550_uart_ops read_line write_line 3 priv)

abbrev no_console : Console
no_console = record { uart_default = 0; is_uart = false }

abbrev busy_line : BusyLine
busy_line = record { busy = 2; sent = 72 ∷ [] }

abbrev is_probed : (uart : ℕ) → BusyLine → Bool
is_probed uart w = true

-- A status with the bit for the empty transmitter is that of a line that is not busy.
idle_after :
    (w : BusyLine)
    → bit_and ((read_line 8 5 w).0 % 256) 0x20 ≢ 0
    → ((read_line 8 5 w).1.busy == 0) ≡ true
idle_after w n = elim (Bool-cases (w.busy == 0)) [
  | inl e ↦ ground (arith, e)
  | inr e ↦ absurd (n (ap (λ t. bit_and ((if t then 0x60 else 0) % 256) 0x20) e))
]

putc-sends_example :
    (w' : BusyLine) × (uart_putc line_ops is_probed
        (k_uart_add_device (pos 0) 5 true no_console).1.uart_default
        105
        busy_line
      ≡ some (105, w'))
    × (w'.sent ≡ 105 ∷ 72 ∷ [])
unfolding EmptyAfter
putc-sends_example =
    putc-sends read_line write_line priv (λ w. w.sent) (λ w. w.busy == 0) (λ w. false) (λ w. refl)
      (λ w. refl) idle_after (λ dat w e f. ap (λ t. if t then dat ∷ w.sent else w.sent) e) line_ops
      is_probed no_console 5 105 2 busy_line (omega arith) refl refl (omega arith)
      (refl, (refl, omega arith)) refl

-- A counter that advances by one with each read, as its state.
abbrev read_clock : (off : ℕ) → ℕ → ℕ × ℕ
read_clock off t = (if off == reg_mtimeh then t / 2 ^ 32 else t % 2 ^ 32, t + 1)

abbrev write_clock : (dat off : ℕ) → ℕ → ℕ
write_clock dat off t = t

-- The low half wraps round between the reads.
get_raw_32-count_example :
    (v w' : ℕ) × (get_raw_32 read_clock write_clock 2 (2 ^ 32 - 1) ≡ some (pos 0, v, w'))
    × (2 ^ 32 - 1 ≤ v)
    × (v ≤ w')
get_raw_32-count_example =
    get_raw_32-count read_clock write_clock (λ t. t) (λ w. refl) (λ w. refl) (λ off w. omega arith)
      (2 ^ 32 - 1) (omega arith)

-- Characters that come after a number of reads.
record Queue : Type 0 where
  late : ℕ
  waiting : List ℕ

abbrev take_char : List ℕ → ℕ × Queue
take_char [] = (2 ^ 31, record { late = 0; waiting = [] })
take_char (c ∷ cs) = (c, record { late = 0; waiting = cs })

abbrev read_queue : (off : ℕ) → Queue → ℕ × Queue
read_queue off q =
    if q.late == 0 then take_char q.waiting else (2 ^ 31, record q { late = q.late - 1 })

abbrev write_queue : (dat off : ℕ) → Queue → Queue
write_queue dat off q = q

abbrev late_queue : Queue
late_queue = record { late = 1; waiting = 65 ∷ 66 ∷ [] }

abbrev Registers : Type 0
Registers = ℕ → ℕ

abbrev read_word : (off : ℕ) → Registers → ℕ × Registers
read_word off w = (w off, w)

abbrev write_word : (dat off : ℕ) → Registers → Registers
write_word dat off w x = if off == x then dat else w x

abbrev idle : Registers
idle x = 0

abbrev compare_word : (index : ℕ) → Registers → ℕ
compare_word index w =
    compare_of read_word write_word (λ v. v) (λ off v. refl) (λ dat off v x. refl) index w

set_trigger-compare_example :
    (s n cmp : ℕ) × (w' : Registers) × (k_clock_raw_to_timespec 100000 32768 ≡ some (time s n))
    × (timer_clint_set_trigger
          (get_timecmp_32 read_word write_word)
          (set_timecmp_32 read_word write_word)
          32768
          0
          (time s n)
          idle
        ≡ some (pos 0, w'))
    × (get_timecmp_32 read_word write_word 0 w' ≡ (pos 0, cmp, w'))
    × (compare_word 1 w' ≡ 0)
    × (cmp ≤ 100000)
    × (100000 ≤ cmp + 1)
set_trigger-compare_example =
    set_trigger-compare read_word write_word (λ v. v) (λ off v. refl) (λ dat off v x. refl) 32768 0
      100000 1 idle (omega arith) (omega arith) (omega arith)
