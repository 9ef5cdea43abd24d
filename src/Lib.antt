-- ===== src/Lib.antt =====
-- The core of Baremetal CRT, the runtime that gives a program on bare RISC-V hardware the system calls of
-- Linux: the start of the system with its tree of drivers, the page allocator and the system calls on
-- memory, the byte and string functions, the spin lock, the event handlers, the clock, threads on the CPUs
-- of the machine, interrupts with their controllers, drivers for the clocks, the timer and the serial lines of
-- an SoC, and the tool that prepares an executable.
--
-- How the parts interact: at the start (sys/init.c) the drivers and devices are added to the tree of
-- driver/device.c, which is probed until no device asks for another round, and the arguments of the host
-- are laid out for the program. A system call (sys/syscall.c) works on the heap of sys/memory.c and the memory's
-- bytes (sys/sys/string.c), or on the file descriptors of sys/file.c. The heap, each descriptor, each CPU
-- and the thread table have a spin lock of sys/lock.c. k_thread_clone (sys/thread.c) finds an idle CPU
-- (sys/smp.c), makes a thread for it and raises an interrupt there, where k_thread_context_switch goes from
-- the idle thread to the new one. The clock reads a timer driver and keeps an offset for the time of day.
-- An interrupt enters at arch/riscv/intr.c, whose table leads to the controller of the core
-- (driver/intc/riscv/rv_priv.c), and from there to the CLINT or the PLIC and the handlers of the devices.
-- Drivers are told of events through the lists of handlers of sys/event.c. A thread that waits on a futex
-- keeps the address in its CPU, where another one finds it (driver/cpu/cpu.c). An exit of the leader puts the
-- other CPUs to sleep. tool/add_auxdata.c writes the program headers to the executable, for sys/init.c.
--
-- Which file models what:
--   Common: the shared names, lists read and written as C arrays, a first-match search, the integers,
--     counted loops (Loops), bit fields (Bits), the bits of a word under masks (Masks) and linked lists with the operations on them (Chain).
--   Start: sys/init.c, with the record of include/bmetal/comm.h; Args and Layout, Program and Room are on
--     init_args, Rounds is on init_drivers.
--   Device: driver/device.c and include/bmetal/device.h. Probe is on k_device_probe_all and what it calls,
--     Add on the operations that add and remove, Find on k_bus_find_device, Config on the configuration.
--   Driver/Prci: driver/clk/sifive/prci.c. Registers has what reads and writes them; Nearest and Chosen are
--     on the search for the dividers, Word is on the registers.
--   Driver/ClintTimer: driver/timer/sifive/clint_timer.c and k_timer_add_device of driver/timer/timer.c; Count
--     is on the counter, Trigger on the compare registers.
--   Driver/Uart: driver/uart/uart.c. Uart/Services is what the drivers of the UARTs call, with the steps that
--     they share; Uart/Ns16550 is driver/uart/ns/16550.c, with Access, Baud and Console on it, and Uart/Sifive
--     is driver/uart/sifive/uart0.c, with Transfer on it.
--   Intc: driver/intc/intc.c. Intc/RvPriv is driver/intc/riscv/rv_priv.c, Intc/Plic and Intc/Clint are plic.c
--     and clint.c of driver/intc/sifive; Intc/Connect has the add functions of those two, and
--     RvPriv/Add that of the core's; RvPriv/Masks, RvPriv/Add/Woken and Plic/Enabled are on them. Intc/System puts their
--     handlers behind the entry of arch/riscv/intr.c, with the registers of the PLIC and those of the CLINT
--     apart; Entry, Ipi and External are on that.
--   Tool: tool/add_auxdata.c. Tool/Elf has the headers of the executable, Tool/AuxData what is written, and
--     AuxData/Embedded is on that.
--   Memory: sys/memory.c and include/bmetal/memory.h. `MemNode` is struct k_mem_node, `Mem` the static
--     variables; Memory/Heap/Defs has the locked calls, k_mem_init and the brk area; Find, Flags, Alloc,
--     Release and Heap/Init are on them.
--   Syscall/Vm: k_sys_brk, k_sys_mmap, k_sys_munmap, k_sys_madvise and k_sys_mprotect of sys/syscall.c over
--     the heap and the bytes; Brk and Map are on them. Syscall/File: k_sys_close, k_sys_ioctl, k_sys_read,
--     k_sys_write and k_sys_writev over File, which is sys/file.c; File/Locked is on the descriptor's lock.
--     Syscall/Time: the calls of sys/syscall.c on time over Clock; Time/Day is on them. Syscall/Process: its
--     calls on threads, clones and futexes over Kernel; Process/Exit is k_sys_exit, with k_fini_leader of
--     sys/init.c, and Exit/Ended and Exit/Child are on it. Syscall/Machine: k_sys_getrandom,
--     k_sys_openat, k_sys_poll and k_sys_reboot, with the two ends of the system of sys/fini.c.
--   CString: sys/sys/string.c; Fill, Copy and Compare are on it.
--   Lock: sys/lock.c, for a CPU alone; Lock/Sequential is on that, and Lock/Race has the accesses of several
--     CPUs as steps.
--   Event: sys/event.c; Pool, Chain and Dispatch are on it.
--   Clock: sys/clock.c and the macros of include/bmetal/sys/time.h; Raw and Realtime are on it.
--   Arch: the saved registers of arch/riscv/cpu.c; Arch/Intr is arch/riscv/intr.c.
--   Kernel: the state that threads and CPUs share. Kernel/Cpu is driver/cpu/cpu.c and sys/smp.c,
--     Kernel/Futex is the futex wake and Kernel/Futex/Wait the futex wait of driver/cpu/cpu.c, Kernel/Power
--     its wakeup and sleep of CPUs, Kernel/Handlers the handlers of their events, and Kernel/Thread, Kernel/Clone and
--     Kernel/Switch are sys/thread.c; Lens, Thread/Table, Clone/Start, Clone/Refused, Switch/Back,
--     Futex/Woken, Futex/Locked, Futex/Step, Futex/Wake, Futex/Wait/Ends, Power/Running, Power/All and Handlers/Reached are on them.
--   Tests: the theorems at concrete inputs.
--
-- An operation on a structure takes it and gives the new one; an error is a negative integer as in C;
-- `none` is an access out of bounds, a division by 0, a NULL that is followed, or a loop that does not end.
-- Sizes and page counters are 64 bits wide and wrap; addresses are numbers. A pointer to an entry of a table
-- is its index plus 1, and NULL is 0.
--
-- Fuel: the loop of k_mem_node_alloc_pages_nolock has page_total + 1 rounds, and each round moves on by a
-- page at least. The word loops of k_memset and k_memcpy have one round for each byte. The lock's loop has
-- one round: for a CPU alone a taken lock stays taken. A walk along a list of handlers has the fuel its
-- caller gives, and the theorems ask for more than the list's length; so do the walks along the drivers, the
-- devices and the buses. The fuel of a probe is more than the height of the tree. The wait for a PLL to
-- lock reads the register as often as its fuel says. The futex wait has a list of what happens during
-- each wait for an interrupt, and does not end with a list that is too short. Two rounds are enough for the
-- loop that reads the counter of a timer by its halves, as long as it does not advance by 2^32 in them. The
-- loops that wait for a UART read its status as often as their fuel says.
--
-- Parameters: what a driver does (the functions of a file, of a handler, of the timer, the add functions of
-- drivers and buses, the interrupt, wakeup and sleep of another CPU), what a device register reads and
-- holds, the instruction csrc mip, what other CPUs do during a wait, the structs of elf.h, calloc, strcmp and memcpy of the host, and the context that is copied for a new thread.
--
-- Not modelled: output (sys/printk.c, sys/vsprintf.c), the first threads, assembly and
-- linker scripts, the drivers below driver/ but for the CPUs, the PRCI, the interrupt controllers, the timer and
-- two UARTs, and of the timer the add function, the bindings to a C library and the
-- boards, which are input and output or tables; and the system call exit_group and
-- those that only return a constant. Memory barriers have no effect here, as one access follows the other; signed overflow, which C
-- leaves undefined, is not modelled.
pub mod Common
pub mod CString
pub mod Lock
pub mod Memory
pub mod Start
pub mod Syscall
pub mod Event
pub mod Clock
pub mod Arch
pub mod Intc
pub mod Kernel
pub mod File
pub mod Device
pub mod Driver
pub mod Tool
pub mod Tests
