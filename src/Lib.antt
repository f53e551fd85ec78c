-- ===== src/Lib.antt =====
-- The core of the WhiteX kernel (i386/whitex), a kernel for the i386 in one translation unit:
-- Kernel.c includes the headers, starts the devices and runs a shell.
--
-- Parts and files:
-- - i386/whitex/oomk.h, the page allocator with its out-of-memory killer: Oom. `SysOomCtrl` is
--   `g_sys_ctrl` with the device registers and the tasks in memory; an operation is a `Call`, from
--   a state to an `Outcome`: it returns, halts in `sys_oom_panic`, spins on a held lock, or traps
--   on a division by zero. Oom/Bounds has the scores and the reclaim, Oom/Victim the killer's
--   choice, Oom/Alloc the allocation under the watermarks, Oom/Address the addresses it returns.
-- - i386/whitex/multitasking.h, the scheduler: Scheduler, with `SchedulerState` for
--   `g_system_scheduler` and the processor's stack pointer. Scheduler/Select has the choice of the
--   next process, Scheduler/Process termination and waiting, Scheduler/Signals the signals,
--   Scheduler/Channel the messages, with Scheduler/Queue for the order in them, Scheduler/Register the
--   creation of processes, which calls the allocator of Oom, with Scheduler/Created for what it leaves,
--   and Scheduler/Number the printing of numbers.
-- - i386/whitex/sys_tools.h: its mutex is in Scheduler/Mutex, which yields through Scheduler,
--   its reader of numbers in Scheduler/Number, its command kill in Scheduler/Commands and the commands
--   on messages, with top, in Scheduler/Messages, which Scheduler/Delivery follows to the receiver.
-- - i386/whitex/tasks.h: Scheduler/Lifecycle, the start of the kernel's own processes on Register.
-- - i386/whitex/Kernel.c: Kernel/Strings, Kernel/Log for the log ring, Kernel/Shell for the
--   environment, the privileges and the parser, Kernel/Dispatch for the table of commands,
--   Kernel/Print for numbers and fortunes, and Kernel/Memory for copies, with i386/whitex/strcmp.h.
--   The handlers there stand behind their integrity check and without their writes to the log;
--   Kernel/System puts them together on the whole state, `KernelState`, with checks, log, halts, the
--   start, the main loop and the system calls of i386/whitex/syscall.h. A routine of the table, or of the
--   start, that is elsewhere returns with the environment and the log as they were, or control is `left` to
--   it for good: it halts, spins, traps or runs over an array. Which of the two is an input. Kernel/Sound and
--   Kernel/Rounds are on the integrity of that state, Kernel/Guarded on the way to root.
-- - i386/whitex/internet.h, the network stack: Net has the state and the pool of buffers,
--   Net/Checksum, Net/Arp, Net/Send, Net/Receive and Net/Sockets the protocols as the code calls them,
--   from `wx_e1000_poll` down to `wx_e1000_tx_raw`. Net/Pool, Net/Leak and Net/Frames follow a buffer
--   from its allocation to its release, Net/Header is on the headers sent, Net/Found and Net/Tcp on the
--   sockets.
-- - i386/whitex/paging.h: Paging has the frames and their bitmap, Paging/Tables the page tables and
--   directories; Paging/Frames, Paging/Contiguous and Paging/Alloc are on the frames, Paging/Mapping
--   on the translation, Paging/Regions on the loops over pages.
-- - i386/whitex/vga.h: Console has the screen and Console/Screen its cursor and cells.
-- - i386/whitex/keyboard.h: Console/Keyboard, from scancodes to lines, echoed on the screen; Console/Lines
--   is on the buffer of a line.
-- - i386/whitex/nano.h, the editor: Nano; Nano/Text sees its lines as one text, Nano/Typing follows what
--   is typed.
-- - i386/whitex/fs.h, the directories in memory: Fs; Fs/Tree is on their tree, Fs/Ways on the ways in it.
--   The files of i386/whitex/fssdd.h and i386/whitex/sdd.h with the loops of their two shells are in
--   Fs/Files; Fs/Rooted and Fs/Shells are on the current directory.
-- - i386/whitex/sdd.h, the disk: Disk has the sectors, the device and the copy of the tree to the disk as
--   events on the ports; Disk/Drive reads those events as a drive does, Disk/Copies sees them as copies.
-- - i386/whitex/fault.h: Fault, with the page tables as words of memory; Fault/Locked walks them as
--   the processor does for the user and for the kernel, with CR0.WP set or clear.
-- - i386/whitex/malloc.h, the heap: Heap, over the bytes of `memory_heap`; Heap/Blocks is on its blocks.
-- - i386/whitex/vm.h and i386/whitex/esysc.h, with `sys_vm_init` of i386/whitex/Kernel.c: Vm, a machine on
--   the heap and on the kernel of Kernel/System, whose system calls it makes. Vm/Code has its instructions,
--   Vm/Runs the kernel under any program, Vm/Straight programs without jumps.
-- - i386/whitex/gdt.h and i386/whitex/idt.h: Descriptors, and Descriptors/Layout for how the processor reads
--   the entries.
-- - i386/whitex/clk.h and i386/whitex/clock.h: Clock, and Clock/Day for the time of day.
-- - i386/whitex/notepad.h: Notepad, on the tree of Fs; Notepad/Buffer is on the lines that it keeps.
-- - i386/whitex/ping.h: Net/Ping, on the network stack. The numbers of it, of i386/whitex/hexdump.h, of
--   i386/whitex/melodi.h and of i386/whitex/echo.h are in Devices; Devices/Printed reads them.
-- - i386/whitex/login.h: Login, on Console/Keyboard; Login/Password is on its line, Login/Opened on who is
--   let in.
-- - i386/whitex/calc.h, the calculator: Calc; Calc/Bounds is on its stacks, Calc/Meaning has what its numbers
--   and operators mean, Calc/Printed what it prints, Calc/Terms is on whole terms.
-- - i386/whitex/errnu.h: the error codes, in Scheduler.
--
-- Conventions. A `uint32_t`, `size_t` or pointer is a native number that wraps at 2 ^ 32
-- (Prelude/Words); an `int` is an integer of Prelude/Int, in Calc its 32 bits, and in
-- Fs an index. An array is a function from indices, and
-- a string is the list of its bytes up to the NUL. A table search runs over the number of active
-- entries, which is the loop's own bound; the digits of a 32-bit number are counted on fuel 10,
-- which is enough because 10 ^ 10 is above 2 ^ 32. `retry_allocation` counts the retries left,
-- three at first as in the code. A wait that yields takes the list of what the other processes do
-- meanwhile. A loop over pages has 2 ^ 20 rounds, the pages of 4 GiB, and more of them change
-- nothing. The folding of a checksum has fuel 3, which a theorem shows to be enough, and the loop of
-- `wx_e1000_poll` and the main loop take as many rounds as they are given frames or lines. A header
-- in a packet is the list of its bytes. A page table and a directory are kept by their addresses, and objects at different
-- addresses are taken not to overlap. Signal handlers are parameters.
-- The walk over the heap has 8193 rounds: a block takes 8 bytes or more of the 65536. A run of the virtual
-- machine has a number of rounds, and one that needs more is left going. The wait for the disk has the
-- 1000001 reads of its timeout; the waits of the fault handler have a number of reads, and `none` when they
-- do not suffice. What the status port of the disk gives is a parameter.
--
-- An array on the stack into which a line is read, and a packet buffer into which a message is copied, have
-- their sizes: a state is marked `overrun`, or an outcome says so, when what goes in is longer, and what the
-- program does from there on is not described. The state of a virtual machine is kept outside of the heap, and
-- one that would not lie in the heap is `astray`.
--
-- Not modelled: the output of characters, port access and assembly, which have no state here; the
-- initialization and the clones of i386/whitex/paging.h, where tables do overlap; and the parts of i386/whitex that no file above names.
pub mod Calc
pub mod Clock
pub mod Console
pub mod Descriptors
pub mod Devices
pub mod Disk
pub mod Fault
pub mod Fs
pub mod Heap
pub mod Kernel
pub mod Login
pub mod Nano
pub mod Net
pub mod Notepad
pub mod Oom
pub mod Paging
pub mod Prelude
pub mod Scheduler
pub mod Vm
