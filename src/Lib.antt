-- ===== src/Lib.antt =====
-- PLUM_OS, a small operating system kernel for x86-64 with a C library and a shell.
--
-- Parts and files:
-- Frames: the physical page allocator of sys/mm.c. `Frames` holds page_array[].ref and the bitmap;
--   Frames/Alloc has its theorems.
-- Kernel: the shared state of the kernel: the task structures of include/sys/proc.h at their
--   addresses, the four list heads of sys/process.c, current, and the page counts. `M` is the monad
--   of kernel code: it returns (`ok`), faults on a NULL pointer, hangs (a failed assert or a panic,
--   which both loop for ever), or runs out of fuel. Kernel/Ends says that a run returns.
-- TaskList: add_to_tasklist, remove_from_tasklist and find_process_by_pid of sys/process.c.
--   TaskList/Chain ties the links in the store to a list of addresses.
-- Sched: select_task_struct, schedule, switch_to, sleep and wakeup of sys/process.c and exit_st of
--   sys/syscall.c, which schedule calls for a task with a pending signal. Sched/Queues is the abstract
--   view: which task stands on which list, in order.
-- Process: kill_by_pid and waitpid of sys/syscall.c, free_process and thread_clear of
--   sys/process.c, and the time slice of sys/timer.c.
-- Vma: search_vma and insert_vma of sys/mm.c and brk of sys/syscall.c over one mm_struct, whose areas
--   are linked like the task lists; get_zero_page takes its page from Frames.
-- Paging: the page tables: get_zero_page, copy_page, alloc_pgd and map_a_page of sys/mm.c and the macros of
--   include/sys/pgtable.h, on memory as bytes. Paging/Faults is page_fault_handler of sys/mmap.c, where what the
--   processor makes of an address is a parameter; Paging/Fork is copy_vma_deep, copy_vma and copy_mm of
--   sys/syscall.c. Paging/Tree is the abstract view: the tables of several address spaces as trees, no
--   table in two places (`IsForest`), and the entry that maps each page (`page_entry`).
-- Strings: sys/string.c, and strcpy and strchr of libc/string.c. A pointer is the list of the bytes up to
--   the end of its array.
-- Format: the number printers and vsprintf of sys/printf.c; Format/Pieces describes a format as a list.
-- Console: print_to_screen, scoll_screen_up and clear_screen of sys/printf.c.
-- Clock: the counters of interrupt_handler_timer in sys/timer.c and their display on the console.
-- Input: read_stdin, copy_from_kernel and read on an open file, of sys/syscall.c. map_a_page is there what a process sees of
--   it: a page that was not mapped gets its bytes, or memory is full; Input/Arrived says when the copy does not panic.
-- Keyboard: kbdintr of sys/kbd.c and the key tables of include/sys/kbd.h; a write outside of the
--   buffer's page is a fault there, as one through NULL. Keyboard/Typing says what typing is meant to do.
-- Archive: traverse_tarfs, tarfs_open, tarfs_read, tarfs_close and get_filesz of sys/tarfs.c, and open, close, chdir
--   and belongs_to_dir of sys/syscall.c; traverse_tarfs may take the last as its test. The headers by address are a parameter; Archive/Match
--   is the abstract view: the archive as a list of files.
-- Malloc: malloc and free of libc/malloc.c, sbrk and brk of libc/sbrk.c and libc/brk.c, on memory as 32-bit
--   words by address. What the kernel answers to SYS_brk is a parameter (`sys_brk`). Malloc/Blocks ties the words
--   to a list of blocks, Malloc/Held is the abstract view: how many bytes the program holds at each offset.
-- Shell: get_var and set_var of libc/shlib.c; Shell/Lookup is the list of variables as texts.
-- Command: parse_cmds of libc/shlib.c.
-- Examples: runs at concrete inputs.
--
-- The parts share the state `Kernel`: the keyboard wakes readers through wakeup and kills through kill_by_pid; the timer calls schedule; schedule calls exit_st; exit_st calls
-- wakeup and schedule; free_process gives pages back to the allocator of Frames.
--
-- Fuel: malloc and find_fit take a bound on the blocks of the heap, parse_cmds on the rounds of its loop, of which 9 are
-- enough, traverse_tarfs on the rounds of its loop, one for each file
-- of the archive and one more. In the kernel, `n` bounds one walk along a list, one unit for each node that it may visit; a walk along a
-- list shorter than n never runs out. `f` bounds the loop of schedule, which goes round once for each
-- task with a pending signal. The search of get_free_page has the fixed bound of its loop.
--
-- Not modelled: what kernel code prints on its way, the register and page-table switch inside switch_to (a run ends there with
-- `away`), interrupts in the middle of kernel code (it runs with them off), the page tables set up at boot,
-- the TLB, map_vma, free_vma and unmap_mm (which nothing calls), getcwd and getdents of sys/syscall.c, process creation but for its copy of the address space, the C library's system call wrappers,
-- and the shell's prompt, paths and execution of commands. In the heap of the C library nothing but malloc moves the break, and
-- malloc of more than 2 ^ 64 - 16 bytes, whose size wraps around, is modelled but not treated.
pub mod Prelude
pub mod Frames
pub mod Kernel
pub mod TaskList
pub mod Sched
pub mod Process
pub mod Vma
pub mod Paging
pub mod Strings
pub mod Format
pub mod Console
pub mod Clock
pub mod Input
pub mod Keyboard
pub mod Archive
pub mod Malloc
pub mod Shell
pub mod Command
pub mod Examples
