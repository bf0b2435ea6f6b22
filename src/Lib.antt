-- ===== src/Lib.antt =====
-- CookiesOS, a small 32-bit kernel: memory, file systems, drivers, system calls, programs and the shell.
--
-- The parts and how they interact. kernel_main (src/kernel/kernel.c) starts the frame allocator
-- (src/kernel/frame.c) over the memory map, turns on paging (src/kernel/paging.c), which takes its
-- tables from the frames, and uses the heap (src/kernel/kheap.c) for everything that is allocated
-- later. The drivers (src/drivers/ata.c, src/drivers/keyboard.c, src/kernel/framebuffer.c) enter their
-- nodes in the table of devices (src/kernel/device.c). fopen (src/fs/vfs.c) finds the mount point
-- that is the nearest to a path, whose search copies the path to the heap and shortens it, and asks the
-- file system there: src/fs/fat.c reads the disk through the node of the drive, src/fs/devfs.c lists the
-- devices. Programs reach these by the system calls (src/kernel/systemcalls.h), are loaded by
-- src/utils/elf.c, and the shell reads lines from the keyboard and runs the built-in ones. All messages
-- go through the text screen, which panic and yell (src/kernel/panic.c) and the exceptions
-- (src/kernel/trap.c) print to. Handlers are entered in the descriptor table (src/arch/x86/idt.c) and
-- acknowledge their interrupts at the interrupt controller (src/arch/x86/pic.c). All use the string
-- functions (src/libs/libc/string.c).
--
-- Which file models which part:
--   Base      names from the libraries, Boolean tests on the native numbers, memory as a function
--             from addresses (`write` is `*p = v`), words with written-out wrap-around, bits,
--             masks.
--   Libc      src/libs/libc/string.c. Each C function is a function of the same name over the
--             memory and the addresses; a loop is a function `..._loop` on the rounds that remain
--             and the index. Libc/Copy: memcpy, memmove, memset. Libc/Compare: memcmp, strcmp.
--             Libc/Strings: strlen. Libc/Trim: strdeltoc.
--   Frame     src/kernel/frame.c and frame.h. `Frames` holds the three static variables;
--             frame_set, frame_clear, frame_test, frame_frist_free, frame_alloc_ex, frame_free_ex,
--             frame_init carry the names of the source. Frame/Bitmap: single bits. Frame/Search:
--             the search. Frame/Alloc: allocation and release. Frame/Count: the counter over all
--             states.
--   Kheap     src/kernel/kheap.c and kheap.h. `Kheap` holds curr_addr, frist_hh, last_hh and the
--             headers in memory; malloc, free, realloc and the helpers without their leading
--             underscore. Kheap/Blocks: the list of blocks a heap stands for, and the invariant.
--             Kheap/Split, Find, Join, Merge, Malloc, Free: that each operation does on the
--             headers what a function on that list does. Kheap/Safe, Merged, Realloc, Borrow,
--             Reach: what callers rely on. Kheap/Headers: what is printed of the heap.
--   Paging    src/kernel/paging.c and paging.h. `Paging` holds the frames, the words in memory,
--             the two directory pointers and what src/arch/x86/memory.asm sets in the processor.
--             Paging/Entry: the macros. Paging/Map: what the processor translates, and paging_map.
--             Paging/Absent: paging_map without a table. Paging/Fill, Init: the first directory.
--   Vfs       src/fs/vfs.c and vfs.h: nodes, the calls through them, find_relative_mount.
--             Vfs/Mount, Shorten: the loops of the search. Vfs/Search: the whole, with the heap's
--             answers.
--   Fat       src/fs/fat.c and fat.h: the first sector, the search of a directory sector, and
--             reading a file. Fat/Handles: handles, directories and mounting. Fat/Boot, Whole: a
--             whole read. Fat/Cluster: one cluster. Fat/Chain: the chain of clusters. Fat/Paths:
--             strtok and the base name of a path. Fat/Tokens: what strtok cuts.
--   Terminal  src/kernel/framebuffer.c, framebuffer.h, and yell of src/kernel/panic.c. `Term`
--             holds the cursor, the colour, the cells and the bytes sent to port 0xE9.
--             Terminal/Cells: clearing and scrolling. Terminal/Screen: one character.
--             Terminal/Text: texts. Terminal/Hex, Printf, Yell: formatted output.
--   Keyboard  src/drivers/keyboard.c: the scancode table, the interrupt handler, the readers.
--   Pic, Idt  src/arch/x86/pic.c and idt.c. A write to a port is a value in a list
--             (src/arch/x86/io.c), a read is a parameter.
--   Ata       src/drivers/ata.c: the bytes of a sector and of a command. Ata/Reading: reading
--             sectors. Ata/Sector: the bytes of one. Ata/Command: what a drive reads from a
--             command. Ata/Disk: the disk as one array of bytes. Ata/Identify: finding the drive.
--             Ata/Identify/Waits, Quiet, Verdict: the loops that wait, and what the identification
--             answers.
--   Shell     src/kernel/kernel.c: the table of programs, the line editor and the commands of
--             mini_shell. `shell_step` is the body of its loop for one byte. Shell/Line: what is
--             typed. Shell/Command: which program runs.
--   Machine   the state that the parts below share, and the steps they are written in: memory,
--             heap, nodes by their addresses, devices, mount points, screen, pages, keyboard.
--   Device    src/kernel/device.c, and the drivers' entries: term_init_device of framebuffer.c,
--             kb_init of keyboard.c and the end of ata_init of ata.c. Device/Table: devices_add.
--   Devfs     src/fs/devfs.c. Devfs/Search: devfs_find_dir. Devfs/Listing: devfs_read_dir.
--   Files     src/fs/vfs.c: the calls of a node's functions, fopen, fclose, vmount_device.
--             Files/Open: the steps of fopen. Files/Found: what it opens.
--   Syscalls  src/kernel/systemcalls.h and systemcalls.asm. Syscalls/Heap: memory by system calls.
--             Syscalls/Dispatch: which handler runs.
--   Elf       src/utils/elf.c and elf.h. Elf/Probe: which input is loaded.
--             Elf/Load: how.
--   Panic     src/kernel/panic.c and src/kernel/trap.c: panic and the exceptions. Panic/Shown: the
--             screen.
--   Programs  the programs of the shell in src/kernel/kernel.c. Programs/Malloctest, Help: two of
--             them.
--   Start     kernel_main of src/kernel/kernel.c: memory, gates, interrupt controller and devices,
--             in its order. Start/Handlers, Run: the gates.
--   Tests     runs at small inputs, and the theorems at inputs that meet their conditions.
--
-- Numbers are unbounded with `% 2 ^ 32` where the source computes on uint32_t and the result can
-- wrap. A function whose loop is bounded by data in memory (strlen, strcmp, strtok, the walks
-- over the header list, the search of mount points, the chain of clusters, the waits for the
-- drive) takes fuel and returns none when it runs out; the theorems give the fuel that is
-- enough: more than the length of the strings, 2 ^ 31 or the end of the heap for the header
-- list, more than the number of clusters, and the number of the first answer that is waited for.
-- The steps of Machine have none also for a halt and for a call of NULL or a read through it. The headers of the heap
-- are kept apart from the contents of the blocks, which is faithful as long as no block is
-- written outside its bounds; so are the words of the page tables, and the fields of the nodes
-- from the bytes of their names. Memory is one array by virtual addresses. A callback that ends
-- without a return gives the parameter `eax`.
--
-- Not modelled: the machine instructions, with the GDT of src/arch/x86/gdt.asm; syscalltest_prog, which
-- src/kernel/main.asm holds; and what the user programs do, which is a parameter where the code calls
-- them. A panic ends a run of the machine with none. src/utils/multiboot.h is a copy of a
-- specification's header.
pub mod Base
pub mod Libc
pub mod Frame
pub mod Kheap
pub mod Paging
pub mod Vfs
pub mod Fat
pub mod Terminal
pub mod Keyboard
pub mod Pic
pub mod Idt
pub mod Ata
pub mod Shell
pub mod Machine
pub mod Device
pub mod Devfs
pub mod Files
pub mod Syscalls
pub mod Elf
pub mod Panic
pub mod Programs
pub mod Start
pub mod Tests
