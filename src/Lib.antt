-- ===== src/Lib.antt =====
-- Verification of the Unics kernel: its file system, memory managers, drivers, kernel primitives and
-- C library.
--
-- Parts of the program, and where they are modelled:
--
--   * Fs: usr/drivers/fs.c with usr/include/sys/fs.h. `root_fs` and `current_dir` are the record
--     `FileSystem`; a slot is an index, and the table is a function of it. A C function `fs_f` is the
--     function `f` here (`open_file` for `fs_open`), from a state to a status and a state. `malloc`,
--     `realloc` and `time` are the record `Machine`, which each call gets anew. A read or write
--     outside the block of a file has no result (`none`).
--   * Pmm: usr/drivers/pmm.c with usr/include/pmm.h, the physical page allocator: bitmaps of 64-bit
--     words, regions, and the list of regions.
--   * Paging: usr/drivers/paging.c on a memory of words. The allocator of pages is the interface
--     `Pages`, which Pmm fills.
--   * Vmm: usr/drivers/vmm.c with usr/include/vmm.h, the page table of the virtual memory manager. A
--     failed `assert` gives `none`.
--   * Str: lib/libc/string.c on a memory of bytes. Ctype: lib/libc/ctype.c. Stdlib: `bsearch` and
--     `qsort` of lib/libc/stdlib.c, with the caller's comparison as a parameter, and its conversions
--     between numbers and strings.
--   * Kern: kern/refcnt.c, kern/srp.c, kern/pclock.c, kern/intrmap.c and kern/vis.c. For the lock,
--     one step is one access of `pcl_gen` by one producer, and an interleaving is a list of threads.
--   * Vga: usr/drivers/vga.c with usr/include/vga.h, the text screen. A buffer is a function of an
--     index, the address of a buffer is a number, and calls of `outb` are a log.
--   * Keyboard: dev/keyboard/keyboard.c. What `inb` gives is a sequence of bytes that the driver reads
--     one after the other; the loops that wait for the hardware run on fuel.
--   * Process: usr/sbin/process/process.c, the table of processes.
--   * Stdio: lib/libc/stdio.c. `vprintf`, `vsprintf` and `vsnprintf` give the list of the bytes that they
--     print or store.
--     The line buffer of `getchar` stands on the screen of Vga, and on any keyboard.
--   * Time: lib/libc/time.c, the calendar and the clocks; it prints with Stdio.
--   * Fnmatch: lib/libc/fnmatch.c. A pointer into a string is the list of the bytes from there on.
--   * Crypto: usr/drivers/crypto/arc4.c, the stream cipher.
--   * Base: Boolean tests, byte lists, arrays as functions, bits of words, integers.
--
-- The parts that call each other: Paging takes pages from Pmm, Stdio and Time print with the conversions
-- of Stdlib and on the screen of Vga. The file system takes blocks from `malloc`, not from the page
-- allocators, `Kern.Srp` uses `Kern.Refcnt`, and `Kern.Vis` uses `Ctype`.
--
-- Numbers: machine integers are natural numbers with their wrap-around written out. `size_t`,
-- `uintptr_t` and `unsigned int` have 32 bits, bitmap words 64.
--
-- Fuel: the search of `vmm_alloc_internal` runs for MAX_PAGES + 1 rounds, since its index grows
-- in each; loops over strings take a fuel that has to exceed the length, as a string may have no
-- terminator; `bsearch` takes num + 1 rounds, since each one shortens the range, and `qsort` a
-- depth of num; `itoa` takes 32 rounds, one for each bit; `getchar` needs one round for each key,
-- `kb_getchar` one for each code and each poll that finds the port not ready, and `vprintf` and
-- `fnmatch` one for each character of the format or the pattern at most; the loop of `vmm_stats`
-- advances in each of its MAX_PAGES rounds. All other loops recur on their bound.
--
-- Not modelled: the dump functions, which only print, the graphics driver, assembly and boot
-- code, the commands of bin/, the shell, login and init, and so far the scanning functions of
-- lib/libc/stdio.c, lib/db/db.c and the rest of lib/libc/stdlib.c.
pub mod Base
pub mod Fs
pub mod Pmm
pub mod Vmm
pub mod Str
pub mod Ctype
pub mod Kern
pub mod Stdlib
pub mod Crypto
pub mod Vga
pub mod Keyboard
pub mod Process
pub mod Stdio
pub mod Time
pub mod Paging
pub mod Fnmatch
