-- ===== src/Lib.antt =====
-- A model of the core of the kernel in src/: memory, threads, interrupts and text.
--
-- The program is a kernel for x86_64. At boot it hands out memory from sets of ranges
-- (src/src/balloc.c) that are kept in red-black trees (src/src/rbtree.c). Its page allocator
-- (src/src/memory.c, src/inc/memory.h) hands out blocks of 2^k pages from zones, by the buddy
-- method; its slab allocator (src/src/alloc.c) cuts such blocks into objects; both keep their
-- queues in the circular lists of src/src/list.c. Threads (src/src/thread.c) stand in one such
-- list, and the timer's interrupt (src/src/time.c, src/src/ints.c, src/src/i8259a.c) switches from
-- one to the next. Spinlocks (src/src/spinlock.c) guard the allocators and the list of threads. The
-- text routines (src/src/ctype.c, src/src/string.c, src/src/stdlib.c) serve the formatted printing
-- of src/src/print.c.
--
-- - IntrusiveList: src/src/list.c on a store of `next` and `prev` pointers. A ring through a head
--   and distinct entries is what the pointers stand for; each operation acts on rings.
-- - PageAlloc: the zones of src/src/memory.c. A page is named by its index, and a free list is the
--   list of its pages (IntrusiveList has the pointers). The invariant counts how often the free
--   lists, the blocks at work and the blocks that callers hold cover each page. `__page_alloc` is
--   `page_alloc_page`. The loops run on fuel: the search for an order has one round for each list
--   from the order on, the merge one for each order that is left, and the loop that frees a range
--   one for each page and one more.
-- - SlabAlloc: src/src/alloc.c, the layout of a pool, its bitmap, and its objects. `ilog2` has 64
--   rounds, enough for 64 bits. A size or an alignment of 0, by which the code divides, is not
--   accounted for. `mem_pool_bitmap_setup` and `mem_cache_layout_setup` are `bitmap_setup` and
--   `layout_setup`. SlabAlloc.Caches has the caches above the pools, with the page allocator at the
--   border, and the choice of a cache or an order by size.
-- - Text: the table of src/src/ctype.c, the loops of src/src/string.c on a memory of bytes, and the
--   conversions of src/src/stdlib.c; a signed number is its word of two's complement. Each loop of
--   `strtoul` has the rounds that its caller gives; one more than the text has characters is enough.
--   The first loop of `ulltoa` gets a round more than its value, the second as many as the pointer
--   behind the digits says; both are enough. Bases are from 2 to 36: for a greater one the code
--   reads past its table of digits.
-- - Threads: the ring of threads of src/src/thread.c, its head running, and the switch. The steps of
--   the system are a relation, with reachability from `thread_setup` on: `lock` and `unlock` of
--   `threads_lock` are steps of their own, and the timer may switch between any two. The flag of the
--   processor that disables interrupts is not modelled, and the change of the list is one step.
-- - Spinlock: src/src/spinlock.c, any number of processors, one atomic operation to a step, any
--   sequence of steps.
-- - Interrupts: the controller of src/src/i8259a.c as the list of the writes to its ports, and the
--   dispatch of src/src/ints.c to the handlers that are registered. Interrupts.Gates has the gates.
--   Interrupts.Timer is src/src/time.c.
-- - Backtrace: the walk along the frames of src/src/backtrace.c. Its fuel is a parameter; a round
--   for each address from the first frame to 2^64 is enough.
-- - RbTree: the tree of src/src/rbtree.c, with the colors and the shape, and a place in it for a
--   pointer. RbTree.Order has the entries in order, RbTree.Balance the colors and black heights. The
--   loop of `rb_insert` is structural; the one of `rb_erase_fix` has two rounds more than its place
--   is deep, which is enough. RbTree.Walk has the walks to the neighbours, RbTree.Search the
--   descents of balloc.c.
-- - Balloc: the boot allocator of src/src/balloc.c on the lists that its trees stand for. The loop
--   over ranges in `__balloc_remove_range` has a round for each range and one more, the loops over
--   the memory map in Balloc.Setup have one for each byte of it and one more; both are enough. The
--   memory map is what the bootloader left, a parameter that gives an entry at each address.
--   `__balloc_alloc` is `balloc_alloc_aligned`; the parts of an address that it tries are at
--   Balloc.Place; its mask is the one of the code, bit by bit, and rounds up where the alignment is
--   a power of two. What the code relies on in the memory map is the record `IsBootable`.
-- - Print: src/src/print.c. A format is the list of its characters, and the arguments are words of
--   64 bits; the characters of a string argument lie outside of the buffer that is written, and
--   counts are below 2^31. The size of a buffer is cut to an `int`, as in the code. The loop of
--   `__vprintf` has a round for each character of the format and one more, which is enough.
--   Print.Format has what a directive means, Print.Meaning what a format prints, Print.Numbers the
--   numbers, Print.Output where the characters go.
-- - PageTables: the four levels of tables of src/src/paging.c, as entries of 64 bits by the address
--   of the table, and what the processor translates by them. Each table has a label, its level and
--   its place; the labels are no part of the program. `__pt_map_pages` is `map_level`, a function by
--   recursion on the level, and its loop has as many rounds as there are entries from the first to
--   the last one. What a pool of pages promises is the record `Supply`.
-- - Kmap: the ranges of virtual pages of src/src/paging.c, an array of marks and lists by order. The
--   loop of `kmap_order` has a round for each order, the search one for each that is left.
--   Kmap.Lists counts what the lists hold against the tiles, Kmap.Refile does so after a range was
--   freed, Kmap.Search has where the search looks. PageTables.Clear has the loop of `kunmap` over
--   the entries, Kmap.Mapping is `kmap` and `kunmap`, on the ranges and the tables.
-- - Prelude: shared names, tests on numbers, lists, bits of words, and code that may stop in a
--   `BUG`.
--
-- A `BUG` is a value, `bug`: it never returns. Numbers are natural, with the wrap of `size_t`
-- written out where the code can reach it. Not modelled: the boot code and the processor's
-- registers (src/src in assembler), `kmap_setup` and the count of pages in src/src/paging.c, the
-- dump of src/src/balloc.c, `mem_alloc`, `mem_free` and `mem_realloc` above the caches of
-- src/src/alloc.c, and the serial port (src/src/serial.c).
pub mod Prelude
pub mod IntrusiveList
pub mod PageAlloc
pub mod SlabAlloc
pub mod Text
pub mod Threads
pub mod Spinlock
pub mod Interrupts
pub mod Backtrace
pub mod Balloc
pub mod Kmap
pub mod PageTables
pub mod Print
pub mod RbTree
