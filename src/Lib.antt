-- ===== src/Lib.antt =====
-- The garbage collector of precision-gc: a mark and sweep collector in C (gc.c, gc.h) over a copy of
-- dlmalloc (dlmalloc.c) and liballocs, which knows the type of every allocation.
--
-- The program. gc_malloc and gc_realloc hand out blocks of dlmalloc and thread them on a doubly linked
-- list, whose two links stand behind the user's bytes of each block. gc_collect scans registers, stack
-- and the segments .data and .bss for pointers to heap objects and puts them in a queue;
-- mark_reachable_heap_objects takes objects from the queue, scans each by its type for further
-- pointers, and marks it by the low bit of its previous pointer; sweep walks the list, frees the blocks
-- without mark and clears the marks of the others.
--
-- The files.
--   Heap      memory, the header macros of gc.h, marked, mark_block, unmark_block. Heap/Blocks says when
--             memory holds a heap list of given blocks (IsHeap), Heap/Unique that it holds one at most;
--             Heap/Flags and Heap/Marks are about marks in such a list.
--   Sweep     sweep. Its modules follow one round at an unmarked block (Drop) and at a marked one (Keep),
--             and put rounds together (Swept, Loop). Sweep/Free is what is asked of myfree.
--   Types     IS_PLAUSIBLE_POINTER, bigallocs_list, valid_heap_object and process_heap_object_recursive.
--             Types/Slots describes by induction where a type has pointer fields, which the code follows:
--             arrays inside structures have none. Types/Valid says what a pointer to a heap object is.
--   Trace     mark_reachable_heap_objects. Trace/Graph defines reachability, Trace/Inv the invariant of
--             the loop.
--   Collect   the four root scans and gc_collect.
--   Malloc    gc_malloc.
--   Realloc   gc_realloc.
--   Samples   small heaps and allocator states at which the theorems are applied.
--   Queue     the queue as the linked nodes that q_head and q_tail lead to; Queue/Refine relates it to the
--             list of objects that Trace and Collect use.
--   Startup   gc_init, on the text of /proc/self/stat.
--   Trigger   the lines of dlmalloc.c that decide when to collect and by how much the heap grows.
--   System    a program's calls, collections and stores as steps, and what holds after any number of them.
--   Report    print_heap, as the list of its lines.
--   Dlmalloc  dlmalloc.c: its state (struct malloc_state), and the fields and flags of chunks. Below it:
--               Bins       index arithmetic and the two bit maps; Sizes and Marks are about them.
--               Small      small bins and the designated victim. Small/Ring says when memory holds a bin
--                          of given chunks; Relink, Insert, Unlink and First are about the operations.
--               Tree, Take tree bins, and the search of tmalloc_large and tmalloc_small; Take/Next.
--               Segments   the records of segments, init_top and init_bins.
--               Stats      mallinfo, malloc_stats, get_heap_size; Stats/Tally and Stats/Agree.
--               Serve      dlmalloc from free memory; Serve/Top and Serve/Exact.
--               Grow       mmap_alloc, add_segment, prepend_alloc.
--               SysAlloc   sys_alloc; SysAlloc/First.
--               Release    release_unused_segments and sys_trim.
--               Free       dlfree, dispose_chunk; Free/Back and Free/Reuse.
--               Alloc      the whole of dlmalloc, dlcalloc; Alloc/First, Alloc/Due (a call that
--                          collects), Alloc/Nothing and Alloc/Overflow.
--               Resize     dlrealloc and dlrealloc_in_place.
--               Align      internal_memalign and the calls that use it.
--               Bulk       ialloc and internal_bulk_free.
--               Checks     the debugging checks of chunks and trees; Audit has those of the whole state.
--               Params     init_mparams, change_mparam, the footprint limit.
--               Api        calls that only pass on, with GC_num_collections and GC_heap_size of gc.c.
--
-- Correspondence. An address and a word are numbers below 2^64; memory is a function from addresses to
-- the word of 8 bytes that starts there, and a function reads and writes such words only. The
-- addresses of words are taken to be aligned, so that no two of them overlap; what is needed of blocks
-- being apart is written out as hypotheses. A Boolean map tells which blocks the allocator has handed
-- out; what myfree, mymalloc and myrealloc do to memory is a parameter. Globals are fields of Gc (for
-- allocation) and Collector (for a collection); num_collections counts modulo 2^32. The queue is a
-- list, from q_head on. A failed assertion and a crash are `abort`. liballocs is the record Liballocs
-- of functions; its answers do not change while a collection runs, as the program is stopped.
--
-- The allocator. Mstate is _gm_: the bins and the first segment record are used by their addresses and
-- so are words of memory from `gm` on, at the offsets of the struct on 64 bits; the other fields are
-- fields of the record. mmap, munmap and mremap are the record Os of functions on the state. A chunk's
-- index and a segment's flags, of 4 bytes, stand in a word of their own, and memset and memcpy go by
-- words. The build is the Makefile's: 64 bits, HAVE_MORECORE 0, assertions off; the checks of pointers
-- are on, and abort.
--
-- Loops and fuel. sweep, the traversal, the scans of ranges and the recursion into types run on fuel.
-- Enough is: a round for each block and one more for sweep and print_heap; one for each root and each
-- child and one more for the traversal; one for each word of a range and one more; more than the depth
-- of nesting for types, which liballocs keeps finite as a type cannot contain itself; in dlmalloc.c a
-- round for each step through a bin, a tree, the segments or the chunks of the segments, and for
-- statistics one for each chunk, one more for each segment and one more.
--
-- Not modelled. The words of .bss that gc.c itself changes during the scan (q_head, q_tail) hold
-- pointers of liballocs's private allocator, which are no valid heap objects. Debugging output, and
-- the alignment and size of the inserts of liballocs, are left out.
--
-- Of dlmalloc.c what the build does not compile is left out: MORECORE, locks, footers, mspaces and
-- internal_inspect_all. The theorems about gc.c hold for any allocator, so mymalloc, myrealloc and myfree
-- are parameters there. mymalloc_usable_size.c, the tests and the benchmarks are left out.
pub mod Base
pub mod Heap
pub mod Sweep
pub mod Types
pub mod Queue
pub mod Trace
pub mod Malloc
pub mod Realloc
pub mod Collect
pub mod Trigger
pub mod Dlmalloc
pub mod Report
pub mod Startup
pub mod System
pub mod Samples
