-- ===== src/Trigger.antt =====
-- The part of dlmalloc.c that was written for the collector: when an allocation collects, by how much
-- the heap grows, and the count of bytes since the last collection.
pub mod Sizes
use precision_gc.Base.{
  ℕ, zero, suc, ◌+◌, ◌-◌, ◌*◌, ◌/◌, ◌%◌, ◌^◌, Bool, false, ◌&&◌, Option, none, some, ltb, ◌==◌,
  if◌then◌else◌,
}
use precision_gc.Types.{Run, done, abort, out_of_fuel}

-- CHUNK_OVERHEAD and MALLOC_ALIGNMENT in this build: no footers, 64 bits
abbrev pub chunk_overhead : ℕ
chunk_overhead = 8

abbrev pub min_chunk_size : ℕ
min_chunk_size = 32

abbrev pub min_request : ℕ
min_request = min_chunk_size - chunk_overhead - 1

-- `(req + CHUNK_OVERHEAD + CHUNK_ALIGN_MASK) & ~CHUNK_ALIGN_MASK`
unfoldable pub pad_request : ℕ → ℕ
pad_request req = (req + chunk_overhead + 15) % 2 ^ 64 / 16 * 16

unfoldable pub request2size : ℕ → ℕ
request2size req = if ltb req min_request then min_chunk_size else pad_request req

-- A `long` is its 64 bits. Greater-than, and division by FSD, which rounds towards 0.
unfoldable pub long_gt : ℕ → ℕ → Bool
long_gt a b = ltb ((b + 2 ^ 63) % 2 ^ 64) ((a + 2 ^ 63) % 2 ^ 64)

abbrev pub fsd : ℕ
fsd = 3

unfoldable pub share : ℕ → ℕ
share heap_size =
    if ltb heap_size (2 ^ 63)
    then heap_size / fsd
    else (2 ^ 64 - (2 ^ 64 - heap_size) / fsd) % 2 ^ 64

-- The size that sys_alloc asks of the system once the heap is in use.
unfoldable pub grown_size : ℕ → ℕ → ℕ
unfolding share
grown_size heap_size nb =
    let asize = (share heap_size + nb) % 2 ^ 64 in
    let remainder = asize % 16 in (asize + (16 - remainder)) % 2 ^ 64

-- The allocator's own state, the bookkeeping variables of the collector, and num_collections.
pub record Accounts (S : Type 0) : Type 0 where
  pub state : S
  pub heap_size : ℕ
  pub allocated_since_last_gc : ℕ
  pub initialised : Bool
  pub running : Bool
  pub collections : ℕ

-- whether to collect rather than extend the heap
unfoldable pub must_collect : {S : Type 0} → Accounts S → Bool
unfolding long_gt share
must_collect a = long_gt a.allocated_since_last_gc (share a.heap_size) && a.initialised
