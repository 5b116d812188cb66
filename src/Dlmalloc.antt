-- ===== src/Dlmalloc.antt =====
-- The allocator dlmalloc.c: its state, and the fields and flags of a chunk. The build is that of the
-- collector: 64 bits, no footers, no locks, checks of pointers on, assertions off.
pub mod Bins
pub mod Small
pub mod Tree
pub mod Take
pub mod Segments
pub mod Stats
pub mod Serve
pub mod Grow
pub mod SysAlloc
pub mod Release
pub mod Free
pub mod Alloc
pub mod Resize
pub mod Align
pub mod Bulk
pub mod Checks
pub mod Audit
pub mod Params
pub mod Api
use precision_gc.Base.{
  ℕ, ◌+◌, ◌-◌, ◌*◌, ◌/◌, ◌%◌, ◌^◌, Bool, ◌||◌, not, ltb, leb, ◌==◌, if◌then◌else◌,
}
use precision_gc.Types.{Run, done, abort}

-- _gm_, the state of all calls that are for no mspace, and the memory it lies in. The bins and the
-- first segment record are taken by address and so are words of memory, from `gm` on.
pub record Mstate : Type 0 where
  pub word : ℕ → ℕ
  pub gm : ℕ
  pub smallmap : ℕ
  pub treemap : ℕ
  pub dvsize : ℕ
  pub topsize : ℕ
  pub least_addr : ℕ
  pub dv : ℕ
  pub top : ℕ
  pub trim_check : ℕ
  pub release_checks : ℕ
  pub footprint : ℕ
  pub max_footprint : ℕ
  pub footprint_limit : ℕ
  pub mflags : ℕ

-- mparams
pub record Mparams : Type 0 where
  pub page_size : ℕ
  pub granularity : ℕ
  pub mmap_threshold : ℕ
  pub trim_threshold : ℕ
  pub default_mflags : ℕ

unfoldable pub put : ℕ → ℕ → Mstate → Mstate
put a w s = record s { word = λ c. if c == a then w else s.word c }

-- unsigned subtraction of 64 bits
abbrev pub minus64 : ℕ → ℕ → ℕ
minus64 a b = (a + (2 ^ 64 - b)) % 2 ^ 64

-- An assertion of the debugging code.
abbrev pub assert : Bool → Run Unit
assert b = if b then done tt else abort

-- The fields of struct malloc_chunk and struct malloc_tree_chunk, at their offsets.
abbrev pub prev_foot : Mstate → ℕ → ℕ
prev_foot s p = s.word p

abbrev pub head : Mstate → ℕ → ℕ
head s p = s.word (p + 8)

abbrev pub fd : Mstate → ℕ → ℕ
fd s p = s.word (p + 16)

abbrev pub bk : Mstate → ℕ → ℕ
bk s p = s.word (p + 24)

-- `&(p->child[i])`, and what it holds
abbrev pub child_address : ℕ → ℕ → ℕ
child_address p i = p + 32 + 8 * i

abbrev pub child : Mstate → ℕ → ℕ → ℕ
child s p i = s.word (child_address p i)

abbrev pub parent : Mstate → ℕ → ℕ
parent s p = s.word (p + 48)

abbrev pub index : Mstate → ℕ → ℕ
index s p = s.word (p + 56)

unfoldable pub set_head : ℕ → ℕ → Mstate → Mstate
unfolding put
set_head p w s = put (p + 8) w s

unfoldable pub set_fd : ℕ → ℕ → Mstate → Mstate
unfolding put
set_fd p w s = put (p + 16) w s

unfoldable pub set_bk : ℕ → ℕ → Mstate → Mstate
unfolding put
set_bk p w s = put (p + 24) w s

unfoldable pub set_child : ℕ → ℕ → ℕ → Mstate → Mstate
unfolding put
set_child p i w s = put (child_address p i) w s

unfoldable pub set_parent : ℕ → ℕ → Mstate → Mstate
unfolding put
set_parent p w s = put (p + 48) w s

unfoldable pub set_index : ℕ → ℕ → Mstate → Mstate
unfolding put
set_index p w s = put (p + 56) w s

-- `leftmost_child`
abbrev pub leftmost_child : Mstate → ℕ → ℕ
leftmost_child s t = if child s t 0 == 0 then child s t 1 else child s t 0

abbrev pub chunk2mem : ℕ → ℕ
chunk2mem p = p + 16

abbrev pub mem2chunk : ℕ → ℕ
mem2chunk mem = mem - 16

abbrev pub is_aligned : ℕ → Bool
is_aligned a = a % 16 == 0

-- `align_offset`: how far the next aligned address is
abbrev pub align_offset : ℕ → ℕ
align_offset a = if a % 16 == 0 then 0 else 16 - a % 16

abbrev pub align_as_chunk : ℕ → ℕ
align_as_chunk a = a + align_offset (chunk2mem a)

-- FENCEPOST_HEAD
abbrev pub fencepost_head : ℕ
fencepost_head = 11

-- the flags of a head word: bit 0 for the chunk before, bit 1 for the chunk itself
abbrev pub pinuse : Mstate → ℕ → Bool
pinuse s p = head s p % 2 == 1

abbrev pub cinuse : Mstate → ℕ → Bool
cinuse s p = head s p / 2 % 2 == 1

abbrev pub is_inuse : Mstate → ℕ → Bool
is_inuse s p = not (head s p % 4 == 1)

abbrev pub is_mmapped : Mstate → ℕ → Bool
is_mmapped s p = head s p % 4 == 0

abbrev pub chunksize : Mstate → ℕ → ℕ
chunksize s p = head s p / 8 * 8

abbrev pub next_chunk : Mstate → ℕ → ℕ
next_chunk s p = p + chunksize s p

abbrev pub prev_chunk : Mstate → ℕ → ℕ
prev_chunk s p = p - prev_foot s p

abbrev pub next_pinuse : Mstate → ℕ → Bool
next_pinuse s p = pinuse s (next_chunk s p)

unfoldable pub clear_pinuse : ℕ → Mstate → Mstate
unfolding set_head
clear_pinuse p s = set_head p (head s p / 2 * 2) s

unfoldable pub set_pinuse : ℕ → Mstate → Mstate
unfolding set_head
set_pinuse p s = set_head p (head s p / 2 * 2 + 1) s

unfoldable pub set_foot : ℕ → ℕ → Mstate → Mstate
unfolding put
set_foot p size s = put (p + size) size s

unfoldable pub set_size_and_pinuse_of_free_chunk : ℕ → ℕ → Mstate → Mstate
unfolding set_head set_foot
set_size_and_pinuse_of_free_chunk p size s = set_foot p size (set_head p (size / 2 * 2 + 1) s)

unfoldable pub set_free_with_pinuse : ℕ → ℕ → ℕ → Mstate → Mstate
unfolding clear_pinuse set_size_and_pinuse_of_free_chunk
set_free_with_pinuse p size next s = set_size_and_pinuse_of_free_chunk p size (clear_pinuse next s)

abbrev pub overhead_for : Mstate → ℕ → ℕ
overhead_for s p = if is_mmapped s p then 16 else 8

-- `(head & PINUSE_BIT) | size | CINUSE_BIT`, and the pinuse bit of the next chunk
unfoldable pub set_inuse : ℕ → ℕ → Mstate → Mstate
unfolding set_head set_pinuse
set_inuse p size s =
    let low = if head s p % 2 == 1 then 1 else size % 2 in
    set_pinuse (p + size) (set_head p (size / 4 * 4 + 2 + low) s)

unfoldable pub set_inuse_and_pinuse : ℕ → ℕ → Mstate → Mstate
unfolding set_head set_pinuse
set_inuse_and_pinuse p size s = set_pinuse (p + size) (set_head p (size / 4 * 4 + 3) s)

unfoldable pub set_size_and_pinuse_of_inuse_chunk : ℕ → ℕ → Mstate → Mstate
unfolding set_head
set_size_and_pinuse_of_inuse_chunk p size s = set_head p (size / 4 * 4 + 3) s

-- the checks of pointers that stay in the release build
abbrev pub ok_address : Mstate → ℕ → Bool
ok_address s a = leb s.least_addr a

abbrev pub ok_next : ℕ → ℕ → Bool
ok_next p n = ltb p n
