-- ===== src/Dlmalloc/Bins.antt =====
-- Bins of free chunks in dlmalloc.c: which bin a size belongs to, and the bit maps of bins in use.
pub mod Sizes
pub mod Marks
use Prim.Native.Nat.{bit_and, bit_or}
use precision_gc.Base.{ℕ, zero, suc, ◌+◌, ◌-◌, ◌*◌, ◌/◌, ◌%◌, ◌^◌, Bool, ltb, ◌==◌, if◌then◌else◌}
use precision_gc.Dlmalloc.{Mstate}

abbrev pub is_small : ℕ → Bool
is_small size = ltb (size / 8) 32

abbrev pub small_index : ℕ → ℕ
small_index size = size / 8

abbrev pub small_index2size : ℕ → ℕ
small_index2size i = i * 8

-- The bin as a chunk: its fd and bk are the two pointers of `smallbins` behind its address.
abbrev pub smallbin_at : Mstate → ℕ → ℕ
smallbin_at s i = s.gm + 72 + 16 * i

-- the address of `treebins[i]`
abbrev pub treebin_at : Mstate → ℕ → ℕ
treebin_at s i = s.gm + 600 + 8 * i

-- 31 - __builtin_clz(x): the position of the highest bit
unfoldable pub high_bit : ℕ → ℕ → ℕ
high_bit zero x = 0
high_bit (suc n) x = let higher = high_bit n (x / 2) in if x / 2 == 0 then 0 else suc higher

-- compute_tree_index, whose X is an unsigned int
unfoldable pub compute_tree_index : ℕ → ℕ
compute_tree_index size =
    let x = size / 256 % 2 ^ 32 in
    let k = high_bit 32 x in
    if x == 0 then 0 else if ltb 65535 x then 31 else k * 2 + size / 2 ^ (k + 7) % 2

unfoldable pub leftshift_for_tree_index : ℕ → ℕ
leftshift_for_tree_index i = if i == 31 then 0 else 63 - (i / 2 + 6)

-- The two bits of the source's `|` are different ones.
unfoldable pub minsize_for_tree_index : ℕ → ℕ
minsize_for_tree_index i = 2 ^ (i / 2 + 8) + i % 2 * 2 ^ (i / 2 + 7)

abbrev pub idx2bit : ℕ → ℕ
idx2bit i = 2 ^ i % 2 ^ 32

-- `x & idx2bit(i)`, `x | idx2bit(i)` and `x & ~idx2bit(i)`
unfoldable pub is_marked : ℕ → ℕ → Bool
is_marked zero x = x % 2 == 1
is_marked (suc i) x = is_marked i (x / 2)

unfoldable pub mark : ℕ → ℕ → ℕ
mark zero x = x / 2 * 2 + 1
mark (suc i) x = mark i (x / 2) * 2 + x % 2

unfoldable pub unmark : ℕ → ℕ → ℕ
unmark zero x = x / 2 * 2
unmark (suc i) x = unmark i (x / 2) * 2 + x % 2

unfoldable pub mark_smallmap : ℕ → Mstate → Mstate
unfolding mark
mark_smallmap i s = record s { smallmap = mark i s.smallmap }

unfoldable pub clear_smallmap : ℕ → Mstate → Mstate
unfolding unmark
clear_smallmap i s = record s { smallmap = unmark i s.smallmap }

unfoldable pub smallmap_is_marked : ℕ → Mstate → Bool
unfolding is_marked
smallmap_is_marked i s = is_marked i s.smallmap

unfoldable pub mark_treemap : ℕ → Mstate → Mstate
unfolding mark
mark_treemap i s = record s { treemap = mark i s.treemap }

unfoldable pub clear_treemap : ℕ → Mstate → Mstate
unfolding unmark
clear_treemap i s = record s { treemap = unmark i s.treemap }

unfoldable pub treemap_is_marked : ℕ → Mstate → Bool
unfolding is_marked
treemap_is_marked i s = is_marked i s.treemap

-- `-x` of 32 bits
abbrev pub negated : ℕ → ℕ
negated x = (2 ^ 32 - x) % 2 ^ 32

unfoldable pub least_bit : ℕ → ℕ
least_bit x = bit_and x (negated x)

unfoldable pub left_bits : ℕ → ℕ
left_bits x = let y = x * 2 % 2 ^ 32 in bit_or y (negated y)

-- __builtin_ctz(x): the position of the lowest bit
unfoldable pub low_bit : ℕ → ℕ → ℕ
low_bit zero x = 0
low_bit (suc n) x = let higher = low_bit n (x / 2) in if x % 2 == 1 then 0 else suc higher

unfoldable pub compute_bit2idx : ℕ → ℕ
unfolding low_bit
compute_bit2idx x = low_bit 32 x
