-- ===== src/Samples/Bins.antt =====
-- Bins, sizes and statistics of dlmalloc.c at a state that stands at 0x1000: the bin of the chunks of 32
-- bytes is at 0x1088, and there is one segment from 0x100000 on.
use precision_gc.Base.{
  ℕ, ◌+◌, ◌-◌, ◌%◌, ◌^◌, ◌≡◌, refl, ◌≤◌, ◌<◌, ◌⊎◌, arith, true, false, List, [], ◌∷◌, ◌==◌,
  if◌then◌else◌,
}
use precision_gc.Types.{done, ◌>>=◌}
use precision_gc.Dlmalloc.{Mstate}
use precision_gc.Dlmalloc.Bins.{
  treebin_at, smallmap_is_marked, is_marked, compute_tree_index, minsize_for_tree_index,
}
use precision_gc.Dlmalloc.Bins.Sizes.{compute_tree_index-minsize}
use precision_gc.Dlmalloc.Small.{insert_small_chunk, unlink_small_chunk}
use precision_gc.Dlmalloc.Small.Ring.{IsBin}
use precision_gc.Dlmalloc.Small.Relink.{Others}
use precision_gc.Dlmalloc.Small.Insert.{insert_small_chunk-IsBin}
use precision_gc.Dlmalloc.Small.Unlink.{unlink_small_chunk-IsBin}
use precision_gc.Dlmalloc.Take.{next_root}
use precision_gc.Dlmalloc.Take.Next.{next_root-least}
use precision_gc.Dlmalloc.Segments.{seg, is_walked}
use precision_gc.Dlmalloc.Stats.{Mallinfo, internal_mallinfo, internal_malloc_stats, get_heap_size}
use precision_gc.Dlmalloc.Stats.Agree.{malloc_stats-mallinfo}
use precision_gc.Dlmalloc.Stats.Tally.{Piece, IsSegments, mallinfo-pieces}

-- The bin holds the chunks 0x100040 and 0x100080, and the tree bins 1 and 3 are marked. The segment
-- starts with a chunk of 64 bytes in use, then a free one of 128, and then top.
abbrev pub binned : Mstate
binned = record {
  word = λ a.
      if a == 0x1098
      then 0x10_0040
      else if a == 0x10_0058
      then 0x1088
      else if a == 0x10_0050
      then 0x10_0080
      else if a == 0x10_0098
      then 0x10_0040
      else if a == 0x10_0090
      then 0x1088
      else if a == 0x10a0
      then 0x10_0080
      else 0;
  gm = 0x1000;
  smallmap = 16;
  treemap = 10;
  dvsize = 0;
  topsize = 0;
  least_addr = 0x10_0000;
  dv = 0;
  top = 0;
  trim_check = 0;
  release_checks = 0;
  footprint = 0;
  max_footprint = 0;
  footprint_limit = 0;
  mflags = 7;
}

abbrev pub members : List ℕ
members = 0x10_0040 ∷ 0x10_0080 ∷ []

marked_bin : smallmap_is_marked 4 binned ≡ true
unfolding smallmap_is_marked is_marked
marked_bin = refl

pub binned-IsBin : IsBin binned 4 members
binned-IsBin = record {
  chain = (refl, refl, (refl, refl, (refl, refl)));
  apart = (
    ((omega arith, omega arith, omega arith), ((omega arith, omega arith, omega arith), tt)),
    (((omega arith, omega arith, omega arith), tt), (tt, tt)),
  );
  valid = (omega arith, (omega arith, tt));
  marked = marked_bin;
}

insert_small_chunk-IsBin_example :
    (t : Mstate) × (insert_small_chunk 0x10_0100 32 binned ≡ done t)
    × IsBin t 4 (0x10_0100 ∷ members)
    × Others binned t (0x10_0100 ∷ 0x1088 ∷ members)
insert_small_chunk-IsBin_example =
    insert_small_chunk-IsBin 0x10_0100 32 binned members binned-IsBin
      (
        (
          (omega arith, omega arith, omega arith),
          ((omega arith, omega arith, omega arith), ((omega arith, omega arith, omega arith), tt)),
        ),
        binned-IsBin.apart,
      )
      (omega arith)

unlink_small_chunk-IsBin_example :
    (t : Mstate) × (unlink_small_chunk 0x10_0080 32 binned ≡ done t)
    × IsBin t 4 (0x10_0040 ∷ [])
    × Others binned t (0x1088 ∷ 0x10_0040 ∷ [])
unlink_small_chunk-IsBin_example =
    unlink_small_chunk-IsBin 0x10_0080 32 binned (0x10_0040 ∷ []) [] binned-IsBin

compute_tree_index-minsize_example :
    (compute_tree_index 1000 ≤ 31)
    × (minsize_for_tree_index (compute_tree_index 1000) ≤ 1000)
    × ((compute_tree_index 1000 ≡ 31)
        ⊎ (1000 < minsize_for_tree_index (compute_tree_index 1000 + 1)))
compute_tree_index-minsize_example = compute_tree_index-minsize 1000 (omega arith) (omega arith)

next_root-least_example :
    ((next_root 400 binned ≡ 0) × ((j : ℕ) → compute_tree_index 400 < j → is_marked j 10 ≡ false))
    ⊎ ((i : ℕ) × (compute_tree_index 400 < i)
        × (is_marked i 10 ≡ true)
        × ((j : ℕ) → compute_tree_index 400 < j → j < i → is_marked j 10 ≡ false)
        × (next_root 400 binned ≡ binned.word (treebin_at binned i)))
next_root-least_example = next_root-least 400 binned (omega arith)

-- The segment from 0x100000 on has a chunk of 64 bytes in use, then a free one of 128, and then top.
abbrev walked : Mstate
walked = record binned {
  word = λ a.
      if a == 0x1378
      then 0x10_0000
      else if a == 0x1380
      then 4096
      else if a == 0x10_0008
      then 67
      else if a == 0x10_0048
      then 129
      else if a == 0x10_00c8
      then 3825
      else 0;
  topsize = 3824;
  top = 0x10_00c0;
  footprint = 4096;
  max_footprint = 4096;
}

abbrev pieces : List (List Piece)
pieces = (record { bytes = 64; in_use = true } ∷ record { bytes = 128; in_use = false } ∷ []) ∷ []

walked-IsSegments : IsSegments walked (seg walked) pieces
unfolding is_walked
walked-IsSegments = (omega arith, (refl, refl, refl, (refl, refl, refl, refl)), refl)

mallinfo-pieces_example :
    (info : Mallinfo) × (internal_mallinfo 4 walked ≡ done info)
    × (info.arena ≡ 3824 + 80 + 192)
    × (info.fordblks ≡ 3824 + 80 + 128)
    × (info.ordblks ≡ 1 + 1)
    × (info.keepcost ≡ 3824)
    × (info.hblkhd ≡ (4096 + (2 ^ 64 - info.arena)) % 2 ^ 64)
    × (info.uordblks ≡ (4096 + (2 ^ 64 - info.fordblks)) % 2 ^ 64)
    × (info.usmblks ≡ 4096)
    × (get_heap_size 4 walked ≡ done 4096)
mallinfo-pieces_example =
    mallinfo-pieces 4 walked pieces (omega arith) walked-IsSegments (omega arith) (omega arith)
      (omega arith) (omega arith)

walked_words : (a : ℕ) → walked.word a < 2 ^ 64
walked_words a = ground arith

malloc_stats-mallinfo_example :
    internal_malloc_stats 4 walked
    ≡ internal_mallinfo 4 walked >>= λ info. done (info.usmblks, 4096, info.uordblks)
malloc_stats-mallinfo_example = malloc_stats-mallinfo 4 walked walked_words
