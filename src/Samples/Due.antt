-- ===== src/Samples/Due.antt =====
-- An allocation of dlmalloc.c that collects: of the 64 KiB from 0x100000 on, the first half is a chunk in
-- use, and the collector gives it back.
use precision_gc.Base.{
  ◌+◌, ◌%◌, ◌^◌, ◌≡◌, refl, true, false, arith, List, [], ◌∷◌, ◌==◌, if◌then◌else◌, ◌<◌, ◌≤◌,
}
use precision_gc.Types.{Run, done}
use precision_gc.Trigger.{Accounts}
use precision_gc.Dlmalloc.{Mstate}
use precision_gc.Dlmalloc.Segments.{seg, is_walked}
use precision_gc.Dlmalloc.Stats.Tally.{Piece, IsSegments}
use precision_gc.Dlmalloc.Serve.{padded}
use precision_gc.Dlmalloc.Serve.Top.{IsFresh}
use precision_gc.Dlmalloc.Alloc.{dlmalloc}
use precision_gc.Dlmalloc.Alloc.Due.{dlmalloc-due}
use precision_gc.Samples.Arena.{bump_os, build_params, fresh_state, fresh_state-IsFresh}

abbrev full_state : Mstate
full_state = record fresh_state {
  word = λ c.
      if c == 0x1378
      then 0x10_0000
      else if c == 0x1380
      then 65536
      else if c == 0x10_0008
      then 0x8003
      else if c == 0x10_8008
      then 32689
      else 0;
  topsize = 32688;
  top = 0x10_8000;
}

full_state-IsFresh : IsFresh full_state
full_state-IsFresh = record {
  no_small = refl;
  no_trees = refl;
  no_dv = refl;
  aligned = omega arith;
  even = omega arith;
  small = omega arith;
  owned = omega arith;
  top_head = refl;
}

abbrev pieces : List (List Piece)
pieces = (record { bytes = 0x8000; in_use = true } ∷ []) ∷ []

full_state-IsSegments : IsSegments full_state (seg full_state) pieces
unfolding is_walked
full_state-IsSegments = (omega arith, (refl, refl, refl, refl), refl)

abbrev accounts : Accounts Mstate
accounts = record {
  state = full_state;
  heap_size = 0;
  allocated_since_last_gc = 30000;
  initialised = true;
  running = false;
  collections = 0;
}

abbrev gc_collect : Accounts Mstate → Run (Accounts Mstate)
gc_collect a = done (record a { state = fresh_state; collections = a.collections + 1 })

abbrev freed : Accounts Mstate
freed = record accounts { state = fresh_state; heap_size = 65536; collections = 0 + 1 }

full : 32688 ≤ padded 40000
unfolding padded
full = omega arith

room : padded 40000 < 65456
unfolding padded
room = omega arith

dlmalloc-due_example :
    (t : Mstate) × (dlmalloc bump_os build_params gc_collect 40 2 40000 accounts
      ≡ done (
        0x10_0000 + 16,
        record freed { state = t; allocated_since_last_gc = (padded 40000 + 8) % 2 ^ 64 },
      ))
    × IsFresh t
    × (t.top ≡ 0x10_0000 + padded 40000)
dlmalloc-due_example =
    dlmalloc-due bump_os build_params gc_collect 40 0 40000 accounts freed pieces full_state-IsFresh
      (omega arith) (omega arith) full full_state-IsSegments (omega arith) (omega arith)
      (omega arith) (omega arith) (omega arith) (omega arith) refl refl fresh_state-IsFresh room
