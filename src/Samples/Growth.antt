-- ===== src/Samples/Growth.antt =====
-- By how much dlmalloc.c grows a heap of 64 KiB.
use precision_gc.Base.{◌+◌, ◌/◌, ◌%◌, ◌≡◌, ◌≤◌, ◌<◌, arith}
use precision_gc.Trigger.{grown_size}
use precision_gc.Trigger.Sizes.{grown_size-bounds}

grown_size-bounds_example :
    (grown_size 65536 112 % 16 ≡ 0)
    × (65536 / 3 + 112 < grown_size 65536 112)
    × (grown_size 65536 112 ≤ 65536 / 3 + 112 + 16)
grown_size-bounds_example = grown_size-bounds 65536 112 (omega arith)
