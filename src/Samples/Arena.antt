-- ===== src/Samples/Arena.antt =====
-- The allocator of dlmalloc.c from its first allocation on: memory comes from 0x100000, and the state
-- stands at 0x1000.
use precision_gc.Base.{
  true, false, ◌+◌, ◌-◌, ◌%◌, ◌^◌, ◌≡◌, ◌<◌, refl, none, some, arith, ◌==◌, if◌then◌else◌,
}
use precision_gc.Types.{done, ◌>>=◌}
use precision_gc.Dlmalloc.{Mstate, Mparams}
use precision_gc.Dlmalloc.Grow.{Os}
use precision_gc.Dlmalloc.Segments.{aligned_up}
use precision_gc.Dlmalloc.Serve.{serve, padded}
use precision_gc.Dlmalloc.Serve.Top.{IsFresh, serve-IsFresh}
use precision_gc.Dlmalloc.Free.{dlfree}
use precision_gc.Dlmalloc.Free.Back.{serve-dlfree}
use precision_gc.Dlmalloc.Checks.{do_check_malloced_chunk}
use precision_gc.Dlmalloc.SysAlloc.{sys_alloc}
use precision_gc.Dlmalloc.SysAlloc.First.{IsZeroed}
use precision_gc.Dlmalloc.Alloc.First.{counted, dlmalloc-top, dlmalloc-first}
use precision_gc.Trigger.{Accounts, must_collect, long_gt, share}
use precision_gc.Dlmalloc.Alloc.{product_size, dlmalloc}
use precision_gc.Dlmalloc.Alloc.Overflow.{product_size-refused}

abbrev pub zero_state : Mstate
zero_state = record {
  word = λ a. 0;
  gm = 0x1000;
  smallmap = 0;
  treemap = 0;
  dvsize = 0;
  topsize = 0;
  least_addr = 0;
  dv = 0;
  top = 0;
  trim_check = 0;
  release_checks = 0;
  footprint = 0;
  max_footprint = 0;
  footprint_limit = 0;
  mflags = 7;
}

abbrev pub build_params : Mparams
build_params = record {
  page_size = 4096;
  granularity = 65536;
  mmap_threshold = 2 ^ 64 - 1;
  trim_threshold = 2 ^ 64 - 1;
  default_mflags = 7;
}

-- Memory comes from 0x100000 on, as much as the footprint, with no gap.
abbrev pub bump_os : Os
bump_os = record {
  mmap = λ n s. some (0x10_0000 + s.footprint, s);
  munmap = λ a n s. none;
  mremap = λ a old new flags s. none;
}

-- the system after one segment of 64 KiB was made
abbrev pub fresh_state : Mstate
fresh_state = record zero_state {
  word = λ c. if c == 0x10_0008 then 65457 else 0;
  topsize = 65456;
  least_addr = 0x10_0000;
  top = 0x10_0000;
  trim_check = 2 ^ 64 - 1;
  footprint = 65536;
  max_footprint = 65536;
}

pub zero_state-IsZeroed : IsZeroed zero_state
zero_state-IsZeroed = record {
  no_small = refl;
  no_trees = refl;
  no_dv = refl;
  no_top = refl;
  no_topsize = refl;
  no_least = refl;
  no_limit = refl;
}

pub fresh_state-IsFresh : IsFresh fresh_state
fresh_state-IsFresh = record {
  no_small = refl;
  no_trees = refl;
  no_dv = refl;
  aligned = omega arith;
  even = omega arith;
  small = omega arith;
  owned = omega arith;
  top_head = refl;
}

-- no collection has been asked for
abbrev accounts : Mstate → Accounts Mstate
accounts s = record {
  state = s;
  heap_size = 0;
  allocated_since_last_gc = 0;
  initialised = true;
  running = false;
  collections = 0;
}

pub asked_memory :
    bump_os.mmap (aligned_up 65536 (padded 100 + 96)) zero_state ≡ some (0x10_0000, zero_state)
asked_memory = refl

not_due : must_collect (accounts zero_state) ≡ false
unfolding must_collect long_gt share
not_due = refl

dlmalloc-first_example :
    (t : Mstate) × (dlmalloc bump_os build_params done 40 1 100 (accounts zero_state)
      ≡ done (0x10_0000 + 16, counted (padded 100) t (accounts zero_state)))
    × IsFresh t
    × (t.top ≡ 0x10_0000 + padded 100)
    × (t.footprint ≡ (0 + (t.topsize + padded 100 + 80)) % 2 ^ 64)
dlmalloc-first_example =
    dlmalloc-first bump_os build_params done 40 0 100 0x10_0000 (accounts zero_state)
      zero_state-IsZeroed (omega arith) not_due refl refl asked_memory

padded_hundred : padded 100 < 65456
unfolding padded
padded_hundred = omega arith

dlmalloc-top_example :
    (t : Mstate) × (dlmalloc bump_os build_params done 40 1 100 (accounts fresh_state)
      ≡ done (0x10_0000 + 16, counted (padded 100) t (accounts fresh_state)))
    × IsFresh t
    × (t.top ≡ 0x10_0000 + padded 100)
dlmalloc-top_example =
    dlmalloc-top bump_os build_params done 40 0 100 (accounts fresh_state) fresh_state-IsFresh
      (omega arith) padded_hundred

serve-IsFresh_example :
    (t : Mstate) × (serve 40 100 fresh_state ≡ done (0x10_0000 + 16, t))
    × (do_check_malloced_chunk build_params (0x10_0000 + 16) (padded 100) t ≡ done tt)
    × (t.top ≡ 0x10_0000 + padded 100)
    × (t.topsize + padded 100 ≡ 65456)
    × IsFresh t
serve-IsFresh_example =
    serve-IsFresh build_params 40 100 fresh_state fresh_state-IsFresh (omega arith) padded_hundred

serve-dlfree_example :
    (u : Mstate) × ((serve 40 100 fresh_state >>= λ got. dlfree bump_os build_params 40 got.0 got.1)
      ≡ done u)
    × (u.top ≡ 0x10_0000)
    × (u.topsize ≡ 65456)
    × IsFresh u
serve-dlfree_example =
    serve-dlfree bump_os build_params 40 100 fresh_state fresh_state-IsFresh (omega arith)
      padded_hundred (omega arith)

product_size-refused_example :
    sys_alloc bump_os build_params 40 (padded (product_size (2 ^ 32) (2 ^ 33))) 0 fresh_state
    ≡ done (0, fresh_state)
product_size-refused_example =
    product_size-refused bump_os build_params 40 (2 ^ 32) (2 ^ 33) 0 fresh_state (omega arith)
      (omega arith) (omega arith) (omega arith) (omega arith) (omega arith) (omega arith)
