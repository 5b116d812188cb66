-- ===== src/Dlmalloc/Params.antt =====
-- The parameters of dlmalloc.c and the exported calls that read or set them or the footprint.
use Prim.Native.Nat.{bit_and}
use precision_gc.Base.{ℕ, ◌+◌, ◌-◌, ◌^◌, ◌&&◌, leb, ◌==◌, if◌then◌else◌}
use precision_gc.Types.{Run, done, abort}
use precision_gc.Dlmalloc.{Mstate, Mparams}
use precision_gc.Dlmalloc.Segments.{max_size, granularity_align}

-- DEFAULT_GRANULARITY without MORECORE
abbrev pub default_granularity : ℕ
default_granularity = 65536

-- The thresholds come from the build and turn mapping and trimming off; `page` is the system's page
-- size. The locks of the build are none, and the magic number is used with footers only.
unfoldable pub init_mparams : ℕ → Mstate → Run (Mparams × Mstate)
init_mparams page s =
    if bit_and page (page - 1) == 0
    then done (
      record {
        page_size = page;
        granularity = default_granularity;
        mmap_threshold = max_size;
        trim_threshold = max_size;
        default_mflags = 7;
      },
      record s { mflags = 7 },
    )
    else abort

-- M_TRIM_THRESHOLD, M_GRANULARITY and M_MMAP_THRESHOLD as `int`s: -1, -2 and -3
abbrev pub m_trim_threshold : ℕ
m_trim_threshold = 2 ^ 32 - 1

abbrev pub m_granularity : ℕ
m_granularity = 2 ^ 32 - 2

abbrev pub m_mmap_threshold : ℕ
m_mmap_threshold = 2 ^ 32 - 3

-- Numbers are ints, given by their 32 bits; a negative value is extended to 64 bits.
unfoldable pub change_mparam : ℕ → ℕ → Mparams → ℕ × Mparams
change_mparam param_number value params =
    let val = if leb (2 ^ 31) value then 2 ^ 64 - 2 ^ 32 + value else value in
    if param_number == m_trim_threshold
    then (1, record params { trim_threshold = val })
    else if param_number == m_granularity
    then (if leb params.page_size val && (bit_and val (val - 1) == 0)
        then (1, record params { granularity = val })
        else (0, params))
    else if param_number == m_mmap_threshold
    then (1, record params { mmap_threshold = val })
    else (0, params)

unfoldable pub dlmalloc_footprint_limit : Mstate → ℕ
dlmalloc_footprint_limit s = if s.footprint_limit == 0 then max_size else s.footprint_limit

-- The minimal size that a request of 0 gets first is overwritten by the second test.
unfoldable pub dlmalloc_set_footprint_limit : Mparams → ℕ → Mstate → ℕ × Mstate
dlmalloc_set_footprint_limit params bytes s =
    let result = if bytes == max_size then 0 else granularity_align params bytes in
    (result, record s { footprint_limit = result })
