-- ===== src/Trigger/Sizes.antt =====
-- Sizes of chunks and of the heap's growth: alignment and bounds.
use precision_gc.Base.{ℕ, ◌+◌, ◌/◌, ◌%◌, ◌^◌, ◌≡◌, ◌≤◌, ◌<◌, arith}
use precision_gc.Trigger.{pad_request, request2size, share, grown_size}

-- The chunk size of a request below 2^63 bytes is a multiple of 16, at least 32, has room for the
-- request and the chunk's overhead, and exceeds the request by at most 32 bytes.
pub request2size-bounds :
    (req : ℕ)
    → req < 2 ^ 63
    → (request2size req % 16 ≡ 0)
      × (32 ≤ request2size req)
      × (req + 8 ≤ request2size req)
      × (request2size req ≤ req + 32)
unfolding request2size pad_request
request2size-bounds req h = ground arith

-- With a heap and a request that together stay below 2^63 bytes, the heap grows by the request and a
-- third of its size, and at most 16 bytes more, by a multiple of 16, and by more than the request.
pub grown_size-bounds :
    (heap_size nb : ℕ)
    → heap_size + nb < 2 ^ 63
    → (grown_size heap_size nb % 16 ≡ 0)
      × (heap_size / 3 + nb < grown_size heap_size nb)
      × (grown_size heap_size nb ≤ heap_size / 3 + nb + 16)
unfolding grown_size share
grown_size-bounds heap_size nb h = ground arith
