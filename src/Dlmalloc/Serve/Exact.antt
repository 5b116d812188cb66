-- ===== src/Dlmalloc/Serve/Exact.antt =====
-- Requests that dlmalloc.c serves from the small bin of their size.
use native.Mathlib.Nat.{div-one, div-div-eq-div-mul}
use precision_gc.Dlmalloc.Bins.Sizes.{two_power_suc}
use precision_gc.Base.{
  sym, ℕ, zero, suc, ◌+◌, ◌-◌, ◌*◌, ◌/◌, ◌%◌, ◌^◌, ◌≡◌, refl, ◌∙◌, ap, ◌≤◌, ◌<◌, arith, true, false,
  List, ◌∷◌, All, leb, ◌==◌,
}
use precision_gc.Types.{done}
use precision_gc.Trigger.{pad_request}
use precision_gc.Dlmalloc.{Mstate, Mparams, head, put, set_head, set_pinuse, set_inuse_and_pinuse}
use precision_gc.Dlmalloc.Bins.{small_index, smallbin_at, is_marked, smallmap_is_marked}
use precision_gc.Dlmalloc.Small.Ring.{IsBin}
use precision_gc.Dlmalloc.Small.First.{Beside, unlink_first-IsBin, set_inuse_and_pinuse-IsBin}
use precision_gc.Dlmalloc.Serve.{padded, serve, serve_small, exact_fit}
use precision_gc.Dlmalloc.Serve.Top.{checked_malloced}
use precision_gc.Dlmalloc.Checks.{do_check_malloced_chunk}

-- A mark is a bit of the shifted map.
marked-shift : (i x : ℕ) → is_marked i x ≡ true → x / 2 ^ i % 2 ≡ 1
unfolding is_marked
marked-shift zero x h = (rw (div-one x) (ground arith))
marked-shift (suc i) x h =
    (rw (two_power_suc i) (rw (sym (div-div-eq-div-mul x 2 (2 ^ i))) (marked-shift i (x / 2) h)))

pub padded-small :
    (bytes : ℕ)
    → bytes ≤ 232
    → (padded bytes % 16 ≡ 0)
      × (32 ≤ padded bytes)
      × (padded bytes < 256)
      × (bytes + 8 ≤ padded bytes)
unfolding padded pad_request
padded-small bytes h = ground arith

inuse_heads :
    (p nb : ℕ) (s : Mstate)
    → nb % 16 ≡ 0
    → 32 ≤ nb
    → (head (set_inuse_and_pinuse p nb s) p ≡ nb + 3)
      × (head (set_inuse_and_pinuse p nb s) (p + nb) % 2 ≡ 1)
unfolding set_inuse_and_pinuse set_pinuse set_head put
inuse_heads p nb s even least = ground arith

module _ (fuel p bytes : ℕ) (s : Mstate) (xs : List ℕ) (few : bytes ≤ 232)
    (bin : IsBin s (small_index (padded bytes)) (p ∷ xs)) where
  serve-exact_fit : serve fuel bytes s ≡ exact_fit (small_index (padded bytes)) s
  unfolding serve serve_small smallmap_is_marked
  serve-exact_fit =
      let bit = marked-shift (small_index (padded bytes)) s.smallmap bin.marked in
      let small : leb bytes 232 ≡ true = ground (arith, few) in
      let some : (s.smallmap / 2 ^ small_index (padded bytes) % 4 == 0) ≡ false =
        ground (arith, bit) in
      let same : small_index (padded bytes) + (1 - 1) ≡ small_index (padded bytes) = omega arith in
      rw small (rw some (rw bit (ap (λ i. exact_fit i s) same)))

-- A small request whose bin has a chunk is served with the bin's first chunk p, whatever else is free,
-- when the links of the bin and of its other chunks lie outside p. The chunk passes the check of
-- malloced chunks if it is aligned, and the bin has the other chunks.
pub serve-exact :
    (params : Mparams) (fuel p bytes : ℕ) (s : Mstate) (xs : List ℕ)
    → bytes ≤ 232
    → IsBin s (small_index (padded bytes)) (p ∷ xs)
    → All (Beside p (padded bytes)) (smallbin_at s (small_index (padded bytes)) ∷ xs)
    → p % 16 ≡ 0
    → (t : Mstate) × (serve fuel bytes s ≡ done (p + 16, t))
      × (do_check_malloced_chunk params (p + 16) (padded bytes) t ≡ done tt)
      × IsBin t (small_index (padded bytes)) xs
unfolding exact_fit set_inuse_and_pinuse set_pinuse set_head put
serve-exact params fuel p bytes s xs few bin beside aligned =
    let size = padded-small bytes few in
    let u = unlink_first-IsBin p (padded bytes) s xs bin in
    let same : smallbin_at u.0 (small_index (padded bytes))
        ≡ smallbin_at s (small_index (padded bytes)) =
      ap (λ g. g + 72 + 16 * small_index (padded bytes)) u.3.0 in
    let owned : u.0.least_addr ≤ p = omega (arith, u.3.1, bin.valid.0) in
    let whole : padded bytes / 8 * 8 ≡ padded bytes = omega (arith, size.0) in
    let heads = inuse_heads p (padded bytes) u.0 size.0 size.1 in
    (
      set_inuse_and_pinuse p (padded bytes) u.0,
      serve-exact_fit fuel p bytes s xs few bin ∙ (rw bin.chain.0 (rw u.1 (rw whole refl))),
      checked_malloced params p (padded bytes) (set_inuse_and_pinuse p (padded bytes) u.0) aligned
          size.0 size.1 owned heads.0 heads.1,
      set_inuse_and_pinuse-IsBin p (padded bytes) (small_index (padded bytes)) u.0 xs
          (rw same beside) u.2,
    )
