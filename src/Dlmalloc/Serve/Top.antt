-- ===== src/Dlmalloc/Serve/Top.antt =====
-- Requests that dlmalloc.c serves from top, and their blocks freed again.
use native.Mathlib.Nat.{zero-div}
use precision_gc.Dlmalloc.Bins.{small_index}
use precision_gc.Base.{
  ℕ, ◌+◌, ◌-◌, ◌*◌, ◌/◌, ◌%◌, ◌^◌, ◌≡◌, refl, ap, ◌∙◌, ◌≤◌, ◌<◌, inl, inr, arith, true, false, ltb,
  leb, ◌==◌, Bool-cases,
}
use precision_gc.Types.{done}
use precision_gc.Trigger.{request2size}
use precision_gc.Trigger.Sizes.{request2size-bounds}
use precision_gc.Dlmalloc.{Mstate, Mparams, put, head, set_head, set_size_and_pinuse_of_inuse_chunk}
use precision_gc.Dlmalloc.Serve.{padded, serve, serve_small, serve_large, from_dv_or_top, split_top}
use precision_gc.Dlmalloc.Checks.{do_check_malloced_chunk, do_check_inuse_chunk, do_check_any_chunk}

-- All free memory is top.
pub record IsFresh (s : Mstate) : Type 0 where
  pub no_small : s.smallmap ≡ 0
  pub no_trees : s.treemap ≡ 0
  pub no_dv : s.dvsize ≡ 0
  pub aligned : s.top % 16 ≡ 0
  pub even : s.topsize % 16 ≡ 0
  pub small : s.topsize < 2 ^ 64
  pub owned : s.least_addr ≤ s.top
  pub top_head : head s s.top ≡ s.topsize + 1

-- The size of the chunk is the same by either way through the code.
pub padded-request2size : (bytes : ℕ) → bytes < 2 ^ 63 → padded bytes ≡ request2size bytes
unfolding padded request2size
padded-request2size bytes h = ground arith

split_heads :
    (nb : ℕ) (s : Mstate)
    → 0 < nb
    → (head (split_top nb s).1 s.top ≡ nb / 4 * 4 + 3)
      × (head (split_top nb s).1 (s.top + nb) ≡ (s.topsize - nb) / 2 * 2 + 1)
unfolding split_top set_head set_size_and_pinuse_of_inuse_chunk put
split_heads nb s h = ground arith

checked_inuse :
    (params : Mparams) (p nb : ℕ) (t : Mstate)
    → p % 16 ≡ 0
    → nb % 16 ≡ 0
    → t.least_addr ≤ p
    → head t p ≡ nb + 3
    → head t (p + nb) % 2 ≡ 1
    → do_check_inuse_chunk params p t ≡ done tt
unfolding do_check_inuse_chunk do_check_any_chunk
checked_inuse params p nb t aligned even owned at next =
    let size : (nb + 3) / 8 * 8 ≡ nb = omega arith in
    let is_at : ((p + 16) % 16 == 0) ≡ true = ground arith in
    let ok : leb t.least_addr p ≡ true = ground arith in
    let used : ((nb + 3) % 4 == 1) ≡ false = ground arith in
    let unmapped : ((nb + 3) % 4 == 0) ≡ false = ground arith in
    let before : ((nb + 3) % 2 == 1) ≡ true = ground arith in
    rw at (rw size (rw is_at (rw ok (rw used (rw next (rw unmapped (rw before refl)))))))

pub checked_malloced :
    (params : Mparams) (p nb : ℕ) (t : Mstate)
    → p % 16 ≡ 0
    → nb % 16 ≡ 0
    → 32 ≤ nb
    → t.least_addr ≤ p
    → head t p ≡ nb + 3
    → head t (p + nb) % 2 ≡ 1
    → do_check_malloced_chunk params (p + 16) nb t ≡ done tt
unfolding do_check_malloced_chunk
checked_malloced params p nb t aligned even least owned at next =
    let back : p + 16 - 16 ≡ p = omega arith in
    let some : (p + 16 == 0) ≡ false = ground arith in
    let size : (nb + 3) / 4 * 4 ≡ nb = omega arith in
    let multiple : (nb % 16 == 0) ≡ true = ground arith in
    let large : leb 32 nb ≡ true = ground arith in
    let enough : leb nb nb ≡ true = ground arith in
    let close : ltb nb (nb + 32) ≡ true = ground arith in
    let unmapped : ((nb + 3) % 4 == 0) ≡ false = ground arith in
    rw some (
      rw back (
        rw (checked_inuse params p nb t aligned even owned at next)
          (rw at (rw size (rw multiple (rw large (rw enough (rw unmapped (rw close refl)))))))))

-- what serving from top does to the state
module _ (s : Mstate) (fresh : IsFresh s) (bytes : ℕ) (few : bytes < 2 ^ 63)
    (fits : padded bytes < s.topsize) where
  pub nb-bounds : (padded bytes % 16 ≡ 0) × (32 ≤ padded bytes) × (bytes + 8 ≤ padded bytes)
  nb-bounds =
      let b = request2size-bounds bytes few in rw (padded-request2size bytes few) (b.0, b.1, b.2)

  from-split_top : from_dv_or_top (padded bytes) s ≡ split_top (padded bytes) s
  unfolding from_dv_or_top
  from-split_top =
      let beyond : leb (padded bytes) s.dvsize ≡ false = ground (arith, fresh.no_dv, nb-bounds) in
      let inside : ltb (padded bytes) s.topsize ≡ true = ground (arith, fits) in
      rw beyond (rw inside refl)

  small-split_top :
      (fuel : ℕ) → serve_small fuel (padded bytes) s ≡ done (split_top (padded bytes) s)
  unfolding serve_small
  small-split_top fuel =
      let beyond : ltb s.dvsize (padded bytes) ≡ true = ground (arith, fresh.no_dv, nb-bounds) in
      let none : s.smallmap / 2 ^ small_index (padded bytes) ≡ 0 =
        ap (λ m. m / 2 ^ small_index (padded bytes)) fresh.no_small
        ∙ zero-div (2 ^ small_index (padded bytes)) in
      let no_tree : (s.treemap == 0) ≡ true = ground (arith, fresh.no_trees) in
      rw none (rw beyond (rw no_tree (ap done from-split_top)))

  large-split_top :
      (fuel : ℕ) → serve_large fuel (padded bytes) s ≡ done (split_top (padded bytes) s)
  unfolding serve_large
  large-split_top fuel =
      let no_tree : (s.treemap == 0) ≡ true = ground (arith, fresh.no_trees) in
      rw no_tree (ap done from-split_top)

  pub serve-split_top : (fuel : ℕ) → serve fuel bytes s ≡ done (split_top (padded bytes) s)
  unfolding serve
  serve-split_top fuel =
      let possible : leb (2 ^ 64 - 128) bytes ≡ false = ground (arith, few) in
      elim (Bool-cases (leb bytes 232)) [
        | inl small ↦ rw small (small-split_top fuel)
        | inr large ↦ rw large (rw possible (large-split_top fuel))
      ]

  pub top_heads :
      (head (split_top (padded bytes) s).1 s.top ≡ padded bytes + 3)
      × (head (split_top (padded bytes) s).1 (s.top + padded bytes) ≡ s.topsize - padded bytes + 1)
  top_heads =
      let h = split_heads (padded bytes) s (omega (arith, nb-bounds)) in
      (h.0 ∙ omega (arith, nb-bounds), h.1 ∙ omega (arith, nb-bounds, fresh.even, fits))

  pub split_top-IsFresh : IsFresh (split_top (padded bytes) s).1
  unfolding split_top set_head set_size_and_pinuse_of_inuse_chunk put
  split_top-IsFresh = record {
    no_small = fresh.no_small;
    no_trees = fresh.no_trees;
    no_dv = fresh.no_dv;
    aligned = omega (arith, fresh.aligned, nb-bounds);
    even = omega (arith, fresh.even, nb-bounds, fits);
    small = omega (arith, fresh.small);
    owned = omega (arith, fresh.owned);
    top_head = top_heads.1;
  }

-- While all free memory is top, and top is larger than the chunk, dlmalloc serves a request below 2^63
-- bytes from it. The chunk passes the check of malloced chunks, its bytes are those that top has lost,
-- and all free memory is top again.
pub serve-IsFresh :
    (params : Mparams) (fuel bytes : ℕ) (s : Mstate)
    → IsFresh s
    → bytes < 2 ^ 63
    → padded bytes < s.topsize
    → (t : Mstate) × (serve fuel bytes s ≡ done (s.top + 16, t))
      × (do_check_malloced_chunk params (s.top + 16) (padded bytes) t ≡ done tt)
      × (t.top ≡ s.top + padded bytes)
      × (t.topsize + padded bytes ≡ s.topsize)
      × IsFresh t
unfolding split_top set_head set_size_and_pinuse_of_inuse_chunk put
serve-IsFresh params fuel bytes s fresh few fits =
    let bounds = nb-bounds s fresh bytes few fits in
    let heads = top_heads s fresh bytes few fits in
    (
      (split_top (padded bytes) s).1,
      serve-split_top s fresh bytes few fits fuel,
      checked_malloced params s.top (padded bytes) (split_top (padded bytes) s).1 fresh.aligned
          bounds.0 bounds.1 fresh.owned heads.0 (omega (arith, heads.1, fresh.even, bounds, fits)),
      refl,
      omega (arith, fits),
      split_top-IsFresh s fresh bytes few fits,
    )
