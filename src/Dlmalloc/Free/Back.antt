-- ===== src/Dlmalloc/Free/Back.antt =====
-- dlfree of dlmalloc.c on a block before top.
use precision_gc.Base.{
  ℕ, ◌+◌, ◌-◌, ◌*◌, ◌/◌, ◌%◌, ◌^◌, ◌≡◌, refl, ◌∙◌, ◌≤◌, ◌<◌, inl, inr, arith, true, false, ltb, leb,
  ◌==◌, Bool-cases, ==_self,
}
use precision_gc.Types.{done, ◌>>=◌}
use precision_gc.Dlmalloc.{Mstate, Mparams, put, head, set_head, set_size_and_pinuse_of_inuse_chunk}
use precision_gc.Dlmalloc.Serve.{padded, serve, split_top}
use precision_gc.Dlmalloc.Serve.Top.{
  IsFresh, nb-bounds, top_heads, serve-split_top, split_top-IsFresh,
}
use precision_gc.Dlmalloc.Grow.{Os}
use precision_gc.Dlmalloc.Free.{join_before, join_top, free_to_top, free_forward, dlfree}

module _ (os : Os) (params : Mparams) (fuel p nb : ℕ) (t : Mstate) (inuse : head t p ≡ nb + 3)
    (even : nb % 16 ≡ 0) (some : 0 < nb) (owned : t.least_addr ≤ p) (behind : p + nb ≡ t.top)
    (top : head t (p + nb) ≡ t.topsize + 1) (top_even : t.topsize % 16 ≡ 0)
    (total : t.topsize + nb < 2 ^ 64) (untrimmed : t.topsize + nb ≤ t.trim_check) where
  join_top-size :
      ((join_top os p nb t).topsize ≡ t.topsize + nb)
      × ((join_top os p nb t).trim_check ≡ t.trim_check)
  unfolding join_top set_head put
  join_top-size = elim (Bool-cases (p == t.dv)) [
    | inl at ↦ rw at (omega (arith, total), refl)
    | inr off ↦ rw off (omega (arith, total), refl)
  ]

  free_to_top-join : free_to_top os params fuel p nb t ≡ done (join_top os p nb t)
  unfolding free_to_top
  free_to_top-join =
      let keep : ltb (join_top os p nb t).trim_check (join_top os p nb t).topsize ≡ false =
        ground (arith, join_top-size, untrimmed) in
      rw keep refl

  dlfree-join : dlfree os params fuel (p + 16) t ≡ done (join_top os p nb t)
  unfolding dlfree join_before free_forward
  dlfree-join =
      let mem : (p + 16 == 0) ≡ false = ground arith in
      let back : p + 16 - 16 ≡ p = omega arith in
      let size : (nb + 3) / 8 * 8 ≡ nb = omega (arith, even) in
      let used : ((nb + 3) % 4 == 1) ≡ false = ground (arith, even) in
      let before : ((nb + 3) % 2 == 1) ≡ true = ground (arith, even) in
      let ok : leb t.least_addr p ≡ true = ground (arith, owned) in
      let next_ok : ltb p (p + nb) ≡ true = ground (arith, some) in
      let next_free : ((t.topsize + 1) / 2 % 2 == 1) ≡ false = ground (arith, top_even) in
      let next_after : ((t.topsize + 1) % 2 == 1) ≡ true = ground (arith, top_even) in
      let is_top : (p + nb == t.top) ≡ true = ground (arith, behind) in
      rw mem (
        rw back (
          rw inuse (
            rw size (
              rw ok (
                rw used (
                  rw before (
                    rw next_ok
                      (rw top (rw next_after (rw next_free (rw is_top free_to_top-join)))))))))))

  join_top-IsFresh :
      t.smallmap ≡ 0
      → t.treemap ≡ 0
      → t.dvsize ≡ 0
      → p % 16 ≡ 0
      → (join_top os p nb t).top ≡ p × IsFresh (join_top os p nb t)
  unfolding join_top set_head put
  join_top-IsFresh small trees dv aligned = elim (Bool-cases (p == t.dv)) [
    | inl at ↦ rw at (
      refl,
      record {
        no_small = small;
        no_trees = trees;
        no_dv = refl;
        aligned = aligned;
        even = omega (arith, top_even, even, total);
        small = omega (arith, total);
        owned = owned;
        top_head = rw (==_self (p + 8)) (omega (arith, top_even, even, total));
      },
    )
    | inr off ↦ rw off (
      refl,
      record {
        no_small = small;
        no_trees = trees;
        no_dv = dv;
        aligned = aligned;
        even = omega (arith, top_even, even, total);
        small = omega (arith, total);
        owned = owned;
        top_head = rw (==_self (p + 8)) (omega (arith, top_even, even, total));
      },
    )
  ]

-- A block that was served from top and is freed at once becomes part of top again, as long as top does
-- not reach the threshold of trimming: top is what it was, and all free memory is top.
pub serve-dlfree :
    (os : Os) (params : Mparams) (fuel bytes : ℕ) (s : Mstate)
    → IsFresh s
    → bytes < 2 ^ 63
    → padded bytes < s.topsize
    → s.topsize ≤ s.trim_check
    → (u : Mstate) × ((serve fuel bytes s >>= λ got. dlfree os params fuel got.0 got.1) ≡ done u)
      × (u.top ≡ s.top)
      × (u.topsize ≡ s.topsize)
      × IsFresh u
unfolding split_top set_head set_size_and_pinuse_of_inuse_chunk put
serve-dlfree os params fuel bytes s fresh few fits untrimmed =
    let bounds = nb-bounds s fresh bytes few fits in
    let heads = top_heads s fresh bytes few fits in
    let after = split_top-IsFresh s fresh bytes few fits in
    let t = (split_top (padded bytes) s).1 in
    let nb = padded bytes in
    let total : s.topsize - nb + nb < 2 ^ 64 = omega (arith, fresh.small, fits) in
    let keep : s.topsize - nb + nb ≤ s.trim_check = omega (arith, untrimmed, fits) in
    let size =
      join_top-size os params fuel s.top nb t heads.0 bounds.0 (omega (arith, bounds)) fresh.owned
        refl heads.1 after.even total keep in
    let joined =
      join_top-IsFresh os params fuel s.top nb t heads.0 bounds.0 (omega (arith, bounds))
        fresh.owned refl heads.1 after.even total keep fresh.no_small fresh.no_trees fresh.no_dv
        fresh.aligned in
    (
      join_top os s.top nb t,
      rw (serve-split_top s fresh bytes few fits fuel) (
          dlfree-join os params fuel s.top nb t heads.0 bounds.0 (omega (arith, bounds)) fresh.owned
            refl heads.1 after.even total keep),
      joined.0,
      size.0 ∙ omega (arith, fits),
      joined.1,
    )
