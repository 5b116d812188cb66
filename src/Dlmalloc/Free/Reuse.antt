-- ===== src/Dlmalloc/Free/Reuse.antt =====
-- dlfree of dlmalloc.c on a small block between blocks in use, and the next request of its size.
use precision_gc.Base.{
  ℕ, ◌+◌, ◌-◌, ◌*◌, ◌/◌, ◌%◌, ◌≡◌, refl, ◌∙◌, ap, ◌≤◌, ◌<◌, arith, true, false, List, ◌∷◌, All,
  All-mono, leb, ltb, ◌==◌,
}
use precision_gc.Types.{done}
use precision_gc.Dlmalloc.{
  Mstate, Mparams, head, put, set_head, set_foot, clear_pinuse, set_size_and_pinuse_of_free_chunk,
  set_free_with_pinuse,
}
use precision_gc.Dlmalloc.Bins.{small_index, smallbin_at}
use precision_gc.Dlmalloc.Small.{insert_small_chunk}
use precision_gc.Dlmalloc.Small.Ring.{IsBin, AllApart, Same}
use precision_gc.Dlmalloc.Small.Insert.{insert_small_chunk-IsBin}
use precision_gc.Dlmalloc.Small.First.{Beside, IsBin-frame}
use precision_gc.Dlmalloc.Serve.{padded, serve}
use precision_gc.Dlmalloc.Serve.Exact.{padded-small, serve-exact}
use precision_gc.Dlmalloc.Checks.{do_check_malloced_chunk}
use precision_gc.Dlmalloc.Grow.{Os}
use precision_gc.Dlmalloc.Free.{join_before, join_after, free_forward, bin_freed, dlfree}

-- the chunk p of size nb is in use and so are the chunks before and behind it
pub record IsEnclosed (p nb : ℕ) (s : Mstate) : Type 0 where
  pub owned : s.least_addr ≤ p
  pub own_head : head s p ≡ nb + 3
  pub next_head : head s (p + nb) % 4 ≡ 3

set_free_with_pinuse-Same :
    (p nb : ℕ) (s : Mstate) (x : ℕ)
    → Beside p nb x
    → Same s (set_free_with_pinuse p nb (p + nb) s) x
unfolding set_free_with_pinuse clear_pinuse set_size_and_pinuse_of_free_chunk set_foot set_head put
set_free_with_pinuse-Same p nb s x h = ground arith

set_free_with_pinuse-IsBin :
    (p nb i : ℕ) (s : Mstate) (xs : List ℕ)
    → All (Beside p nb) (smallbin_at s i ∷ xs)
    → IsBin s i xs
    → IsBin (set_free_with_pinuse p nb (p + nb) s) i xs
unfolding set_free_with_pinuse clear_pinuse set_size_and_pinuse_of_free_chunk set_foot set_head put
set_free_with_pinuse-IsBin p nb i s xs beside bin =
    IsBin-frame s (set_free_with_pinuse p nb (p + nb) s).word i xs
      (All-mono {P = Beside p nb} {Q = Same s (set_free_with_pinuse p nb (p + nb) s)}
        (smallbin_at s i ∷ xs) (set_free_with_pinuse-Same p nb s) beside)
      bin

module _ (os : Os) (params : Mparams) (fuel p nb : ℕ) (s : Mstate) (enclosed : IsEnclosed p nb s)
    (even : nb % 16 ≡ 0) (least : 32 ≤ nb) (small : nb < 256) where
  dlfree-insert :
      dlfree os params fuel (p + 16) s
      ≡ insert_small_chunk p nb (set_free_with_pinuse p nb (p + nb) s)
  unfolding dlfree join_before free_forward join_after bin_freed
  dlfree-insert =
      let mem : (p + 16 == 0) ≡ false = ground arith in
      let back : p + 16 - 16 ≡ p = omega arith in
      let size : (nb + 3) / 8 * 8 ≡ nb = omega (arith, even) in
      let used : ((nb + 3) % 4 == 1) ≡ false = ground (arith, even) in
      let before : ((nb + 3) % 2 == 1) ≡ true = ground (arith, even) in
      let ok : leb s.least_addr p ≡ true = ground (arith, enclosed.owned) in
      let next_ok : ltb p (p + nb) ≡ true = ground (arith, least) in
      let next_after : (head s (p + nb) % 2 == 1) ≡ true = ground (arith, enclosed.next_head) in
      let next_used : (head s (p + nb) / 2 % 2 == 1) ≡ true = ground (arith, enclosed.next_head) in
      let fits : ltb (nb / 8) 32 ≡ true = ground (arith, small) in
      rw mem (
        rw back (
          rw enclosed.own_head (
            rw size (
              rw ok
                (rw used (rw before (rw next_ok (rw next_after (rw next_used (rw fits refl))))))))))

-- A small block between blocks in use that is freed, while the links of its bin lie outside it, goes to
-- the front of the bin of its size; the next request of that size gets the same block back, it passes
-- the check of malloced chunks, and the bin has what it had before.
pub dlfree-serve :
    (os : Os) (params : Mparams) (fuel p bytes : ℕ) (s : Mstate) (xs : List ℕ)
    → bytes ≤ 232
    → p % 16 ≡ 0
    → IsEnclosed p (padded bytes) s
    → IsBin s (small_index (padded bytes)) xs
    → AllApart (p ∷ smallbin_at s (small_index (padded bytes)) ∷ xs)
    → All (Beside p (padded bytes)) (smallbin_at s (small_index (padded bytes)) ∷ xs)
    → (t : Mstate) × (u : Mstate) × (dlfree os params fuel (p + 16) s ≡ done t)
      × IsBin t (small_index (padded bytes)) (p ∷ xs)
      × (serve fuel bytes t ≡ done (p + 16, u))
      × (do_check_malloced_chunk params (p + 16) (padded bytes) u ≡ done tt)
      × IsBin u (small_index (padded bytes)) xs
unfolding set_free_with_pinuse clear_pinuse set_size_and_pinuse_of_free_chunk set_foot set_head put
dlfree-serve os params fuel p bytes s xs few aligned enclosed bin apart beside =
    let size = padded-small bytes few in
    let i = small_index (padded bytes) in
    let freed = set_free_with_pinuse p (padded bytes) (p + padded bytes) s in
    let kept =
      set_free_with_pinuse-IsBin p (padded bytes) (small_index (padded bytes)) s xs beside bin in
    let t =
      insert_small_chunk-IsBin p (padded bytes)
        (set_free_with_pinuse p (padded bytes) (p + padded bytes) s) xs kept apart enclosed.owned in
    let same : smallbin_at t.0 (small_index (padded bytes))
        ≡ smallbin_at s (small_index (padded bytes)) =
      ap (λ g. g + 72 + 16 * small_index (padded bytes)) t.3.0 in
    let u = serve-exact params fuel p bytes t.0 xs few t.2 (rw same beside) aligned in
    (
      t.0,
      u.0,
      dlfree-insert os params fuel p (padded bytes) s enclosed size.0 size.1 size.2 ∙ t.1,
      t.2,
      u.1,
      u.2,
      u.3,
    )
