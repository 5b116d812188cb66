-- ===== src/Dlmalloc/Small/First.antt =====
-- unlink_first_small_chunk of dlmalloc.c, which takes the first chunk out of a small bin, and stores that
-- do not reach the links of a bin.
use precision_gc.Base.{
  ℕ, ◌+◌, ◌≡◌, refl, sym, ◌∙◌, ◌≤◌, ◌⊎◌, arith, true, false, List, [], ◌∷◌, All, All-mono, leb,
  ◌==◌, ==_self, ==_ne,
}
use precision_gc.Types.{done}
use precision_gc.Dlmalloc.{Mstate, put, set_head, set_pinuse, set_inuse_and_pinuse}
use precision_gc.Dlmalloc.Bins.{small_index, smallbin_at, smallmap_is_marked}
use precision_gc.Dlmalloc.Small.{unlink_small_chunk, unlink_first_small_chunk}
use precision_gc.Dlmalloc.Small.Ring.{Ring, IsBin, Same, Chain-frame}
use precision_gc.Dlmalloc.Small.Relink.{Others}
use precision_gc.Dlmalloc.Small.Unlink.{unlink_small_chunk-IsBin}

-- The first chunk of a bin is unlinked by either function in the same way.
unlink_first-unlink :
    (p size : ℕ) (s : Mstate) (ys : List ℕ)
    → IsBin s (small_index size) (p ∷ ys)
    → unlink_first_small_chunk (smallbin_at s (small_index size)) p (small_index size) s
      ≡ unlink_small_chunk p size s
unfolding unlink_first_small_chunk unlink_small_chunk
unlink_first-unlink p size s [] bin =
    let b = smallbin_at s (small_index size) in
    rw bin.chain.2.0 (rw bin.chain.1 (rw (==_self b) refl))
unlink_first-unlink p size s (y ∷ ys) bin =
    let b = smallbin_at s (small_index size) in
    let ok : leb s.least_addr y ≡ true = ground (arith, bin.valid.1.0) in
    let ne : (smallbin_at s (small_index size) == y) ≡ false =
      ==_ne (smallbin_at s (small_index size)) y bin.apart.0.1.0.0 in
    let other : (y == smallbin_at s (small_index size)) ≡ false =
      ==_ne y (smallbin_at s (small_index size)) (λ e. bin.apart.0.1.0.0 (sym e)) in
    rw bin.chain.2.0 (
      rw bin.chain.1
        (rw bin.chain.2.1 (rw ne (rw ok (rw (==_self b) (rw (==_self p) (rw other refl)))))))

-- A bin that has the chunk p first has the others behind it afterwards.
pub unlink_first-IsBin :
    (p size : ℕ) (s : Mstate) (ys : List ℕ)
    → IsBin s (small_index size) (p ∷ ys)
    → (t : Mstate) × (unlink_first_small_chunk
          (smallbin_at s (small_index size))
          p
          (small_index size)
          s
        ≡ done t)
      × IsBin t (small_index size) ys
      × Others s t (smallbin_at s (small_index size) ∷ ys)
unlink_first-IsBin p size s ys bin =
    let u = unlink_small_chunk-IsBin p size s [] ys bin in
    (u.0, unlink_first-unlink p size s ys bin ∙ u.1, u.2, u.3)

Ring-frame :
    (s t : Mstate) (b : ℕ) (xs : List ℕ) → All (Same s t) (b ∷ xs) → Ring s b xs → Ring t b xs
Ring-frame s t b [] same ring = tt
Ring-frame s t b (x ∷ xs) same ring = Chain-frame s t b b (x ∷ xs) same.0.0 same.0.1 same.1 ring

-- The bin is the same after stores that keep the links of its nodes.
pub IsBin-frame :
    (s : Mstate) (w : ℕ → ℕ) (i : ℕ) (xs : List ℕ)
    → All (Same s (record s { word = w })) (smallbin_at s i ∷ xs)
    → IsBin s i xs
    → IsBin (record s { word = w }) i xs
unfolding smallmap_is_marked
IsBin-frame s w i xs same bin = record {
  chain = Ring-frame s (record s { word = w }) (smallbin_at s i) xs same bin.chain;
  apart = bin.apart;
  valid = bin.valid;
  marked = bin.marked;
}

-- The node x, of 32 bytes at least, lies wholly before or wholly behind the chunk of size nb at p.
abbrev pub Beside : ℕ → ℕ → ℕ → Type 0
Beside p nb x = (x + 32 ≤ p) ⊎ (p + nb ≤ x)

-- Heads of the chunk and of the next chunk are no links of nodes beside it.
set_inuse_and_pinuse-Same :
    (p nb : ℕ) (s : Mstate) (x : ℕ) → Beside p nb x → Same s (set_inuse_and_pinuse p nb s) x
unfolding set_inuse_and_pinuse set_pinuse set_head put
set_inuse_and_pinuse-Same p nb s x h = ground arith

pub set_inuse_and_pinuse-IsBin :
    (p nb i : ℕ) (s : Mstate) (xs : List ℕ)
    → All (Beside p nb) (smallbin_at s i ∷ xs)
    → IsBin s i xs
    → IsBin (set_inuse_and_pinuse p nb s) i xs
unfolding set_inuse_and_pinuse set_pinuse set_head put
set_inuse_and_pinuse-IsBin p nb i s xs beside bin =
    IsBin-frame s (set_inuse_and_pinuse p nb s).word i xs
      (All-mono {P = Beside p nb} {Q = Same s (set_inuse_and_pinuse p nb s)} (smallbin_at s i ∷ xs)
        (set_inuse_and_pinuse-Same p nb s) beside)
      bin
