-- ===== src/Dlmalloc/Small/Insert.antt =====
-- insert_small_chunk of dlmalloc.c puts a chunk in front of the bin of its size.
use precision_gc.Base.{
  ◌⊎◌, inl, inr, ℕ, zero, suc, ◌+◌, ◌*◌, ◌/◌, ◌%◌, ◌≡◌, refl, ◌≤◌, arith, true, List, [], ◌∷◌, All,
  All-both, leb,
}
use precision_gc.Types.{done}
use precision_gc.Dlmalloc.{Mstate, fd, bk, put, set_fd, set_bk}
use precision_gc.Dlmalloc.Bins.{
  small_index, smallbin_at, smallmap_is_marked, mark_smallmap, is_marked, mark,
}
use precision_gc.Dlmalloc.Small.{link_between, insert_small_chunk}
use precision_gc.Dlmalloc.Small.Relink.{Others}
use precision_gc.Dlmalloc.Small.Ring.{Chain, Apart, AllApart, IsBin, Same, Chain-frame, sym_apart}

marked-mark : (i x : ℕ) → is_marked i (mark i x) ≡ true
unfolding is_marked mark
marked-mark zero x = ground arith
marked-mark (suc i) x =
    let e : (mark i (x / 2) * 2 + x % 2) / 2 ≡ mark i (x / 2) = omega arith in
    rw e (marked-mark i (x / 2))

-- the links between b and the node f behind it, after the insertion of p
module _ (s : Mstate) (p b f : ℕ) where
  linked-other : (x : ℕ) → Apart p x → Apart b x → Apart f x → Same s (link_between p b f s) x
  unfolding link_between set_fd set_bk put
  linked-other x hp hb hf = ground arith

  -- the four words that are written
  linked-words :
      Apart p b
      → Apart p f
      → (b ≡ f) ⊎ Apart b f
      → (fd (link_between p b f s) b ≡ p)
        × (bk (link_between p b f s) f ≡ p)
        × (fd (link_between p b f s) p ≡ f)
        × (bk (link_between p b f s) p ≡ b)
  unfolding link_between set_fd set_bk put
  linked-words hb hf other = ground arith

  linked-kept :
      Apart p b
      → Apart p f
      → Apart b f
      → (bk (link_between p b f s) b ≡ bk s b) × (fd (link_between p b f s) f ≡ fd s f)
  unfolding link_between set_fd set_bk put
  linked-kept hb hf other = ground arith

-- In an empty bin, and in front of a chunk y.
linked_empty : (s : Mstate) (p b : ℕ) → Apart p b → Chain (link_between p b b s) b (p ∷ []) b
linked_empty s p b h = let w = linked-words s p b b h h (inl refl) in (w.0, w.3, (w.2, w.1))

linked_front :
    (s : Mstate) (p b y : ℕ) (ys : List ℕ)
    → AllApart (p ∷ b ∷ y ∷ ys)
    → Chain s b (y ∷ ys) b
    → Chain (link_between p b y s) b (p ∷ y ∷ ys) b
linked_front s p b y ys apart c =
    let hp = apart.0 in
    let hb = apart.1.0 in
    let hy = apart.1.1.0 in
    let w = linked-words s p b y hp.0 hp.1.0 (inr hb.0) in
    let k = linked-kept s p b y hp.0 hp.1.0 hb.0 in
    let others : All (Same s (link_between p b y s)) ys =
      All-both {P = Apart p} {Q = λ x. Apart b x × Apart y x} ys
        (λ x h g. linked-other s p b y x h g.0 g.1) hp.1.1
        (All-both {P = Apart b} {Q = Apart y} ys (λ x h g. (h, g)) hb.1 hy) in
    (w.0, w.3, (w.2, w.1, Chain-frame s (link_between p b y s) y b ys k.1 k.0 others c.2))

-- With the chunk apart from the bin's and at a valid address, insert_small_chunk returns, and the bin of
-- the size holds the chunk in front of the chunks it held. The links of no node but these change.
pub insert_small_chunk-IsBin :
    (p size : ℕ) (s : Mstate) (xs : List ℕ)
    → IsBin s (small_index size) xs
    → AllApart (p ∷ smallbin_at s (small_index size) ∷ xs)
    → s.least_addr ≤ p
    → (t : Mstate) × (insert_small_chunk p size s ≡ done t)
      × IsBin t (small_index size) (p ∷ xs)
      × Others s t (p ∷ smallbin_at s (small_index size) ∷ xs)
unfolding insert_small_chunk smallmap_is_marked mark_smallmap link_between set_fd set_bk put
insert_small_chunk-IsBin p size s [] bin apart valid =
    let i = small_index size in
    let b = smallbin_at s (small_index size) in
    let marked = mark_smallmap (small_index size) s in
    let t = link_between p b b marked in
    (
      t,
      rw bin.marked refl,
      record {
        chain = linked_empty marked p b apart.0.0;
        apart = ((sym_apart apart.0.0, tt), (tt, tt));
        valid = (valid, tt);
        marked = marked-mark (small_index size) s.smallmap;
      },
      (refl, refl, λ x h. linked-other marked p b b x h.0 h.1.0 h.1.0),
    )
insert_small_chunk-IsBin p size s (y ∷ ys) bin apart valid =
    let i = small_index size in
    let b = smallbin_at s (small_index size) in
    let t = link_between p b y s in
    let first : leb s.least_addr y ≡ true = ground (arith, bin.valid.0) in
    (
      t,
      rw bin.marked (rw bin.chain.0 (rw first refl)),
      record {
        chain = linked_front s p b y ys apart bin.chain;
        apart = ((sym_apart apart.0.0, apart.1.0), (apart.0.1, apart.1.1));
        valid = (valid, bin.valid);
        marked = bin.marked;
      },
      (refl, refl, λ x h. linked-other s p b y x h.0 h.1.0 h.1.1.0),
    )
