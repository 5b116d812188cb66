-- ===== src/Realloc/Filled.antt =====
-- A block of the heap list that is replaced by another one, in place or elsewhere (gc_realloc).
use precision_gc.Base.{
  ℕ, ◌-◌, ◌≡◌, refl, ap, sym, ◌∙◌, ◌≢◌, inl, inr, false, List, [], ◌∷◌, ◌++◌, arith, bit, All,
  All-append, All-prefix, All-suffix, All-mono, All-both, subst,
}
use precision_gc.Heap.{Memory, Layout, store}
use precision_gc.Heap.Blocks.{
  Block, IsBlock, IsHeap, Apart, Outside, Spread, Chain, SameBlock, UserSame, IsBlock-same,
  Chain-IsBlock, Chain-same, Spread-Outside,
}
use precision_gc.Sweep.Anchor.{
  Anchor, relinked, Unlinked, relinked-Unlinked, relinked-at, relinked-Chain, relinked-user,
}
use precision_gc.Realloc.Remove.{prefix-SameBut}
use precision_gc.Realloc.Place.{SameBut, Place, Spread-suffix, heap_place}

-- Memory `f` has the block `y` for `x`, with the links `p` and `next` in its header; every other block
-- of `m` is as it was and shares no byte with `y`.
pub record Filled (v : Layout) (m f : Memory) (x y : Block) (p next : ℕ) : Type 0 where
  pub same : (z : Block) → IsBlock v m z → Apart x z → SameBlock m f z
  pub head : f.word v.heap_list_head ≡ m.word v.heap_list_head
  pub block : IsBlock v f y
  pub off : Outside v.heap_list_head y
  pub apart : (z : Block) → IsBlock v m z → Apart x z → Apart y z
  pub unmarked : y.mark ≡ false
  pub back : f.word (y.insert - 16) ≡ p
  pub front : f.word (y.insert - 8) ≡ next

Spread-replace :
    (v : Layout) (m : Memory) (ys : List Block) (x y : Block) (zs : List Block)
    → All (IsBlock v m) (ys ++ x ∷ zs)
    → Spread v (ys ++ x ∷ zs)
    → Outside v.heap_list_head y
    → ((z : Block) → IsBlock v m z → Apart x z → Apart y z)
    → Spread v (ys ++ y ∷ zs)
Spread-replace v m [] x y zs bs s off apart = (off, All-both zs apart bs.1 s.1, s.2)
Spread-replace v m (w ∷ ys) x y zs bs s off apart = (
  s.0,
  (All-append (Apart w) ys (y ∷ zs) (All-prefix (Apart w) ys (x ∷ zs) s.1) (
      let far = All-suffix (Apart w) ys (x ∷ zs) s.1 in
      let o = apart w bs.0 (omega (arith, far.0)) in (omega arith, far.1))),
  Spread-replace v m ys x y zs bs.1 s.2 off apart,
)

module _ (v : Layout) (m : Memory) (ys : List Block) (x : Block) (zs : List Block)
    (heap : IsHeap v m (ys ++ x ∷ zs)) (f : Memory) (y : Block)
    (filled : Filled v m f x y (heap_place v m ys x zs heap).previous (m.word (x.insert - 8))) where
  abbrev place : Place v m v.heap_list_head v.heap_list_head ys x zs
  place = heap_place v m ys x zs heap

  abbrev p : ℕ
  p = place.previous

  abbrev l : ℕ
  l = place.cell

  abbrev next : ℕ
  next = m.word (x.insert - 8)

  blocks : All (IsBlock v m) (ys ++ x ∷ zs)
  blocks = Chain-IsBlock v m _ _ (ys ++ x ∷ zs) heap.chain

  spread : Spread v (x ∷ zs)
  spread = Spread-suffix v ys x zs heap.spread

  behind : All (IsBlock v m) zs
  behind = (All-suffix (IsBlock v m) ys (x ∷ zs) blocks).1

  behind-Apart : All (Apart y) zs
  behind-Apart = All-both zs filled.apart behind spread.1

  behind-SameBlock : All (SameBlock m f) zs
  behind-SameBlock = All-both zs filled.same behind spread.1

  -- the cell that leads to the block still stands
  pub filled-Anchor : Anchor v f p l []
  filled-Anchor = record {
    even = place.anchor.even;
    outside = tt;
    place = elim place.anchor.place [
      | inl first ↦ inl first
      | inr (w, b, off, first, cell, far, _) ↦
          let same = filled.same w b (omega (arith, far.0)) in
          inr (w, IsBlock-same v m f b same.live same.usable, off, first, cell, tt, tt)
    ];
  }

  filled-at : f.word l ≡ x.addr
  filled-at = elim place.anchor.place [
    | inl (_, cell) ↦ ap f.word cell ∙ filled.head ∙ ap m.word (sym cell) ∙ place.rest.0
    | inr (w, b, _, _, cell, far, _) ↦
        (filled.same w b (omega (arith, far.0))).words l (omega (arith, b.room))
          (omega (arith, b.room))
        ∙ place.rest.0
  ]

  cell-Outside : Outside l y
  cell-Outside = elim place.anchor.place [
    | inl (_, cell) ↦ omega (arith, filled.off)
    | inr (w, b, _, _, cell, far, _) ↦
        omega (arith, b.room, filled.apart w b (omega (arith, far.0)))
  ]

  pub filled-Chain : Chain v f x.addr next zs
  filled-Chain = Chain-same v m f x.addr next zs place.rest.3 behind-SameBlock

  -- The list in a memory that has the block in its place.
  module _ (n : Memory)
      (front : (z : Block) → IsBlock v m z → Apart z x → All (Apart z) zs → SameBut l m n z)
      (head : v.heap_list_head ≢ l → n.word v.heap_list_head ≡ m.word v.heap_list_head)
      (at : n.word l ≡ y.addr) (own : SameBlock f n y) (rest : Chain v n y.addr next zs) where
    replaced-front : All (SameBut l m n) ys
    replaced-front = prefix-SameBut v m l n ys x zs blocks heap.spread front

    pub replaced-IsHeap : IsHeap v n (ys ++ y ∷ zs)
    replaced-IsHeap =
        let room = filled.block.room in
        record {
          chain = place.rebuild n (y ∷ zs) replaced-front head (
            at,
            IsBlock-same v f n filled.block own.live own.usable,
            own.words (y.insert - 16) (omega arith) (omega arith)
                ∙ filled.back
                ∙ omega (arith, ap bit filled.unmarked),
            rw (own.words (y.insert - 8) (omega arith) (omega arith) ∙ filled.front) rest,
          );
          spread = Spread-replace v m ys x y zs blocks heap.spread filled.off filled.apart;
          even = heap.even;
          below = heap.below;
        }

    pub replaced-user : All (UserSame m n) ys
    replaced-user =
        All-both ys (λ z same off a lo hi. same.words a lo (omega arith) (off a lo hi))
          replaced-front place.user

  -- the block keeps its address
  pub stay : x.addr ≡ y.addr → IsHeap v f (ys ++ y ∷ zs) × All (UserSame m f) (ys ++ zs)
  stay e =
      let front = λ (z : Block) (b : IsBlock v m z) (o : Apart z x) (far : All (Apart z) zs).
        stayed z (filled.same z b (omega arith)) in
      let own : SameBlock f f y = record { live = refl; usable = refl; words = λ a lo hi. refl } in
      let rest = subst (λ c. Chain v f c next zs) e filled-Chain in
      (
        replaced-IsHeap f front (λ ne. filled.head) (filled-at ∙ e) own rest,
        All-append (UserSame m f) ys zs
            (replaced-user f front (λ ne. filled.head) (filled-at ∙ e) own rest)
            (All-mono zs (λ z same a lo hi. same.words a lo (omega arith)) behind-SameBlock),
      )
    where
      stayed : (z : Block) → SameBlock m f z → SameBut l m f z
      stayed z same = record {
        live = same.live;
        usable = same.usable;
        words = λ a lo hi ne. same.words a lo hi;
      }

  abbrev pub moved : Memory
  moved = relinked y.addr zs (store f l y.addr)

  behind-filled : All (IsBlock v f) zs
  behind-filled =
      All-both zs (λ z b same. IsBlock-same v m f b same.live same.usable) behind behind-SameBlock

  moved-Unlinked : Unlinked v f moved l zs
  moved-Unlinked = relinked-Unlinked v f y.addr l y.addr zs behind-filled

  moved-front : (z : Block) → IsBlock v m z → Apart z x → All (Apart z) zs → SameBut l m moved z
  moved-front z b o far =
      let same = filled.same z b (omega arith) in
      record {
        live = moved-Unlinked.live z.addr ∙ same.live;
        usable = moved-Unlinked.usable z.addr ∙ same.usable;
        words = λ a lo hi ne. moved-Unlinked.words z b.room far a lo hi ne ∙ same.words a lo hi;
      }

  moved-head : v.heap_list_head ≢ l → moved.word v.heap_list_head ≡ m.word v.heap_list_head
  moved-head ne = moved-Unlinked.head (Spread-Outside v zs spread.2) ne ∙ filled.head

  moved-at : moved.word l ≡ y.addr
  moved-at = relinked-at v f y.addr l y.addr zs behind-filled place.anchor.outside.1

  moved-own : SameBlock f moved y
  moved-own = record {
    live = moved-Unlinked.live y.addr;
    usable = moved-Unlinked.usable y.addr;
    words = λ a lo hi.
        moved-Unlinked.words y filled.block.room behind-Apart a lo hi (omega (arith, cell-Outside));
  }

  moved-Chain : Chain v moved y.addr next zs
  moved-Chain =
      relinked-Chain v f y.addr l y.addr x.addr next zs filled-Chain spread.2 place.anchor.outside.1

  -- the block has another address, and its neighbours lead to it
  pub move : IsHeap v moved (ys ++ y ∷ zs) × All (UserSame m moved) (ys ++ zs) × SameBlock f moved y
  move = (
    replaced-IsHeap moved moved-front moved-head moved-at moved-own moved-Chain,
    All-append (UserSame m moved) ys zs
        (replaced-user moved moved-front moved-head moved-at moved-own moved-Chain)
        (All-both zs (λ z same user a lo hi. user a lo hi ∙ same.words a lo (omega arith))
          behind-SameBlock
          (relinked-user v f y.addr l y.addr zs behind-filled spread.2 place.anchor.outside.1)),
    moved-own,
  )
