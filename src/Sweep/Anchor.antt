-- ===== src/Sweep/Anchor.antt =====
-- The place of the current block in the list, and a block taken out of it.
use precision_gc.Base.{
  ℕ, ◌+◌, ◌-◌, ◌%◌, ◌≤◌, ◌<◌, ◌≡◌, refl, ap, sym, ◌∙◌, ◌≢◌, ◌⊎◌, inl, inr, false, List, [], ◌∷◌,
  arith, bit, All, All-both, ==_self, ==_ne, Bool-cases,
}
use precision_gc.Heap.{Memory, Layout, store}
use precision_gc.Heap.Blocks.{
  Block, IsBlock, Apart, Outside, Spread, Chain, IsBlock-same, Chain-same, SameBlock-store,
  SameBlock-trans, store-store, set_previous_lem, set_next_lem, marked_lem, mark_block_lem,
  UserSame,
}
use precision_gc.Sweep.{relink, unlink, drop_block}

-- `l` is the cell that holds the current block's address: heap_list_head itself, or the next
-- pointer of the block `previous`.
pub record Anchor (v : Layout) (m : Memory) (previous l : ℕ) (xs : List Block) : Type 0 where
  pub even : previous % 2 ≡ 0
  pub outside : All (Outside l) xs
  pub place :
      ((previous ≡ v.heap_list_head) × (l ≡ v.heap_list_head))
      ⊎ ((y : Block) × IsBlock v m y
          × Outside v.heap_list_head y
          × (previous ≡ y.addr)
          × (l ≡ y.insert - 8)
          × All (Apart y) xs
          × All (λ x. m.word v.heap_list_head ≢ x.addr) xs)

-- after the first block has been taken out, the next block's previous pointer is written
abbrev pub relinked : ℕ → List Block → Memory → Memory
relinked p [] m = m
relinked p (z ∷ zs) m = store m (z.insert - 16) (p + bit z.mark)

pub store_self : (m : Memory) (a w : ℕ) → (store m a w).word a ≡ w
unfolding store
store_self m a w = ground arith

module _ {v : Layout} {m : Memory} where
  pub unlink_lem :
      {p l : ℕ} {x : Block} {xs : List Block} (next : ℕ)
      → Anchor v m p l (x ∷ xs)
      → m.word l ≡ x.addr
      → unlink v p x.addr next m ≡ store m l next
  unfolding unlink
  unlink_lem {p} {l} {x} next anchor here = elim anchor.place [
    | inl (first, cell) ↦ rw (ap m.word (sym cell) ∙ here, ==_self, cell)
    | inr (y, b, _, first, cell, _, others) ↦
        rw (==_ne _ _ others.0, first, set_next_lem b next, cell)
  ]

  pub relink_lem :
      {z : Block} (p q : ℕ)
      → IsBlock v m z
      → q % 2 ≡ 0
      → p % 2 ≡ 0
      → m.word (z.insert - 16) ≡ q + bit z.mark
      → relink v z.addr p m ≡ store m (z.insert - 16) (p + bit z.mark)
  unfolding relink store
  relink_lem {z} p q b eq ep back = elim (Bool-cases z.mark) [
    | inl on ↦
        rw (marked_lem b q eq back, on, set_previous_lem b p)
          (mark_block_lem {x = record z { mark = false }} (again b) p ep
              (rw (store_self m (z.insert - 16) p) (omega arith))
            ∙ store-store m (z.insert - 16) p (p + 1))
    | inr off ↦
        rw (marked_lem b q eq back, off, set_previous_lem b p)
          (ap (store m (z.insert - 16)) (omega arith))
  ]
    where
      again : IsBlock v m z → IsBlock v (store m (z.insert - 16) p) (record z { mark = false })
      again b = record {
        live = b.live;
        insert_eq = b.insert_eq;
        room = b.room;
        even = b.even;
        ne_null = b.ne_null;
        below = b.below;
      }

-- `n` has the uses and sizes of `m`, and its words but for those at `l` and the header of the next block
pub record Unlinked (v : Layout) (m n : Memory) (l : ℕ) (xs : List Block) : Type 0 where
  pub live : (q : ℕ) → n.live q ≡ m.live q
  pub usable : (q : ℕ) → n.usable q ≡ m.usable q
  pub words :
      (y : Block)
      → y.addr + 16 ≤ y.insert
      → All (Apart y) xs
      → (a : ℕ) → y.addr ≤ a
      → a < y.insert
      → a ≢ l
      → n.word a ≡ m.word a
  pub head :
      All (Outside v.heap_list_head) xs
      → v.heap_list_head ≢ l
      → n.word v.heap_list_head ≡ m.word v.heap_list_head

module _ (v : Layout) (m : Memory) (p l next : ℕ) where
  pub relinked-Unlinked :
      (xs : List Block) → All (IsBlock v m) xs → Unlinked v m (relinked p xs (store m l next)) l xs
  unfolding store
  relinked-Unlinked [] bs = record {
    live = λ q. refl;
    usable = λ q. refl;
    words = λ y r o a lo hi ne. ground arith;
    head = λ o ne. ground arith;
  }
  relinked-Unlinked (z ∷ zs) (b, bs) = record {
    live = λ q. refl;
    usable = λ q. refl;
    words = λ y r o a lo hi ne. ground (arith, b.room, o.0);
    head = λ o ne. ground (arith, b.room, o.0);
  }

  pub relinked-at :
      (xs : List Block)
      → All (IsBlock v m) xs
      → All (Outside l) xs
      → (relinked p xs (store m l next)).word l ≡ next
  unfolding store
  relinked-at [] bs o = ground arith
  relinked-at (z ∷ zs) bs o = ground (arith, bs.0.room, o.0)

  pub relinked-Chain :
      (q c : ℕ) (xs : List Block)
      → Chain v m q c xs
      → Spread v xs
      → All (Outside l) xs
      → Chain v (relinked p xs (store m l next)) p c xs
  unfolding store
  relinked-Chain q c [] h s o = h
  relinked-Chain q c (z ∷ zs) (e, b, back, rest) (_, apart, spread) (o, os) = (
    e,
    IsBlock-same v m _ b refl refl,
    ground arith,
    rw (kept b o) (
        Chain-same v m _ z.addr (m.word (z.insert - 8)) zs rest (
          All-both zs
            (λ y far out. SameBlock-trans (SameBlock-store m l next y out) (
              SameBlock-store (store m l next) (z.insert - 16) (p + bit z.mark) y
                (omega (arith, b.room))))
            apart os)),
  )
    where
      kept :
          IsBlock v m z
          → Outside l z
          → (store (store m l next) (z.insert - 16) (p + bit z.mark)).word (z.insert - 8)
            ≡ m.word (z.insert - 8)
      kept b o = ground (arith, b.room)

  pub relinked-user :
      (xs : List Block)
      → All (IsBlock v m) xs
      → Spread v xs
      → All (Outside l) xs
      → All (UserSame m (relinked p xs (store m l next))) xs
  unfolding store
  relinked-user [] bs s o = tt
  relinked-user (z ∷ zs) (b, bs) s (o, os) =
      (λ a lo hi. ground arith, All-both zs (λ y far out a lo hi. ground (arith, b.room)) s.1 os)

  -- taking a block out of the list, up to myfree
  pub drop_block_lem :
      (free : ℕ → Memory → Memory) (x : Block) (xs : List Block)
      → IsBlock v m x
      → Anchor v m p l (x ∷ xs)
      → m.word l ≡ x.addr
      → Chain v m x.addr next xs
      → drop_block v free p x.addr next m ≡ free x.addr (relinked p xs (store m l next))
  unfolding drop_block store
  drop_block_lem free x [] bx anchor here h = rw (unlink_lem next anchor here, h)
  drop_block_lem free x (z ∷ zs) bx anchor here (e, b, back, rest) =
      rw (unlink_lem next anchor here, e, ==_ne z.addr 0 b.ne_null)
        (ap (free x.addr) (
          relink_lem p x.addr (IsBlock-same v m _ b refl refl) bx.even anchor.even
            (ground (arith, b.room))))
