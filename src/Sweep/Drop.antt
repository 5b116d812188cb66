-- ===== src/Sweep/Drop.antt =====
-- One round of sweep at an unmarked block.
use precision_gc.Base.{
  ℕ, ◌-◌, ◌≤◌, ◌<◌, ◌≡◌, refl, ap, sym, ◌∙◌, ◌≢◌, ◌⊎◌, inl, inr, false, List, ◌∷◌, arith, All,
  All-mono, All-both, ◌==◌, if◌then◌else◌, ==_ne,
}
use precision_gc.Heap.{Memory, Layout, store}
use precision_gc.Heap.Blocks.{
  Block, IsBlock, Apart, Outside, Spread, Chain, SameBlock, IsBlock-same, Chain-same, Chain-IsBlock,
  ne_of_Apart, UserSame, Spread-Outside,
}
use precision_gc.Sweep.Free.{FreeLaws}
use precision_gc.Sweep.Anchor.{
  Anchor, relinked, Unlinked, relinked-Unlinked, relinked-at, relinked-Chain, relinked-user,
}

-- What holds once the unmarked block `x` has been unlinked and freed.
pub record Dropped (v : Layout) (m n : Memory) (p l : ℕ) (x : Block) (xs : List Block)
    : Type 0 where
  pub at : n.word l ≡ m.word (x.insert - 8)
  pub chain : Chain v n p (m.word (x.insert - 8)) xs
  pub anchor : Anchor v n p l xs
  pub live : (q : ℕ) → n.live q ≡ (if q == x.addr then false else m.live q)
  pub usable : (y : Block) → IsBlock v m y → Apart x y → n.usable y.addr ≡ m.usable y.addr
  pub words :
      (y : Block)
      → IsBlock v m y
      → Apart x y
      → All (Apart y) xs
      → (a : ℕ) → y.addr ≤ a
      → a < y.insert
      → a ≢ l
      → n.word a ≡ m.word a
  pub user : All (UserSame m n) xs
  pub head :
      All (Outside v.heap_list_head) xs
      → Outside v.heap_list_head x
      → v.heap_list_head ≢ l
      → n.word v.heap_list_head ≡ m.word v.heap_list_head

module _ (v : Layout) (free : ℕ → Memory → Memory) (laws : FreeLaws v free) (m : Memory) (p l : ℕ)
    (x : Block) (xs : List Block) (chain : Chain v m p (m.word l) (x ∷ xs))
    (spread : Spread v (x ∷ xs)) (anchor : Anchor v m p l (x ∷ xs)) where
  abbrev next : ℕ
  next = m.word (x.insert - 8)

  abbrev mid : Memory
  mid = relinked p xs (store m l next)

  blocks : All (IsBlock v m) xs
  blocks = Chain-IsBlock v m x.addr next xs chain.3

  mid-Unlinked : Unlinked v m mid l xs
  mid-Unlinked = relinked-Unlinked v m p l next xs blocks

  mid-IsBlock : (y : Block) → IsBlock v m y → IsBlock v mid y
  mid-IsBlock y b = IsBlock-same v m mid b (mid-Unlinked.live y.addr) (mid-Unlinked.usable y.addr)

  SameBlock-free : (y : Block) → IsBlock v m y → Apart x y → SameBlock mid (free x.addr mid) y
  SameBlock-free y b o =
      let bx = mid-IsBlock x chain.1 in
      let by = mid-IsBlock y b in
      record {
        live = laws.live mid x y.addr bx ∙ rw (==_ne _ _ (ne_of_Apart x y bx.room by.room o)) refl;
        usable = laws.usable mid x y bx by o;
        words = laws.words mid x y bx by o;
      }

  at_cell : (free x.addr mid).word l ≡ next
  at_cell =
      elim anchor.place [
        | inl (_, cell) ↦
            ap (free x.addr mid).word cell
            ∙ laws.head mid x (mid-IsBlock x chain.1) spread.0
            ∙ ap mid.word (sym cell)
        | inr (y, b, _, _, cell, far, _) ↦
            (SameBlock-free y b (omega (arith, far.0))).words l (omega (arith, b.room))
              (omega (arith, b.room))
      ]
      ∙ relinked-at v m p l next xs blocks anchor.outside.1

  head_after :
      v.heap_list_head ≢ l → (free x.addr mid).word v.heap_list_head ≡ m.word v.heap_list_head
  head_after ne =
      laws.head mid x (mid-IsBlock x chain.1) spread.0
      ∙ mid-Unlinked.head (Spread-Outside v xs spread.2) ne

  place_after :
      ((p ≡ v.heap_list_head) × (l ≡ v.heap_list_head))
      ⊎ ((y : Block) × IsBlock v (free x.addr mid) y
          × Outside v.heap_list_head y
          × (p ≡ y.addr)
          × (l ≡ y.insert - 8)
          × All (Apart y) xs
          × All (λ z. (free x.addr mid).word v.heap_list_head ≢ z.addr) xs)
  place_after = elim anchor.place [
    | inl first ↦ inl first
    | inr (y, b, off, first, cell, far, others) ↦
        let same = SameBlock-free y b (omega (arith, far.0)) in
        inr (
          y,
          IsBlock-same v m _ b (same.live ∙ mid-Unlinked.live y.addr)
              (same.usable ∙ mid-Unlinked.usable y.addr),
          off,
          first,
          cell,
          far.1,
          All-mono xs (λ z ne e. ne (sym (head_after (omega (arith, b.room))) ∙ e)) others.1,
        )
  ]

  pub drop_Dropped : Dropped v m (free x.addr mid) p l x xs
  drop_Dropped = record {
    at = at_cell;
    chain =
        Chain-same v mid (free x.addr mid) p next xs
          (relinked-Chain v m p l next x.addr next xs chain.3 spread.2 anchor.outside.1)
          (All-both xs SameBlock-free blocks spread.1);
    anchor = record { even = anchor.even; outside = anchor.outside.1; place = place_after };
    live = λ q.
        laws.live mid x q (mid-IsBlock x chain.1)
        ∙ ap (λ b. if q == x.addr then false else b) (mid-Unlinked.live q);
    usable = λ y b o.
        laws.usable mid x y (mid-IsBlock x chain.1) (mid-IsBlock y b) o
        ∙ mid-Unlinked.usable y.addr;
    words = λ y b o far a lo hi ne.
        (SameBlock-free y b o).words a lo hi ∙ mid-Unlinked.words y b.room far a lo hi ne;
    user =
        All-both xs (λ y same user a lo hi. same.words a lo (omega arith) ∙ user a lo hi)
          (All-both xs SameBlock-free blocks spread.1)
          (relinked-user v m p l next xs blocks spread.2 anchor.outside.1);
    head = λ os o ne. laws.head mid x (mid-IsBlock x chain.1) o ∙ mid-Unlinked.head os ne;
  }
