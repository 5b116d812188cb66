-- ===== src/Sweep/Swept.antt =====
-- What sweep makes of a stretch of the list, put together round by round.
use precision_gc.Base.{
  ℕ, ◌+◌, ◌-◌, ◌≤◌, ◌<◌, ◌≡◌, refl, ap, sym, ◌∙◌, ◌≢◌, inl, inr, Bool, true, false, not, ◌&&◌, ◌||◌,
  List, [], ◌∷◌, arith, All, All-both, ◌==◌, if◌then◌else◌, ==_ne, Bool-cases,
}
use precision_gc.Heap.{Memory, Layout, store}
use precision_gc.Heap.Blocks.{
  Block, IsBlock, Apart, Spread, Chain, IsBlock-same, Chain-IsBlock, ne_of_Apart, UserSame,
  Spread-Outside,
}
use precision_gc.Sweep.Anchor.{Anchor}
use precision_gc.Sweep.Drop.{Dropped}
use precision_gc.Sweep.Keep.{cleared-IsBlock}

-- The marked blocks, their marks cleared.
abbrev pub survivors : List Block → List Block
survivors [] = []
survivors (x ∷ xs) = if x.mark then record x { mark = false } ∷ survivors xs else survivors xs

-- The address is that of an unmarked block.
abbrev pub garbage : ℕ → List Block → Bool
garbage q [] = false
garbage q (x ∷ xs) = (not x.mark && (q == x.addr)) || garbage q xs

-- `n` is what the loop makes of `m` from a cell `l` that leads to `xs`.
pub record Swept (v : Layout) (m n : Memory) (p l : ℕ) (xs : List Block) : Type 0 where
  pub chain : Chain v n p (n.word l) (survivors xs)
  pub live : (q : ℕ) → n.live q ≡ (if garbage q xs then false else m.live q)
  pub user : All (UserSame m n) (survivors xs)
  pub usable : (y : Block) → IsBlock v m y → All (Apart y) xs → n.usable y.addr ≡ m.usable y.addr
  pub words :
      (y : Block)
      → IsBlock v m y
      → All (Apart y) xs
      → (a : ℕ) → y.addr ≤ a
      → a < y.insert
      → a ≢ l
      → n.word a ≡ m.word a
  pub head : v.heap_list_head ≢ l → n.word v.heap_list_head ≡ m.word v.heap_list_head

pub All-survivors :
    (P : Block → Type 0)
    → ((x : Block) → P x → P (record x { mark = false }))
    → (xs : List Block) → All P xs
    → All P (survivors xs)
All-survivors P k [] h = tt
All-survivors P k (x ∷ xs) h = elim (Bool-cases x.mark) [
  | inl on ↦ rw on (k x h.0, All-survivors P k xs h.1)
  | inr off ↦ rw off (All-survivors P k xs h.1)
]

garbage-apart :
    (v : Layout) (m : Memory) (y : Block) (xs : List Block)
    → y.addr + 16 ≤ y.insert
    → All (IsBlock v m) xs
    → All (Apart y) xs
    → garbage y.addr xs ≡ false
garbage-apart v m y [] r bs far = refl
garbage-apart v m y (x ∷ xs) r (b, bs) (o, os) =
    ground (arith, b.room, garbage-apart v m y xs r bs os)

freed_once :
    (a g r : Bool) → (if g then false else (if a then false else r)) ≡ (if a || g then false else r)
freed_once true true r = refl
freed_once true false r = refl
freed_once false g r = refl

pub Swept-nil : (v : Layout) (m : Memory) (p l : ℕ) → m.word l ≡ 0 → Swept v m m p l []
Swept-nil v m p l e = record {
  chain = e;
  live = λ q. refl;
  user = tt;
  usable = λ y b far. refl;
  words = λ y b far a lo hi ne. refl;
  head = λ ne. refl;
}

module _ (v : Layout) (m : Memory) (p l : ℕ) (x : Block) (xs : List Block)
    (chain : Chain v m p (m.word l) (x ∷ xs)) (spread : Spread v (x ∷ xs))
    (anchor : Anchor v m p l (x ∷ xs)) where
  pub Swept-Dropped :
      (n k : Memory)
      → x.mark ≡ false
      → Dropped v m n p l x xs
      → Swept v n k p l xs
      → Swept v m k p l (x ∷ xs)
  Swept-Dropped n k off d s = record {
    chain = rw off s.chain;
    live = λ q.
        s.live q
        ∙ ap (λ b. if garbage q xs then false else b) (d.live q)
        ∙ rw off (freed_once (q == x.addr) (garbage q xs) (m.live q));
    user = rw off (
        All-both (survivors xs) (λ y one two a lo hi. two a lo hi ∙ one a lo hi)
          (All-survivors (UserSame m n) (λ y h. h) xs d.user) s.user);
    usable = λ y b far. s.usable y (still y b far.0) far.1 ∙ d.usable y b (omega (arith, far.0));
    words = λ y b far a lo hi ne.
        s.words y (still y b far.0) far.1 a lo hi ne
        ∙ d.words y b (omega (arith, far.0)) far.1 a lo hi ne;
    head = λ ne. s.head ne ∙ d.head (Spread-Outside v xs spread.2) spread.0 ne;
  }
    where
      still : (y : Block) → IsBlock v m y → Apart y x → IsBlock v n y
      still y b o =
          IsBlock-same v m n b
            (d.live y.addr
              ∙ rw (==_ne _ _ (ne_of_Apart x y chain.1.room b.room (omega arith))) refl)
            (d.usable y b (omega arith))

  module _ (k : Memory) (s : Swept v (store m (x.insert - 16) p) k x.addr (x.insert - 8) xs) where
    kept : (y : Block) → IsBlock v m y → IsBlock v (store m (x.insert - 16) p) y
    kept = cleared-IsBlock v m p l x xs chain spread anchor

    kept-words :
        (y : Block)
        → IsBlock v m y
        → All (Apart y) (x ∷ xs)
        → (a : ℕ) → y.addr ≤ a
        → a < y.insert
        → k.word a ≡ m.word a
    unfolding store
    kept-words y b far a lo hi =
        s.words y (kept y b) far.1 a lo hi (omega (arith, far.0, chain.1.room))
        ∙ ground (arith, far.0, chain.1.room)

    kept-head : k.word v.heap_list_head ≡ m.word v.heap_list_head
    unfolding store
    kept-head =
        s.head (omega (arith, spread.0, chain.1.room)) ∙ ground (arith, spread.0, chain.1.room)

    kept-own : (a : ℕ) → x.addr ≤ a → a < x.insert - 16 → k.word a ≡ m.word a
    unfolding store
    kept-own a lo hi =
        s.words x (kept x chain.1) spread.1 a lo (omega (arith, chain.1.room)) (omega arith)
        ∙ ground (arith, chain.1.room)

    kept-back : k.word (x.insert - 16) ≡ p
    unfolding store
    kept-back =
        s.words x (kept x chain.1) spread.1 (x.insert - 16) (omega (arith, chain.1.room))
          (omega (arith, chain.1.room)) (omega (arith, chain.1.room))
        ∙ ground arith

    kept-IsBlock : IsBlock v k x
    kept-IsBlock =
        let b = kept x chain.1 in
        IsBlock-same v (store m (x.insert - 16) p) k b
          (s.live x.addr
            ∙ rw
                (garbage-apart v m x xs chain.1.room
                  (Chain-IsBlock v m x.addr (m.word (x.insert - 8)) xs chain.3) spread.1)
                refl)
          (s.usable x b spread.1)

    kept-cell : k.word l ≡ x.addr
    kept-cell =
        elim anchor.place [
          | inl (_, cell) ↦ ap k.word cell ∙ kept-head ∙ ap m.word (sym cell)
          | inr (y, b, _, _, cell, far, _) ↦
              kept-words y b far l (omega (arith, b.room)) (omega (arith, b.room))
        ]
        ∙ chain.0

    kept-user : All (UserSame m k) (survivors xs)
    unfolding store
    kept-user =
        All-both (survivors xs) (λ y far user a lo hi. user a lo hi ∙ ground (arith, chain.1.room))
          (All-survivors (Apart x) (λ y h. h) xs spread.1) s.user

    pub Swept-kept : x.mark ≡ true → Swept v m k p l (x ∷ xs)
    unfolding store
    Swept-kept on =
        let b = kept-IsBlock in
        record {
          chain = rw on (
            kept-cell,
            record {
              live = b.live;
              insert_eq = b.insert_eq;
              room = b.room;
              even = b.even;
              ne_null = b.ne_null;
              below = b.below;
            },
            rw kept-back (omega arith),
            s.chain,
          );
          live = λ q. rw on (s.live q);
          user = rw on (kept-own, kept-user);
          usable = λ y b far. s.usable y (kept y b) far.1;
          words = λ y b far a lo hi ne. kept-words y b far a lo hi;
          head = λ ne. kept-head;
        }
