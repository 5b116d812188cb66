-- ===== src/Realloc/Remove.antt =====
-- gc_realloc to size 0.
use precision_gc.Base.{
  ℕ, ◌+◌, ◌-◌, ◌≡◌, refl, ap, ◌∙◌, ◌≢◌, inl, inr, false, List, [], ◌∷◌, ◌++◌, arith, bit, All,
  All-append, All-prefix, All-suffix, All-both, ==_ne, ==_self, ◌==◌, if◌then◌else◌,
}
use precision_gc.Heap.{Memory, Layout, store}
use precision_gc.Heap.Blocks.{
  Block, IsBlock, IsHeap, Apart, Spread, Chain, UserSame, IsBlock-same, Chain-IsBlock, ne_of_Apart,
  Spread-Outside, next_pointer_lem, set_previous_lem, set_next_lem,
}
use precision_gc.Sweep.Free.{FreeLaws}
use precision_gc.Sweep.Anchor.{Anchor, relinked}
use precision_gc.Sweep.Drop.{Dropped, drop_Dropped}
use precision_gc.Types.{Liballocs}
use precision_gc.Malloc.{Gc, returns, post}
use precision_gc.Realloc.{set_link, set_back, remove_block, gc_realloc}
use precision_gc.Realloc.Place.{SameBut, Place, Spread-suffix, heap_place, old_previous}

module _ {v : Layout} {m : Memory} where
  pub set_link_lem :
      {q l : ℕ} {xs : List Block} (w : ℕ) → Anchor v m q l xs → set_link v q w m ≡ store m l w
  unfolding set_link
  set_link_lem {q} {l} w anchor = elim anchor.place [
    | inl (first, cell) ↦ rw (first, ==_self v.heap_list_head, cell) refl
    | inr (y, b, off, first, cell, _, _) ↦
        rw
          (
            first,
            ==_ne y.addr v.heap_list_head (omega (arith, b.room, off)),
            set_next_lem b w,
            cell,
          )
          refl
  ]

module _ (v : Layout) (m : Memory) where
  pub set_back_lem :
      (q l next c w : ℕ) (zs : List Block)
      → Chain v m c next zs
      → All (λ z. z.mark ≡ false) zs
      → set_back v next w (store m l q) ≡ relinked w zs (store m l q)
  unfolding set_back store
  set_back_lem q l next c w [] e clean = rw e refl
  set_back_lem q l next c w (z ∷ zs) (e, b, _, _) (unmarked, _) =
      rw (e, ==_ne z.addr 0 b.ne_null)
        (set_previous_lem (IsBlock-same v m (store m l q) b refl refl) w
          ∙ ap (store (store m l q) (z.insert - 16)) (omega (arith, ap bit unmarked)))

  pub prefix-SameBut :
      (l : ℕ) (n : Memory) (ys : List Block) (x : Block) (zs : List Block)
      → All (IsBlock v m) (ys ++ x ∷ zs)
      → Spread v (ys ++ x ∷ zs)
      → ((y : Block) → IsBlock v m y → Apart y x → All (Apart y) zs → SameBut l m n y)
      → All (SameBut l m n) ys
  prefix-SameBut l n [] x zs bs s k = tt
  prefix-SameBut l n (y ∷ ys) x zs bs s k =
      let far = All-suffix (Apart y) ys (x ∷ zs) s.1 in
      (k y bs.0 far.0 far.1, prefix-SameBut l n ys x zs bs.1 s.2 k)

Spread-remove :
    (v : Layout) (ys : List Block) (x : Block) (zs : List Block)
    → Spread v (ys ++ x ∷ zs)
    → Spread v (ys ++ zs)
Spread-remove v [] x zs s = s.2
Spread-remove v (y ∷ ys) x zs s = (
  s.0,
  All-append (Apart y) ys zs (All-prefix (Apart y) ys (x ∷ zs) s.1)
      (All-suffix (Apart y) ys (x ∷ zs) s.1).1,
  Spread-remove v ys x zs s.2,
)

module _ (v : Layout) (lib : Liballocs) (mymalloc : ℕ → Memory → ℕ × Memory)
    (myrealloc : ℕ → ℕ → Memory → ℕ × Memory) (free : ℕ → Memory → Memory) (laws : FreeLaws v free)
    (ys : List Block) (x : Block) (zs : List Block) where
  module _ (m : Memory) (heap : IsHeap v m (ys ++ x ∷ zs))
      (clean : All (λ y. y.mark ≡ false) (ys ++ x ∷ zs)) where
    abbrev head : ℕ
    head = v.heap_list_head

    abbrev place : Place v m head head ys x zs
    place = heap_place v m ys x zs heap

    abbrev chain : Chain v m place.previous (m.word place.cell) (x ∷ zs)
    chain = place.rest

    abbrev next : ℕ
    next = m.word (x.insert - 8)

    abbrev spread : Spread v (x ∷ zs)
    spread = Spread-suffix v ys x zs heap.spread

    abbrev removed : Memory
    removed = free x.addr (relinked place.previous zs (store m place.cell next))

    remove_block_lem : remove_block v lib mymalloc myrealloc free x.addr m ≡ removed
    unfolding remove_block
    remove_block_lem =
        rw
          (
            old_previous v m ys x zs heap clean,
            next_pointer_lem chain.1,
            set_link_lem next place.anchor,
          )
          (ap (free x.addr) (
            set_back_lem v m next place.cell next x.addr place.previous zs chain.3
              (All-suffix (λ y. y.mark ≡ false) ys (x ∷ zs) clean).1))

    dropped : Dropped v m removed place.previous place.cell x zs
    dropped = drop_Dropped v free laws m place.previous place.cell x zs chain spread place.anchor

    removed-SameBut : All (SameBut place.cell m removed) ys
    removed-SameBut =
        prefix-SameBut v m place.cell removed ys x zs
          (Chain-IsBlock v m _ _ (ys ++ x ∷ zs) heap.chain) heap.spread
          (λ y b o far. record {
            live =
                dropped.live y.addr
                ∙ rw (==_ne _ _ (ne_of_Apart x y chain.1.room b.room (omega arith))) refl;
            usable = dropped.usable y b (omega arith);
            words = dropped.words y b (omega arith) far;
          })

    removed-IsHeap : IsHeap v removed (ys ++ zs)
    removed-IsHeap = record {
      chain =
          place.rebuild removed zs removed-SameBut
            (dropped.head (Spread-Outside v zs spread.2) spread.0) (rw dropped.at dropped.chain);
      spread = Spread-remove v ys x zs heap.spread;
      even = heap.even;
      below = heap.below;
    }

    removed-user : All (UserSame m removed) (ys ++ zs)
    removed-user =
        All-append (UserSame m removed) ys zs
          (All-both ys (λ y same off a lo hi. same.words a lo (omega arith) (off a lo hi))
            removed-SameBut place.user)
          dropped.user

  -- With no block marked and the semaphore free, gc_realloc of a listed block to size 0 returns NULL:
  -- the block alone leaves the heap list and is freed, every other block keeps the program's bytes,
  -- and the semaphore is free again.
  pub gc_realloc-remove :
      (s : Gc)
      → s.mutex ≢ 0
      → IsHeap v s.memory (ys ++ x ∷ zs)
      → All (λ y. y.mark ≡ false) (ys ++ x ∷ zs)
      → (t : Gc) × (gc_realloc v lib mymalloc myrealloc free x.addr 0 s ≡ returns 0 t)
        × IsHeap v t.memory (ys ++ zs)
        × ((q : ℕ) → t.memory.live q ≡ (if q == x.addr then false else s.memory.live q))
        × All (UserSame s.memory t.memory) (ys ++ zs)
        × (t.mutex ≡ s.mutex)
  unfolding gc_realloc post
  gc_realloc-remove s posted heap clean =
      let m = s.memory in
      let e = remove_block_lem m heap clean in
      let b = (heap_place v m ys x zs heap).rest.1 in
      (
        record s { memory = removed m heap clean; mutex = s.mutex - 1 + 1 },
        rw (==_ne x.addr 0 b.ne_null, ==_ne s.mutex 0 posted, e) refl,
        removed-IsHeap m heap clean,
        (dropped m heap clean).live,
        removed-user m heap clean,
        omega arith,
      )
