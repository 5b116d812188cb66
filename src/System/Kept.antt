-- ===== src/System/Kept.antt =====
-- The invariant of a running program at each kind of step.
use precision_gc.Base.{
  ℕ, ◌≡◌, ◌≢◌, inl, inr, refl, sym, ap, ◌∙◌, false, List, [], ◌∷◌, ◌++◌, arith, All, All-mono,
  All-append, All-prefix, All-suffix, Bool-cases, ==_iff, ◌==◌, subst,
}
use precision_gc.Heap.{Memory, Layout}
use precision_gc.Heap.Blocks.{Block, IsBlock, IsHeap, Chain-same, Chain-IsBlock}
use precision_gc.Sweep.Free.{FreeLaws}
use precision_gc.Types.{Liballocs}
use precision_gc.Malloc.{Gc, Call, returns, gc_malloc}
use precision_gc.Malloc.Laws.{gc_malloc-cons}
use precision_gc.Realloc.{set_header, gc_realloc}
use precision_gc.Realloc.Refill.{IsResized, IsKept}
use precision_gc.Realloc.Remove.{gc_realloc-remove}
use precision_gc.Realloc.Resize.{gc_realloc-in_place, gc_realloc-moved, gc_realloc-fails}
use precision_gc.Collect.Whole.{gc_collect-Reach}
use precision_gc.System.{
  IsServed, OnList, IsOk, Collection, collection, Searched, at_once, collected,
}
use precision_gc.System.Listed.{OnList-has, Parted, part}

same_result : {r : Call} {p q : ℕ} {t u : Gc} → r ≡ returns p t → r ≡ returns q u → t ≡ u
same_result one two = cc

module _ (v : Layout) where
  abbrev Clean : List Block → Type 0
  Clean = All (λ x. x.mark ≡ false)

  result-IsOk :
      {r : Call} {p q : ℕ} {t u : Gc} (xs : List Block)
      → r ≡ returns p u
      → r ≡ returns q t
      → IsHeap v u.memory xs
      → Clean xs
      → u.mutex ≢ 0
      → IsOk v t
  result-IsOk xs one two heap clean free =
      subst (IsOk v) (same_result one two)
        (record { blocks = xs; heap = heap; clean = clean; free = free })

  served-IsHeap :
      (m n : Memory) (x : Block) (xs : List Block)
      → IsServed v m n x
      → IsHeap v m xs
      → IsHeap v n xs
  served-IsHeap m n x xs served heap =
      let bs = Chain-IsBlock v m _ _ xs heap.chain in
      record {
        chain = rw served.head (
            Chain-same v m n v.heap_list_head (m.word v.heap_list_head) xs heap.chain
              (All-mono xs served.same bs));
        spread = heap.spread;
        even = heap.even;
        below = heap.below;
      }

  same-IsResized :
      (m n : Memory) (x b y : Block)
      → b.addr ≡ x.addr
      → b.insert ≡ x.insert
      → IsResized v m n x y
      → IsResized v m n b y
  same-IsResized m n x b y ea ei r = record {
    same = λ z bz o. r.same z bz (omega arith);
    head = r.head;
    block = r.block;
    off = r.off;
    apart = λ z bz o. r.apart z bz (omega arith);
    unmarked = r.unmarked;
  }

  swap-Clean :
      (ys : List Block) (x y : Block) (zs : List Block)
      → Clean (ys ++ x ∷ zs)
      → y.mark ≡ false
      → Clean (ys ++ y ∷ zs)
  swap-Clean ys x y zs clean unmarked =
      All-append (λ z. z.mark ≡ false) ys (y ∷ zs)
        (All-prefix (λ z. z.mark ≡ false) ys (x ∷ zs) clean)
        (unmarked, (All-suffix (λ z. z.mark ≡ false) ys (x ∷ zs) clean).1)

  module _ (lib : Liballocs) (mymalloc : ℕ → Memory → ℕ × Memory)
      (myrealloc : ℕ → ℕ → Memory → ℕ × Memory) (free : ℕ → Memory → Memory)
      (laws : FreeLaws v free) where
    -- the list of a good state, parted at a pointer
    pub parted : (s : Gc) (ok : IsOk v s) (p : ℕ) → OnList v s.memory p → p ≢ 0 → Parted ok.blocks p
    parted s ok p on ne = part ok.blocks p (OnList-has v s.memory ok.blocks ok.heap p on ne)

    -- unmarked blocks on the heap list
    abbrev CleanHeap : Memory → Type 0
    CleanHeap m = (xs : List Block) × IsHeap v m xs × Clean xs

    module _ (s : Gc) (ok : IsOk v s) where
      Collection-CleanHeap :
          (m : Memory) → Collection v lib mymalloc myrealloc free s m → CleanHeap m
      Collection-CleanHeap _ (collection fuel r words count c scannable ready run) =
          let known = ready ok.blocks ok.heap in
          let (u, zs, runs, kept, _, _, _) =
            gc_collect-Reach v lib free fuel r
              (record {
                memory = s.memory;
                bigallocs = s.bigallocs;
                queue = [];
                num_collections = count;
                running = false;
              })
              ok.blocks words known.graph laws scannable ok.heap ok.clean refl known.mark
              known.sweep in
          let same : u ≡ c = cc in
          (zs, subst (λ k. IsHeap v k zs) (ap (λ k. k.memory) same) kept.heap, kept.clean)

      Searched-CleanHeap : (m : Memory) → Searched v lib mymalloc myrealloc free s m → CleanHeap m
      Searched-CleanHeap _ at_once = (ok.blocks, ok.heap, ok.clean)
      Searched-CleanHeap m (collected c) = Collection-CleanHeap m c

      pub allocate-IsOk :
          (t : Gc) (size : ℕ) (m n : Memory) (x : Block)
          → Searched v lib mymalloc myrealloc free s m
          → mymalloc size s.memory ≡ (x.addr, n)
          → IsServed v m n x
          → gc_malloc v lib mymalloc size s ≡ returns x.addr t
          → IsOk v t
      allocate-IsOk t size m n x searched given served run =
          let (xs, left, clean) = Searched-CleanHeap m searched in
          let bs = Chain-IsBlock v m _ _ xs left.chain in
          let (u, runs, heap, _, _, mutex, _) =
            gc_malloc-cons v lib mymalloc size s n x xs ok.free given
              (served-IsHeap m n x xs served left) clean
              (record {
                block = served.block;
                apart = All-mono xs served.apart bs;
                off = served.off;
                unmarked = served.unmarked;
              }) in
          result-IsOk (x ∷ xs) runs run heap (served.unmarked, clean) (λ e. ok.free (sym mutex ∙ e))

      pub collect-IsOk :
          (t : Gc) {m : Memory}
          → Collection v lib mymalloc myrealloc free s m
          → t ≡ record s { memory = m }
          → IsOk v t
      collect-IsOk t {m} c e =
          let (zs, heap, clean) = Collection-CleanHeap m c in
          subst (IsOk v) (sym e)
            (record { blocks = zs; heap = heap; clean = clean; free = ok.free })

      module _ {p : ℕ} (c : Parted ok.blocks p) where
        parted-IsHeap : IsHeap v s.memory (c.before ++ c.block ∷ c.behind)
        parted-IsHeap = subst (IsHeap v s.memory) (sym c.whole) ok.heap

        parted-Clean : Clean (c.before ++ c.block ∷ c.behind)
        parted-Clean = subst Clean (sym c.whole) ok.clean

        parted-IsBlock : IsBlock v s.memory c.block
        parted-IsBlock =
            (All-suffix (IsBlock v s.memory) c.before (c.block ∷ c.behind)
              (Chain-IsBlock v s.memory _ _ (c.before ++ c.block ∷ c.behind) parted-IsHeap.chain)).0

        pub release-IsOk :
            (t : Gc) → gc_realloc v lib mymalloc myrealloc free p 0 s ≡ returns 0 t → IsOk v t
        release-IsOk t run =
            let (u, runs, heap, _, _, mutex) =
              gc_realloc-remove v lib mymalloc myrealloc free laws c.before c.block c.behind s
                ok.free parted-IsHeap parted-Clean in
            result-IsOk (c.before ++ c.behind)
              (subst (λ q. gc_realloc v lib mymalloc myrealloc free q 0 s ≡ returns 0 u) c.addr
                runs)
              run heap
              (All-append (λ z. z.mark ≡ false) c.before c.behind
                (All-prefix (λ z. z.mark ≡ false) c.before (c.block ∷ c.behind) parted-Clean)
                (All-suffix (λ z. z.mark ≡ false) c.before (c.block ∷ c.behind) parted-Clean).1)
              (λ e. ok.free (sym mutex ∙ e))

        pub exhaust-IsOk :
            (t : Gc) (size : ℕ) (n : Memory)
            → size ≢ 0
            → myrealloc p size (set_header v p 0 0 s.memory) ≡ (0, n)
            → IsKept v (set_header v p 0 0 s.memory) n
            → gc_realloc v lib mymalloc myrealloc free p size s ≡ returns 0 t
            → IsOk v t
        exhaust-IsOk t size n some_ given kept run =
            let (u, runs, heap, _, _, mutex) =
              gc_realloc-fails v lib mymalloc myrealloc free c.before c.block c.behind size s n
                some_ ok.free parted-IsHeap parted-Clean
                (subst (λ q. myrealloc q size (set_header v q 0 0 s.memory) ≡ (0, n)) (sym c.addr)
                  given)
                (subst (λ q. IsKept v (set_header v q 0 0 s.memory) n) (sym c.addr) kept) in
            result-IsOk (c.before ++ c.block ∷ c.behind)
              (subst (λ q. gc_realloc v lib mymalloc myrealloc free q size s ≡ returns 0 u) c.addr
                runs)
              run heap parted-Clean (λ e. ok.free (sym mutex ∙ e))

        -- in place or not, the list has the new block where it had the old one
        replace-IsOk :
            (t : Gc) (y : Block) (size : ℕ) (n : Memory)
            → size ≢ 0
            → myrealloc c.block.addr size (set_header v c.block.addr 0 0 s.memory) ≡ (y.addr, n)
            → IsResized v (set_header v c.block.addr 0 0 s.memory) n c.block y
            → gc_realloc v lib mymalloc myrealloc free c.block.addr size s ≡ returns y.addr t
            → IsOk v t
        replace-IsOk t y size n some_ given resized run =
            let clean' = swap-Clean c.before c.block y c.behind parted-Clean resized.unmarked in
            elim (Bool-cases (c.block.addr == y.addr)) [
              | inl same ↦
                  let (u, runs, heap, _, _, mutex) =
                    gc_realloc-in_place v lib mymalloc myrealloc free c.before c.block c.behind size
                      s n some_ ok.free parted-IsHeap parted-Clean y given resized
                      ((==_iff c.block.addr y.addr).0 same) in
                  result-IsOk (c.before ++ y ∷ c.behind) runs run heap clean'
                    (λ e. ok.free (sym mutex ∙ e))
              | inr other ↦
                  let (u, runs, heap, _, _, _, mutex) =
                    gc_realloc-moved v lib mymalloc myrealloc free c.before c.block c.behind size s
                      n some_ ok.free parted-IsHeap parted-Clean y given resized
                      (λ e. cc ((==_iff c.block.addr y.addr).1 e)) in
                  result-IsOk (c.before ++ y ∷ c.behind) runs run heap clean'
                    (λ e. ok.free (sym mutex ∙ e))
            ]

        pub resize-IsOk :
            (t : Gc) (x y : Block) (size : ℕ) (n : Memory)
            → x.addr ≡ p
            → IsBlock v s.memory x
            → size ≢ 0
            → myrealloc x.addr size (set_header v x.addr 0 0 s.memory) ≡ (y.addr, n)
            → IsResized v (set_header v x.addr 0 0 s.memory) n x y
            → gc_realloc v lib mymalloc myrealloc free x.addr size s ≡ returns y.addr t
            → IsOk v t
        resize-IsOk t x y size n at b some_ given resized run =
            let ea : c.block.addr ≡ x.addr = c.addr ∙ sym at in
            let ei : c.block.insert ≡ x.insert =
              sym (parted-IsBlock.insert_eq)
              ∙ ap (λ q. v.insert_for q (s.memory.usable q)) ea
              ∙ b.insert_eq in
            replace-IsOk t y size n some_
              (subst (λ q. myrealloc q size (set_header v q 0 0 s.memory) ≡ (y.addr, n)) (sym ea)
                given)
              (subst (λ q. IsResized v (set_header v q 0 0 s.memory) n c.block y) (sym ea)
                (same-IsResized (set_header v x.addr 0 0 s.memory) n x c.block y ea ei resized))
              (subst (λ q. gc_realloc v lib mymalloc myrealloc free q size s ≡ returns y.addr t)
                (sym ea) run)
