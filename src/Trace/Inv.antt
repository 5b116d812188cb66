-- ===== src/Trace/Inv.antt =====
-- What holds while the heap is traversed, and how a round keeps it.
use mathlib.Core.List.{Memᴰ}
use mathlib.Core.List.Memᴰ
use precision_gc.Base.{
  ℕ, ◌+◌, ◌-◌, ◌≤◌, ◌≡◌, refl, sym, ap, ◌∙◌, ◌≢◌, ◌↔◌, ◌⊎◌, inl, inr, Bool, true, false, not, ◌&&◌,
  none, List, [], ◌∷◌, ◌++◌, arith, length, All, Bool-cases, subst, ==_iff, ==_ne, ◌==◌,
  if◌then◌else◌,
}
use precision_gc.Heap.{
  Memory, Layout, store, insert_address, previous_pointer, set_previous, marked, mark_block,
}
use precision_gc.Heap.Blocks.{Block, IsHeap, Chain-IsBlock}
use precision_gc.Heap.Flags.{
  has, flagged, mark_at, flagged-mark_at, SameSpots, SameSpots-mark_at, has-SameSpots,
  All-SameSpots,
}
use precision_gc.Heap.Marks.{cell_of_has, marked-flagged, previous_pointer-le, mark_block-IsHeap}
use precision_gc.Types.{done, Liballocs, process_heap_object_recursive}
use precision_gc.Types.Object.{process_heap_object_recursive-Scanned}
use precision_gc.Trace.{sentinel, is_untraced}
use precision_gc.Trace.Graph.{Foreign, HeapGraph, Points, Reach, step}

-- The children of the blocks that are not marked yet.
abbrev pub pending : (ℕ → List ℕ) → List Block → ℕ
pending children [] = 0
pending children (x ∷ xs) = (if x.mark then 0 else length (children x.addr)) + pending children xs

pub pending-mark_at :
    (children : ℕ → List ℕ) (o : ℕ) (xs : List Block)
    → has o xs ≡ true
    → flagged o xs ≡ false
    → pending children (mark_at o xs) + length (children o) ≤ pending children xs
pending-mark_at children o [] h f = cc
pending-mark_at children o (x ∷ xs) h f = elim (Bool-cases (x.addr == o)) [
  | inl at ↦ elim (Bool-cases x.mark) [
    | inl on ↦ cc (rw (at, on) at f)
    | inr off ↦ rw (at, off) (rw ((==_iff x.addr o).0 at) (omega arith))
  ]
  | inr off ↦ rw off (omega (arith, pending-mark_at children o xs (rw off at h) (rw off at f)))
]

-- `m` differs from `m₀` at most in previous pointers of the listed blocks.
pub record Calm (m₀ m : Memory) (xs : List Block) : Type 0 where
  pub words : (a : ℕ) → All (λ x. a ≢ x.insert - 16) xs → m.word a ≡ m₀.word a
  pub usable : (q : ℕ) → m.usable q ≡ m₀.usable q
  pub live : (q : ℕ) → m.live q ≡ m₀.live q

module _ (v : Layout) (m₀ : Memory) (xs₀ : List Block) (lib : Liballocs) (bigallocs : List ℕ)
    (depth : ℕ) (graph : HeapGraph v m₀ xs₀ lib bigallocs depth) (roots : List ℕ) where
  open graph use {children, scans, valid, clear}

  abbrev pub Reached : ℕ → Type 0
  Reached = Reach v m₀ xs₀ lib bigallocs (λ p. Memᴰ p roots)

  abbrev pub Alien : ℕ → Type 0
  Alien = Foreign v m₀ xs₀

  -- seen by the traversal: to be looked at, marked, or left alone
  abbrev pub Seen : List Block → List ℕ → ℕ → Type 0
  Seen xs queue p = Memᴰ p queue ⊎ (flagged p xs ≡ true) ⊎ Alien p

  pub record Inv (m : Memory) (xs : List Block) (queue : List ℕ) : Type 0 where
    pub heap : IsHeap v m xs
    pub spots : SameSpots xs xs₀
    pub calm : Calm m₀ m xs₀
    pub known : (p : ℕ) → Memᴰ p queue → (has p xs₀ ≡ true) ⊎ Alien p
    pub queued : (p : ℕ) → Memᴰ p queue → Reached p
    pub sound : (p : ℕ) → flagged p xs ≡ true → Reached p
    pub closed : (o p : ℕ) → flagged o xs ≡ true → Memᴰ p (children o) → Seen xs queue p
    pub rooted : (p : ℕ) → Memᴰ p roots → Seen xs queue p

  pub untraced-flagged :
      (m : Memory) (xs : List Block) (queue : List ℕ) (o : ℕ)
      → Inv m xs queue
      → has o xs₀ ≡ true
      → is_untraced v m o ≡ not (flagged o xs)
  unfolding is_untraced
  untraced-flagged m xs queue o inv h =
      let at = has-SameSpots o xs xs₀ inv.spots ∙ h in
      let low = previous_pointer-le v m o v.heap_list_head _ xs inv.heap.chain inv.heap.below at in
      rw
        (
          marked-flagged v m o v.heap_list_head _ xs inv.heap.chain inv.heap.even inv.heap.spread
              at,
          ==_ne (previous_pointer v m o) sentinel (omega arith),
        )
        (and_true (not (flagged o xs)))
    where
      and_true : (b : Bool) → (b && true) ≡ b
      and_true true = refl
      and_true false = refl

  Calm-insert_address :
      (m : Memory) (o : ℕ) → Calm m₀ m xs₀ → insert_address v m o ≡ insert_address v m₀ o
  unfolding insert_address
  Calm-insert_address m o calm = ap (λ u. v.insert_for o u - 16) (calm.usable o)

  Alien-previous :
      (m : Memory) (o : ℕ) → Calm m₀ m xs₀ → Alien o → previous_pointer v m o ≡ sentinel
  unfolding previous_pointer
  Alien-previous m o calm alien =
      ap m.word (Calm-insert_address m o calm)
      ∙ calm.words (insert_address v m₀ o) alien.elsewhere
      ∙ alien.previous

  pub untraced-Alien : (m : Memory) (o : ℕ) → Calm m₀ m xs₀ → Alien o → is_untraced v m o ≡ false
  unfolding is_untraced
  untraced-Alien m o calm alien =
      rw (Alien-previous m o calm alien) (and_false (not (marked v m o)))
    where
      and_false : (b : Bool) → (b && false) ≡ false
      and_false true = refl
      and_false false = refl

  -- an object that is passed over leaves the queue, and the rest stands
  pub Inv-skip :
      (m : Memory) (xs : List Block) (queue : List ℕ) (o : ℕ)
      → Inv m xs (o ∷ queue)
      → (flagged o xs ≡ true) ⊎ Alien o
      → Inv m xs queue
  Inv-skip m xs queue o inv why = record {
    heap = inv.heap;
    spots = inv.spots;
    calm = inv.calm;
    known = λ p at. inv.known p (Memᴰ.tail at);
    queued = λ p at. inv.queued p (Memᴰ.tail at);
    sound = inv.sound;
    closed = λ c p on at. drop p (inv.closed c p on at);
    rooted = λ p at. drop p (inv.rooted p at);
  }
    where
      drop : (p : ℕ) → Seen xs (o ∷ queue) p → Seen xs queue p
      drop p (inr seen) = inr seen
      drop p (inl at) = elim (Memᴰ.cases_cons at) [
        | inl e ↦ inr (subst (λ k. (flagged k xs ≡ true) ⊎ Alien k) (sym e) why)
        | inr later ↦ inl later
      ]

  -- The children are what the pointer fields point to.
  pub children-Points :
      (o p : ℕ) → has o xs₀ ≡ true → Memᴰ p (children o) ↔ Points v m₀ xs₀ lib bigallocs o p
  children-Points o p h =
      let s =
        process_heap_object_recursive-Scanned lib bigallocs depth m₀ o [] (children o)
          (scans o h) in
      (
        λ at. (s.exact p).0 (subst (Memᴰ p) s.result at),
        λ at. subst (Memᴰ p) (sym s.result) ((s.exact p).1 at),
      )

  children-valid : (o p : ℕ) → has o xs₀ ≡ true → Memᴰ p (children o) → (has p xs₀ ≡ true) ⊎ Alien p
  children-valid o p h at = let (a, _, _, ok) = (children-Points o p h).0 at in valid p ok

  -- In the changed memory the scan of an object finds the same children.
  pub rescan :
      (m : Memory) (o : ℕ) (queue : List ℕ)
      → Calm m₀ m xs₀
      → has o xs₀ ≡ true
      → process_heap_object_recursive lib bigallocs m depth o none queue
        ≡ done (queue ++ children o)
  rescan m o queue calm h =
      let s =
        process_heap_object_recursive-Scanned lib bigallocs depth m₀ o [] (children o)
          (scans o h) in
      s.again m queue (λ a at. calm.words a (clear o a h at))
      ∙ ap (λ l. done (queue ++ l)) (sym s.result)

  Calm-mark_block :
      (m : Memory) (xs : List Block) (o : ℕ)
      → IsHeap v m xs
      → SameSpots xs xs₀
      → has o xs ≡ true
      → Calm m₀ m xs₀
      → Calm m₀ (mark_block v m o) xs₀
  unfolding mark_block set_previous store
  Calm-mark_block m xs o heap spots at calm = record {
    words = λ a off.
        let ne =
          cell_of_has v m (λ c. a ≢ c) o xs at (Chain-IsBlock v m _ _ xs heap.chain)
            (All-SameSpots (λ _ insert. a ≢ insert - 16) xs xs₀ spots off) in
        rw (==_ne _ _ ne) (calm.words a off);
    usable = calm.usable;
    live = calm.live;
  }

  -- an object that is scanned and marked
  pub Inv-mark :
      (m : Memory) (xs : List Block) (queue : List ℕ) (o : ℕ)
      → Inv m xs (o ∷ queue)
      → has o xs₀ ≡ true
      → Inv (mark_block v m o) (mark_at o xs) (queue ++ children o)
  Inv-mark m xs queue o inv h =
      let at = has-SameSpots o xs xs₀ inv.spots ∙ h in
      record {
        heap = mark_block-IsHeap v m o xs inv.heap at;
        spots = SameSpots-mark_at o xs xs₀ inv.spots;
        calm = Calm-mark_block m xs o inv.heap inv.spots at inv.calm;
        known = λ p q. elim (Memᴰ.append_cases queue q) [
          | inl old ↦ inv.known p (Memᴰ.tail old)
          | inr new ↦ children-valid o p h new
        ];
        queued = λ p q. elim (Memᴰ.append_cases queue q) [
          | inl old ↦ inv.queued p (Memᴰ.tail old)
          | inr new ↦ step (inv.queued o (Memᴰ.head refl)) h ((children-Points o p h).0 new)
        ];
        sound = λ p on. elim (flagged_now p on) [
          | inl old ↦ inv.sound p old
          | inr e ↦ subst Reached (sym e) (inv.queued o (Memᴰ.head refl))
        ];
        closed = λ c p on q. elim (flagged_now c on) [
          | inl old ↦ keep p (inv.closed c p old q)
          | inr e ↦ inl (Memᴰ.append_right queue (subst (λ k. Memᴰ p (children k)) e q))
        ];
        rooted = λ p q. keep p (inv.rooted p q);
      }
    where
      flagged_now : (p : ℕ) → flagged p (mark_at o xs) ≡ true → (flagged p xs ≡ true) ⊎ (p ≡ o)
      flagged_now p on = ground (arith, flagged-mark_at p o xs)

      still : (p : ℕ) → flagged p xs ≡ true → flagged p (mark_at o xs) ≡ true
      still p on = ground (arith, flagged-mark_at p o xs)

      itself : flagged o (mark_at o xs) ≡ true
      itself = ground (arith, flagged-mark_at o o xs, has-SameSpots o xs xs₀ inv.spots)

      keep : (p : ℕ) → Seen xs (o ∷ queue) p → Seen (mark_at o xs) (queue ++ children o) p
      keep p (inr (inl on)) = inr (inl (still p on))
      keep p (inr (inr alien)) = inr (inr alien)
      keep p (inl q) = elim (Memᴰ.cases_cons q) [
        | inl e ↦ inr (inl (subst (λ k. flagged k (mark_at o xs) ≡ true) (sym e) itself))
        | inr later ↦ inl (Memᴰ.append_left (children o) later)
      ]
