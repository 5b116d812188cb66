-- ===== src/Dlmalloc/Small/Unlink.antt =====
-- unlink_small_chunk of dlmalloc.c takes a chunk out of the bin of its size, wherever it stands there.
use precision_gc.Base.{
  ℕ, zero, suc, ◌+◌, ◌*◌, ◌/◌, ◌%◌, ◌≡◌, refl, sym, ◌∙◌, ◌≢◌, ◌≤◌, ◌⊎◌, inl, inr, arith, Bool, true,
  false, ◌&&◌, ◌||◌, List, [], ◌∷◌, ◌++◌, All, All-mono, All-prefix, All-suffix, ◌==◌, ==_self,
  ==_ne, leb,
}
use precision_gc.Types.{done}
use precision_gc.Dlmalloc.{Mstate, fd, bk, put, set_fd, set_bk}
use precision_gc.Dlmalloc.Bins.{
  small_index, smallbin_at, smallmap_is_marked, clear_smallmap, is_marked, unmark,
}
use precision_gc.Dlmalloc.Small.{unlink_small_chunk}
use precision_gc.Dlmalloc.Small.Relink.{
  first_of, Related, KeepsBack, relink, joined, joined-links, keeps_front, keeps_back, Related-last,
  Others, joined-Others,
}
use precision_gc.Dlmalloc.Small.Ring.{
  Chain, Ring, Apart, AllApart, IsBin, Chain-cut, Chain-bk, occupied, last_of, sym_apart, All-last,
  AllApart-split,
}

marked-unmark : (i x : ℕ) → is_marked i (unmark i x) ≡ false
unfolding is_marked unmark
marked-unmark zero x = ground arith
marked-unmark (suc i) x =
    let e : (unmark i (x / 2) * 2 + x % 2) / 2 ≡ unmark i (x / 2) = omega arith in
    rw e (marked-unmark i (x / 2))

ring-chain :
    (s : Mstate) (b p : ℕ) (xs ys : List ℕ)
    → Ring s b (xs ++ (p ∷ ys))
    → Chain s b (xs ++ (p ∷ ys)) b
ring-chain s b p [] ys h = h
ring-chain s b p (x ∷ xs) ys h = h

chain-ring : (s : Mstate) (b : ℕ) (xs : List ℕ) → Chain s b xs b → Ring s b xs
chain-ring s b [] h = tt
chain-ring s b (x ∷ xs) h = h

module _ (s : Mstate) (b p : ℕ) where
  -- one of the two checks of a neighbour, which is the bin or a valid chunk that points back
  abbrev behind_ok : ℕ → Bool
  behind_ok f = f == b || (leb s.least_addr f && (bk s f == p))

  abbrev before_ok : ℕ → Bool
  before_ok l = l == b || (leb s.least_addr l && (fd s l == p))

  behind-checked :
      (ys : List ℕ)
      → Chain s p ys b
      → All (λ x. s.least_addr ≤ x) ys
      → behind_ok (first_of ys b) ≡ true
  behind-checked [] c valid = rw (==_self b) refl
  behind-checked (y ∷ ys) c valid = ground (arith, c.1, valid.0)

  before-checked :
      (a : ℕ) (xs : List ℕ)
      → Chain s a xs p
      → (a ≡ b) ⊎ (s.least_addr ≤ a)
      → All (λ x. s.least_addr ≤ x) xs
      → before_ok (last_of a xs) ≡ true
  before-checked a [] c (inl at) valid = ground (arith, at)
  before-checked a [] c (inr ok) valid = ground (arith, ok, c.0)
  before-checked a (x ∷ xs) c at valid = before-checked x xs c.2 (inr valid.0) valid.1

-- both stores happen when the checks hold and the neighbours differ
unlink-joined :
    (s : Mstate) (p size l f : ℕ)
    → fd s p ≡ f
    → bk s p ≡ l
    → l ≢ f
    → behind_ok s (smallbin_at s (small_index size)) p f ≡ true
    → before_ok s (smallbin_at s (small_index size)) p l ≡ true
    → unlink_small_chunk p size s ≡ done (joined s l f)
unfolding unlink_small_chunk
unlink-joined s p size l f ef el ne behind before =
    rw ef (rw el (rw behind (rw (==_ne l f ne) (rw before refl))))

chain-first : (s : Mstate) (p b : ℕ) (ys : List ℕ) → Chain s p ys b → fd s p ≡ first_of ys b
chain-first s p b [] c = c.0
chain-first s p b (y ∷ ys) c = c.0

All-remove {ℓ} :
    (P : ℕ → Type ℓ) (p : ℕ) (xs ys : List ℕ) → All P (xs ++ (p ∷ ys)) → All P (xs ++ ys)
All-remove P p [] ys h = h.1
All-remove P p (x ∷ xs) ys h = (h.0, All-remove P p xs ys h.1)

AllApart-remove : (p : ℕ) (xs ys : List ℕ) → AllApart (xs ++ (p ∷ ys)) → AllApart (xs ++ ys)
AllApart-remove p [] ys h = h.1
AllApart-remove p (x ∷ xs) ys h = (All-remove (Apart x) p xs ys h.0, AllApart-remove p xs ys h.1)

occupied-remove : (p : ℕ) (xs ys : List ℕ) → occupied (xs ++ (p ∷ ys)) ≡ true
occupied-remove p [] ys = refl
occupied-remove p (x ∷ xs) ys = refl

module _ (p size : ℕ) (s : Mstate) (xs ys : List ℕ)
    (bin : IsBin s (small_index size) (xs ++ (p ∷ ys))) where
  abbrev bin_address : ℕ
  bin_address = smallbin_at s (small_index size)

  abbrev Unlinked : Type 0
  Unlinked =
      (t : Mstate) × (unlink_small_chunk p size s ≡ done t)
      × IsBin t (small_index size) (xs ++ ys)
      × Others s t (bin_address ∷ (xs ++ ys))

  halves : Chain s bin_address xs p × Chain s p ys bin_address
  halves = Chain-cut s bin_address p bin_address xs ys (ring-chain s bin_address p xs ys bin.chain)

  split :
      AllApart (bin_address ∷ xs)
      × AllApart (p ∷ ys)
      × All (λ x. All (Apart x) (p ∷ ys)) (bin_address ∷ xs)
  split = AllApart-split (bin_address ∷ xs) (p ∷ ys) bin.apart

  -- The chunk is not the last: its neighbours are joined.
  unlinked :
      first_of ys bin_address ≢ last_of bin_address xs
      → Related (last_of bin_address xs) (first_of ys bin_address)
      → All (λ x. Related x (first_of ys bin_address)) (bin_address ∷ xs)
      → All (λ x. x ≢ first_of ys bin_address) xs
      → KeepsBack s (joined s (last_of bin_address xs) (first_of ys bin_address)) ys bin_address
      → occupied (xs ++ ys) ≡ true
      → Unlinked
  unfolding set_fd set_bk put smallmap_is_marked
  unlinked ne rel all_rel all_ne back occ =
      let b = bin_address in
      let l = last_of bin_address xs in
      let f = first_of ys bin_address in
      let c = halves in
      let valid = bin.valid in
      let t = joined s (last_of bin_address xs) (first_of ys bin_address) in
      let links = joined-links s l f rel in
      let front = keeps_front s f b xs split.0 all_rel all_ne in
      let chain = relink s t b p b xs ys c.0 c.1 links.0 links.1 front back in
      (
        t,
        unlink-joined s p size l f (chain-first s p b ys c.1) (Chain-bk s b p xs c.0)
            (λ e. ne (sym e))
            (behind-checked s b p ys c.1 (All-suffix (λ x. s.least_addr ≤ x) xs (p ∷ ys) valid).1)
            (before-checked s b p b xs c.0 (inl refl)
              (All-prefix (λ x. s.least_addr ≤ x) xs (p ∷ ys) valid)),
        record {
          chain = chain-ring t b (xs ++ ys) chain;
          apart = AllApart-remove p (b ∷ xs) ys bin.apart;
          valid = All-remove (λ x. s.least_addr ≤ x) p xs ys valid;
          marked = bin.marked ∙ (occupied-remove p xs ys ∙ sym occ);
        },
        joined-Others s b xs ys,
      )

-- unlink_small_chunk returns for any chunk of the bin of the size, and the bin holds the others, in the
-- same order, its mark cleared with the last chunk. The links of no node but the bin's change.
pub unlink_small_chunk-IsBin :
    (p size : ℕ) (s : Mstate) (xs ys : List ℕ)
    → IsBin s (small_index size) (xs ++ (p ∷ ys))
    → (t : Mstate) × (unlink_small_chunk p size s ≡ done t)
      × IsBin t (small_index size) (xs ++ ys)
      × Others s t (smallbin_at s (small_index size) ∷ (xs ++ ys))
unfolding unlink_small_chunk clear_smallmap smallmap_is_marked
unlink_small_chunk-IsBin p size s [] [] bin =
    let b = smallbin_at s (small_index size) in
    (
      clear_smallmap (small_index size) s,
      rw bin.chain.2.0 (rw bin.chain.1 (rw (==_self b) refl)),
      record {
        chain = tt;
        apart = (tt, tt);
        valid = tt;
        marked = marked-unmark (small_index size) s.smallmap;
      },
      (refl, refl, λ x h. (refl, refl)),
    )
unlink_small_chunk-IsBin p size s (x ∷ xs) [] bin =
    let b = smallbin_at s (small_index size) in
    let apart = split p size s (x ∷ xs) [] bin in
    let end = All-last (Apart (smallbin_at s (small_index size))) x xs apart.0.0 in
    unlinked p size s (x ∷ xs) [] bin end.0 (inr (sym_apart end))
      (
        inl refl,
        All-mono {P = Apart b} {Q = λ x. Related x b} (x ∷ xs) (λ x h. inr (sym_apart h)) apart.0.0,
      )
      (All-mono {P = Apart b} {Q = λ x. x ≢ b} (x ∷ xs) (λ x h e. h.0 (sym e)) apart.0.0) tt refl
unlink_small_chunk-IsBin p size s xs (y ∷ ys) bin =
    let b = smallbin_at s (small_index size) in
    let apart = split p size s xs (y ∷ ys) bin in
    let nodes =
      All-mono {P = λ x. All (Apart x) (p ∷ y ∷ ys)} {Q = λ x. Apart x y} (b ∷ xs) (λ x h. h.1.0)
        apart.2 in
    let end = All-last (λ x. All (Apart x) (p ∷ y ∷ ys)) b xs apart.2 in
    unlinked p size s xs (y ∷ ys) bin (λ e. end.1.0.0 (sym e)) (inr end.1.0)
      (All-mono {P = λ x. Apart x y} {Q = λ x. Related x y} (b ∷ xs) (λ x h. inr h) nodes)
      (All-mono {P = λ x. Apart x y} {Q = λ x. x ≢ y} xs (λ x h. h.0) nodes.1)
      (keeps_back s (last_of b xs) b y ys end.1 apart.1.1.0 nodes.0 (Related-last b xs apart.0))
      (occupied-remove y xs ys)
