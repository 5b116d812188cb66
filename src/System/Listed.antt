-- ===== src/System/Listed.antt =====
-- The pointers that the heap list leads to, and its blocks.
use precision_gc.Base.{
  ℕ, ◌-◌, ◌≡◌, ◌≢◌, ◌⊎◌, inl, inr, refl, sym, ap, ◌∙◌, true, List, [], ◌∷◌, ◌++◌, arith, All,
  Bool-cases, ==_iff, ==_ne, ◌==◌, All-mono,
}
use precision_gc.Heap.{Memory, Layout, store, next_pointer}
use precision_gc.Heap.Blocks.{
  Block, IsBlock, IsHeap, Chain, next_pointer_lem, IsBlock-same, Chain-IsBlock,
}
use precision_gc.Heap.Flags.{has}
use precision_gc.System.{OnList, first, next}

module _ (v : Layout) (m : Memory) where
  Chain-head : (p c : ℕ) (xs : List Block) → Chain v m p c xs → (c ≡ 0) ⊎ (has c xs ≡ true)
  Chain-head p c [] h = inl h
  Chain-head p c (x ∷ xs) (e, _, _, _) = inr (ground arith)

  Chain-next :
      (p c q : ℕ) (xs : List Block)
      → Chain v m p c xs
      → has q xs ≡ true
      → (next_pointer v m q ≡ 0) ⊎ (has (next_pointer v m q) xs ≡ true)
  Chain-next p c q [] h at = cc
  Chain-next p c q (x ∷ xs) (e, b, _, rest) at = elim (Bool-cases (x.addr == q)) [
    | inl here ↦
        let e' = ap (next_pointer v m) (sym ((==_iff x.addr q).0 here)) ∙ next_pointer_lem b in
        elim (Chain-head x.addr (m.word (x.insert - 8)) xs rest) [
          | inl end ↦ inl (e' ∙ end)
          | inr more ↦ inr (ground (arith, e'))
        ]
    | inr later ↦ elim (Chain-next x.addr (m.word (x.insert - 8)) q xs rest (ground arith)) [
      | inl end ↦ inl end
      | inr more ↦ inr (ground arith)
    ]
  ]

  OnList-cases :
      (xs : List Block) → IsHeap v m xs → (p : ℕ) → OnList v m p → (p ≡ 0) ⊎ (has p xs ≡ true)
  OnList-cases xs heap _ first = Chain-head v.heap_list_head _ xs heap.chain
  OnList-cases xs heap _ (next {p} on ne) = elim (OnList-cases xs heap p on) [
    | inl null ↦ absurd (ne null)
    | inr at ↦ Chain-next v.heap_list_head _ p xs heap.chain at
  ]

  pub OnList-has :
      (xs : List Block) → IsHeap v m xs → (p : ℕ) → OnList v m p → p ≢ 0 → has p xs ≡ true
  OnList-has xs heap p on ne = elim (OnList-cases xs heap p on) [
    | inl null ↦ absurd (ne null)
    | inr at ↦ at
  ]

-- a list parted at a block
pub record Parted (xs : List Block) (p : ℕ) : Type 0 where
  pub before : List Block
  pub block : Block
  pub behind : List Block
  pub addr : block.addr ≡ p
  pub whole : before ++ block ∷ behind ≡ xs

pub part : (xs : List Block) (p : ℕ) → has p xs ≡ true → Parted xs p
part [] p h = cc
part (x ∷ xs) p h = elim (Bool-cases (x.addr == p)) [
  | inl here ↦ record {
    before = [];
    block = x;
    behind = xs;
    addr = (==_iff x.addr p).0 here;
    whole = refl;
  }
  | inr later ↦
      let rest = part xs p (ground arith) in
      record {
        before = x ∷ rest.before;
        block = rest.block;
        behind = rest.behind;
        addr = rest.addr;
        whole = ap (λ ys. x ∷ ys) rest.whole;
      }
]

-- A store outside heap_list_head and the headers leaves the list as it is.
module _ (v : Layout) (m : Memory) (a w : ℕ) where
  abbrev NoHeader : Block → Type 0
  NoHeader x = (a ≢ x.insert - 16) × (a ≢ x.insert - 8)

  Chain-store :
      (p c : ℕ) (xs : List Block)
      → Chain v m p c xs
      → All NoHeader xs
      → Chain v (store m a w) p c xs
  unfolding store
  Chain-store p c [] h o = h
  Chain-store p c (x ∷ xs) (e, b, back, rest) ((one, two), os) = (
    e,
    IsBlock-same v m (store m a w) b refl refl,
    rw (==_ne (x.insert - 16) a (λ h. one (sym h))) back,
    rw (==_ne (x.insert - 8) a (λ h. two (sym h)))
        (Chain-store x.addr (m.word (x.insert - 8)) xs rest os),
  )

  pub store-IsHeap :
      (xs : List Block)
      → a ≢ v.heap_list_head
      → ((x : Block) → IsBlock v m x → NoHeader x)
      → IsHeap v m xs
      → IsHeap v (store m a w) xs
  unfolding store
  store-IsHeap xs ne safe heap =
      let bs = Chain-IsBlock v m _ _ xs heap.chain in
      record {
        chain = rw (==_ne v.heap_list_head a (λ h. ne (sym h))) (
            Chain-store v.heap_list_head (m.word v.heap_list_head) xs heap.chain
              (All-mono xs safe bs));
        spread = heap.spread;
        even = heap.even;
        below = heap.below;
      }
