-- ===== src/Heap/Unique.antt =====
-- The heap list is a function of memory.
use precision_gc.Base.{
  ℕ, ◌-◌, ◌≡◌, refl, sym, ap, ◌∙◌, Bool, true, false, List, [], ◌∷◌, arith, bit, subst,
}
use precision_gc.Heap.{Memory, Layout}
use precision_gc.Heap.Blocks.{Block, Chain, IsHeap}

block_eq : {x y : Block} → x.addr ≡ y.addr → x.insert ≡ y.insert → x.mark ≡ y.mark → x ≡ y
block_eq a b c = λ i. record { addr = a i; insert = b i; mark = c i }

bit_inj : (b c : Bool) → bit b ≡ bit c → b ≡ c
bit_inj true true h = refl
bit_inj true false h = absurd (omega (arith, h))
bit_inj false true h = absurd (omega (arith, h))
bit_inj false false h = refl

module _ (v : Layout) (m : Memory) where
  Chain-unique : (p c : ℕ) (xs ys : List Block) → Chain v m p c xs → Chain v m p c ys → xs ≡ ys
  Chain-unique p c [] [] h k = refl
  Chain-unique p c [] (y ∷ ys) h (e, b, _, _) = absurd (b.ne_null (sym e ∙ h))
  Chain-unique p c (x ∷ xs) [] (e, b, _, _) k = absurd (b.ne_null (sym e ∙ k))
  Chain-unique p c (x ∷ xs) (y ∷ ys) (e, b, back, rest) (e', b', back', rest') =
      let addr : x.addr ≡ y.addr = sym e ∙ e' in
      let insert : x.insert ≡ y.insert =
        sym b.insert_eq ∙ ap (λ q. v.insert_for q (m.usable q)) addr ∙ b'.insert_eq in
      let word : m.word (x.insert - 16) ≡ m.word (y.insert - 16) =
        ap (λ q. m.word (q - 16)) insert in
      let mark = bit_inj x.mark y.mark (omega (arith, back, back', word)) in
      let same : x ≡ y = block_eq addr insert mark in
      let tails =
        Chain-unique x.addr (m.word (x.insert - 8)) xs ys rest
          (subst (λ z. Chain v m z.addr (m.word (z.insert - 8)) ys) (sym same) rest') in
      λ i. same i ∷ tails i

  -- Memory holds at most one heap list.
  pub IsHeap-unique : (xs ys : List Block) → IsHeap v m xs → IsHeap v m ys → xs ≡ ys
  IsHeap-unique xs ys h k =
      Chain-unique v.heap_list_head (m.word v.heap_list_head) xs ys h.chain k.chain
