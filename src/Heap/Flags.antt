-- ===== src/Heap/Flags.antt =====
-- Which addresses begin a block of a list, which of those are marked, and one more mark.
use precision_gc.Base.{
  ℕ, ◌≡◌, refl, inl, inr, Bool, true, false, ◌&&◌, ◌||◌, List, [], ◌∷◌, arith, All, Bool-cases,
  ◌==◌, if◌then◌else◌,
}
use precision_gc.Heap.Blocks.{Block}

-- a block of the list begins there
abbrev pub has : ℕ → List Block → Bool
has o [] = false
has o (x ∷ xs) = (x.addr == o) || has o xs

-- a marked block of the list begins there
abbrev pub flagged : ℕ → List Block → Bool
flagged o [] = false
flagged o (x ∷ xs) = ((x.addr == o) && x.mark) || flagged o xs

abbrev pub mark_at : ℕ → List Block → List Block
mark_at o [] = []
mark_at o (x ∷ xs) = if x.addr == o then record x { mark = true } ∷ xs else x ∷ mark_at o xs

pub flagged-mark_at :
    (c o : ℕ) (xs : List Block)
    → flagged c (mark_at o xs) ≡ (flagged c xs || ((c == o) && has o xs))
flagged-mark_at c o [] = ground arith
flagged-mark_at c o (x ∷ xs) = ground (arith, flagged-mark_at c o xs)

pub has_of_flagged : (c : ℕ) (xs : List Block) → flagged c xs ≡ true → has c xs ≡ true
has_of_flagged c [] h = cc
has_of_flagged c (x ∷ xs) h = ground (arith, has_of_flagged c xs)

-- The two lists hold the same blocks, but for the marks.
abbrev pub SameSpots : List Block → List Block → Type 0
SameSpots [] [] = Unit
SameSpots (x ∷ xs) (y ∷ ys) = (x.addr ≡ y.addr) × (x.insert ≡ y.insert) × SameSpots xs ys
SameSpots _ _ = ⊥

pub SameSpots-refl : (xs : List Block) → SameSpots xs xs
SameSpots-refl [] = tt
SameSpots-refl (x ∷ xs) = (refl, refl, SameSpots-refl xs)

pub SameSpots-mark_at : (o : ℕ) (xs ys : List Block) → SameSpots xs ys → SameSpots (mark_at o xs) ys
SameSpots-mark_at o [] [] s = s
SameSpots-mark_at o [] (y ∷ ys) s = s
SameSpots-mark_at o (x ∷ xs) [] s = absurd s
SameSpots-mark_at o (x ∷ xs) (y ∷ ys) s = elim (Bool-cases (x.addr == o)) [
  | inl at ↦ rw at s
  | inr off ↦ rw off (s.0, s.1, SameSpots-mark_at o xs ys s.2)
]

pub has-SameSpots : (o : ℕ) (xs ys : List Block) → SameSpots xs ys → has o xs ≡ has o ys
has-SameSpots o [] [] s = refl
has-SameSpots o [] (y ∷ ys) s = absurd s
has-SameSpots o (x ∷ xs) [] s = absurd s
has-SameSpots o (x ∷ xs) (y ∷ ys) s = rw (s.0, has-SameSpots o xs ys s.2)

pub All-SameSpots :
    (P : ℕ → ℕ → Type 0) (xs ys : List Block)
    → SameSpots xs ys
    → All (λ y. P y.addr y.insert) ys
    → All (λ x. P x.addr x.insert) xs
All-SameSpots P [] [] s h = tt
All-SameSpots P [] (y ∷ ys) s h = absurd s
All-SameSpots P (x ∷ xs) [] s h = absurd s
All-SameSpots P (x ∷ xs) (y ∷ ys) s h = (rw (s.0, s.1) h.0, All-SameSpots P xs ys s.2 h.1)
