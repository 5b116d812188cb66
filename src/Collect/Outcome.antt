-- ===== src/Collect/Outcome.antt =====
-- The traversal and sweep, one after the other: what is left of a list whose marks tell what is
-- reachable.
use precision_gc.Base.{
  ℕ, suc, ◌-◌, ◌≤◌, ◌<◌, ◌≡◌, refl, ap, ◌∙◌, ◌≢◌, inl, inr, false, not, ◌&&◌, List, [], ◌∷◌, arith,
  All, All-mono, All-both, Bool-cases, ==_iff, ◌==◌, length,
}
use precision_gc.Heap.{Memory, Layout}
use precision_gc.Heap.Blocks.{Block, IsBlock, Spread, UserSame}
use precision_gc.Heap.Flags.{has, flagged, SameSpots, All-SameSpots}
use precision_gc.Heap.Marks.{has-apart, flagged-apart}
use precision_gc.Sweep.Swept.{survivors, garbage, All-survivors}
use precision_gc.Trace.Inv.{Calm}

pub has-survivors : (p : ℕ) (ys : List Block) → has p (survivors ys) ≡ flagged p ys
has-survivors p [] = refl
has-survivors p (y ∷ ys) = ground (arith, has-survivors p ys)

pub survivors_clean : (ys : List Block) → All (λ y. y.mark ≡ false) (survivors ys)
survivors_clean [] = tt
survivors_clean (y ∷ ys) = elim (Bool-cases y.mark) [
  | inl on ↦ rw on (refl, survivors_clean ys)
  | inr off ↦ rw off (survivors_clean ys)
]

garbage_of_absent : (p : ℕ) (ys : List Block) → has p ys ≡ false → garbage p ys ≡ false
garbage_of_absent p [] h = refl
garbage_of_absent p (y ∷ ys) h = ground (arith, garbage_of_absent p ys)

pub garbage-flagged :
    (v : Layout) (m : Memory) (p : ℕ) (ys : List Block)
    → All (IsBlock v m) ys
    → Spread v ys
    → garbage p ys ≡ (has p ys && not (flagged p ys))
garbage-flagged v m p [] bs s = refl
garbage-flagged v m p (y ∷ ys) (b, bs) (_, far, s) = elim (Bool-cases (y.addr == p)) [
  | inl at ↦
      let alone = has-apart v m y ys b.room bs far in
      let e = (==_iff y.addr p).0 at in
      let gone : has p ys ≡ false = rw (← e) alone in
      ground (arith, garbage_of_absent p ys gone, flagged-apart v m p ys gone)
  | inr off ↦ ground (arith, garbage-flagged v m p ys bs s)
]

-- No user byte of a block is a previous pointer.
pub user_clear :
    (v : Layout) (m : Memory) (xs : List Block)
    → All (IsBlock v m) xs
    → Spread v xs
    → All (λ y. (a : ℕ) → y.addr ≤ a → a < y.insert - 16 → All (λ x. a ≢ x.insert - 16) xs) xs
user_clear v m [] bs s = tt
user_clear v m (x ∷ xs) (b, bs) (_, far, s) = (
  λ a lo hi. (omega arith, All-both xs (λ y by o. omega (arith, by.room)) bs far),
  All-both xs (λ y o user a lo hi. (omega (arith, b.room), user a lo hi)) far
      (user_clear v m xs bs s),
)

pub Calm-user :
    (v : Layout) (m n : Memory) (xs : List Block)
    → All (IsBlock v m) xs
    → Spread v xs
    → Calm m n xs
    → All (UserSame m n) xs
Calm-user v m n xs bs s calm =
    All-mono xs (λ y user a lo hi. calm.words a (user a lo hi)) (user_clear v m xs bs s)

pub UserSame-SameSpots :
    (m n : Memory) (ys xs : List Block)
    → SameSpots ys xs
    → All (UserSame m n) xs
    → All (UserSame m n) ys
UserSame-SameSpots m n =
    All-SameSpots (λ addr insert. (a : ℕ) → addr ≤ a → a < insert - 16 → n.word a ≡ m.word a)

-- The traversal kept the program's bytes, and sweep those of the blocks that it left.
pub kept_bytes :
    (m n k : Memory) (ys : List Block)
    → All (UserSame m n) ys
    → All (UserSame n k) (survivors ys)
    → All (UserSame m k) (survivors ys)
kept_bytes m n k ys one two =
    All-both (survivors ys) (λ y s t a lo hi. t a lo hi ∙ s a lo hi)
      (All-survivors (UserSame m n) (λ y h. h) ys one) two

pub length-SameSpots : (ys xs : List Block) → SameSpots ys xs → length ys ≡ length xs
length-SameSpots [] [] s = refl
length-SameSpots [] (x ∷ xs) s = absurd s
length-SameSpots (y ∷ ys) [] s = absurd s
length-SameSpots (y ∷ ys) (x ∷ xs) s = ap suc (length-SameSpots ys xs s.2)
