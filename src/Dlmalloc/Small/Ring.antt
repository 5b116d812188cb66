-- ===== src/Dlmalloc/Small/Ring.antt =====
-- Small bins of dlmalloc.c as lists of chunks: when memory holds a bin with given chunks, as a ring of
-- fd and bk pointers that the bin's header closes.
use precision_gc.Base.{
  ℕ, ◌+◌, ◌≡◌, sym, ◌∙◌, ◌≢◌, ◌≤◌, Bool, true, false, List, [], ◌∷◌, ◌++◌, All, All-prefix,
  All-suffix,
}
use precision_gc.Dlmalloc.{Mstate, fd, bk}
use precision_gc.Dlmalloc.Bins.{smallbin_at, smallmap_is_marked}

-- From a by fd to the chunks and then to b, and back by bk.
abbrev pub Chain : Mstate → ℕ → List ℕ → ℕ → Type 0
Chain s a [] b = (fd s a ≡ b) × (bk s b ≡ a)
Chain s a (x ∷ xs) b = (fd s a ≡ x) × (bk s x ≡ a) × Chain s x xs b

-- The link words of two nodes do not overlap.
abbrev pub Apart : ℕ → ℕ → Type 0
Apart a b = (a ≢ b) × (a + 8 ≢ b) × (b + 8 ≢ a)

abbrev pub AllApart : List ℕ → Type 0
AllApart [] = Unit
AllApart (x ∷ xs) = All (Apart x) xs × AllApart xs

abbrev pub occupied : List ℕ → Bool
occupied [] = false
occupied (x ∷ xs) = true

-- The header's own links mean nothing while the bin is empty.
abbrev pub Ring : Mstate → ℕ → List ℕ → Type 0
Ring s b [] = Unit
Ring s b (x ∷ xs) = Chain s b (x ∷ xs) b

-- The small bin i holds the chunks xs, all at valid addresses, and its mark says whether it has any.
pub record IsBin (s : Mstate) (i : ℕ) (xs : List ℕ) : Type 0 where
  pub chain : Ring s (smallbin_at s i) xs
  pub apart : AllApart (smallbin_at s i ∷ xs)
  pub valid : All (λ x. s.least_addr ≤ x) xs
  pub marked : smallmap_is_marked i s ≡ occupied xs

-- the link words of a node are the same in two states
abbrev pub Same : Mstate → Mstate → ℕ → Type 0
Same s t x = (fd t x ≡ fd s x) × (bk t x ≡ bk s x)

pub Chain-frame :
    (s t : Mstate) (a b : ℕ) (xs : List ℕ)
    → fd t a ≡ fd s a
    → bk t b ≡ bk s b
    → All (Same s t) xs
    → Chain s a xs b
    → Chain t a xs b
Chain-frame s t a b [] f k same c = (f ∙ c.0, k ∙ c.1)
Chain-frame s t a b (x ∷ xs) f k same c =
    (f ∙ c.0, same.0.1 ∙ c.1, Chain-frame s t x b xs same.0.0 k same.1 c.2)

-- A chain may be cut at a chunk, and two chains joined.
pub Chain-join :
    (s : Mstate) (a p b : ℕ) (xs ys : List ℕ)
    → Chain s a xs p
    → Chain s p ys b
    → Chain s a (xs ++ (p ∷ ys)) b
Chain-join s a p b [] ys c d = (c.0, c.1, d)
Chain-join s a p b (x ∷ xs) ys c d = (c.0, c.1, Chain-join s x p b xs ys c.2 d)

pub Chain-cut :
    (s : Mstate) (a p b : ℕ) (xs ys : List ℕ)
    → Chain s a (xs ++ (p ∷ ys)) b
    → Chain s a xs p × Chain s p ys b
Chain-cut s a p b [] ys c = ((c.0, c.1), c.2)
Chain-cut s a p b (x ∷ xs) ys c =
    let rest = Chain-cut s x p b xs ys c.2 in ((c.0, c.1, rest.0), rest.1)

abbrev pub last_of : ℕ → List ℕ → ℕ
last_of a [] = a
last_of a (x ∷ xs) = last_of x xs

pub Chain-bk : (s : Mstate) (a b : ℕ) (xs : List ℕ) → Chain s a xs b → bk s b ≡ last_of a xs
Chain-bk s a b [] c = c.1
Chain-bk s a b (x ∷ xs) c = Chain-bk s x b xs c.2

pub sym_apart : {a b : ℕ} → Apart a b → Apart b a
sym_apart h = (λ e. h.0 (sym e), h.2, h.1)

pub All-last {ℓ} : (P : ℕ → Type ℓ) (x : ℕ) (xs : List ℕ) → All P (x ∷ xs) → P (last_of x xs)
All-last P x [] h = h.0
All-last P x (y ∷ xs) h = All-last P y xs h.1

pub AllApart-split :
    (xs zs : List ℕ)
    → AllApart (xs ++ zs)
    → AllApart xs × AllApart zs × All (λ x. All (Apart x) zs) xs
AllApart-split [] zs h = (tt, h, tt)
AllApart-split (x ∷ xs) zs h =
    let rest = AllApart-split xs zs h.1 in
    ((All-prefix (Apart x) xs zs h.0, rest.0), rest.1, (All-suffix (Apart x) xs zs h.0, rest.2))
