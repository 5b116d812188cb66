-- ===== src/Dlmalloc/Small/Relink.antt =====
-- The stores with which dlmalloc.c takes a chunk out of a list of free chunks (`F->bk = B; B->fd = F`):
-- what they do to the chain of the nodes.
use precision_gc.Base.{
  ◌++◌, All-prefix, All-suffix, ℕ, ◌≡◌, refl, sym, ◌∙◌, ◌≢◌, ◌⊎◌, inl, inr, arith, List, [], ◌∷◌,
  ◌++◌, All, All-both,
}
use precision_gc.Dlmalloc.{Mstate, fd, bk, put, set_fd, set_bk}
use precision_gc.Dlmalloc.Small.Ring.{
  Chain, Apart, AllApart, Same, Chain-frame, last_of, sym_apart, All-last,
}

-- the node behind a chunk
abbrev pub first_of : List ℕ → ℕ → ℕ
first_of [] b = b
first_of (y ∷ ys) b = y

-- Nodes of one ring are the same or apart.
abbrev pub Related : ℕ → ℕ → Type 0
Related x y = (x ≡ y) ⊎ Apart x y

-- What unlinking must leave alone of the chain before and of the chain behind.
abbrev pub KeepsFront : Mstate → Mstate → ℕ → List ℕ → Type 0
KeepsFront s t a [] = Unit
KeepsFront s t a (x ∷ xs) = (fd t a ≡ fd s a) × (bk t x ≡ bk s x) × KeepsFront s t x xs

abbrev pub KeepsBack : Mstate → Mstate → List ℕ → ℕ → Type 0
KeepsBack s t [] b = Unit
KeepsBack s t (y ∷ ys) b = (fd t y ≡ fd s y) × (bk t b ≡ bk s b) × All (Same s t) ys

relink_behind :
    (s t : Mstate) (a p b : ℕ) (ys : List ℕ)
    → Chain s p ys b
    → fd t a ≡ first_of ys b
    → bk t (first_of ys b) ≡ a
    → KeepsBack s t ys b
    → Chain t a ys b
relink_behind s t a p b [] c f k keep = (f, k)
relink_behind s t a p b (y ∷ ys) c f k keep =
    (f, k, Chain-frame s t y b ys keep.0 keep.1 keep.2 c.2)

pub relink :
    (s t : Mstate) (a p b : ℕ) (xs ys : List ℕ)
    → Chain s a xs p
    → Chain s p ys b
    → fd t (last_of a xs) ≡ first_of ys b
    → bk t (first_of ys b) ≡ last_of a xs
    → KeepsFront s t a xs
    → KeepsBack s t ys b
    → Chain t a (xs ++ ys) b
relink s t a p b [] ys c d f k front back = relink_behind s t a p b ys d f k back
relink s t a p b (x ∷ xs) ys c d f k front back =
    (front.0 ∙ c.0, front.1 ∙ c.1, relink s t x p b xs ys c.2 d f k front.2 back)

-- the stores `F->bk = B; B->fd = F`, with the nodes before and behind
module _ (s : Mstate) (l f : ℕ) where
  abbrev pub joined : Mstate
  joined = set_fd l f (set_bk f l s)

  pub joined-links : Related l f → (fd joined l ≡ f) × (bk joined f ≡ l)
  unfolding set_fd set_bk put
  joined-links h = ground arith

  pub joined-fd : (x : ℕ) → x ≢ l → Related x f → fd joined x ≡ fd s x
  unfolding set_fd set_bk put
  joined-fd x h r = ground arith

  pub joined-bk : (x : ℕ) → x ≢ f → Related x l → bk joined x ≡ bk s x
  unfolding set_fd set_bk put
  joined-bk x h r = ground arith

pub Related-last : (x : ℕ) (xs : List ℕ) → AllApart (x ∷ xs) → Related x (last_of x xs)
Related-last x [] h = inl refl
Related-last x (y ∷ xs) h = inr (All-last (Apart x) y xs h.0)

pub keeps_front :
    (s : Mstate) (f a : ℕ) (xs : List ℕ)
    → AllApart (a ∷ xs)
    → All (λ x. Related x f) (a ∷ xs)
    → All (λ x. x ≢ f) xs
    → KeepsFront s (joined s (last_of a xs) f) a xs
keeps_front s f a [] apart rel ne = tt
keeps_front s f a (x ∷ xs) apart rel ne =
    let l = last_of x xs in
    (
      joined-fd s l f a (All-last (Apart a) x xs apart.0).0 rel.0,
      joined-bk s l f x ne.0 (Related-last x xs apart.1),
      keeps_front s f x xs apart.1 rel.1 ne.1,
    )

-- the chunks behind, when the node before them is l
pub keeps_back :
    (s : Mstate) (l b y : ℕ) (ys : List ℕ)
    → All (Apart l) (y ∷ ys)
    → All (Apart y) ys
    → Apart b y
    → Related b l
    → KeepsBack s (joined s l y) (y ∷ ys) b
keeps_back s l b y ys hl hy hb rel = (
  joined-fd s l y y (λ e. hl.0.0 (sym e)) (inl refl),
  joined-bk s l y b hb.0 rel,
  All-both {P = Apart l} {Q = Apart y} ys
      (λ x g h. (
        joined-fd s l y x (λ e. g.0 (sym e)) (inr (sym_apart h)),
        joined-bk s l y x (λ e. h.0 (sym e)) (inr (sym_apart g)),
      ))
      hl.1 hy,
)

All-first {ℓ} : (P : ℕ → Type ℓ) (b : ℕ) (ys : List ℕ) → P b → All P ys → P (first_of ys b)
All-first P b [] h hs = h
All-first P b (y ∷ ys) h hs = hs.0

-- The state stands and starts where it did, and only links of the nodes have changed.
abbrev pub Others : Mstate → Mstate → List ℕ → Type 0
Others s t nodes =
    (t.gm ≡ s.gm)
    × (t.least_addr ≡ s.least_addr)
    × ((x : ℕ) → All (λ y. Apart y x) nodes → Same s t x)

pub joined-Others :
    (s : Mstate) (b : ℕ) (xs ys : List ℕ)
    → Others s (joined s (last_of b xs) (first_of ys b)) (b ∷ (xs ++ ys))
unfolding set_fd set_bk put
joined-Others s b xs ys = (
  refl,
  refl,
  λ x h.
      let l = All-last (λ y. Apart y x) b xs (h.0, All-prefix (λ y. Apart y x) xs ys h.1) in
      let f = All-first (λ y. Apart y x) b ys h.0 (All-suffix (λ y. Apart y x) xs ys h.1) in
      (
        joined-fd s (last_of b xs) (first_of ys b) x (λ e. l.0 (sym e)) (inr (sym_apart f)),
        joined-bk s (last_of b xs) (first_of ys b) x (λ e. f.0 (sym e)) (inr (sym_apart l)),
      ),
)
