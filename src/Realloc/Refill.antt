-- ===== src/Realloc/Refill.antt =====
-- The new block of gc_realloc: zeroed, with the old links behind the user's bytes.
use precision_gc.Base.{ℕ, ◌-◌, ◌≡◌, refl, ap, ◌∙◌, false, arith}
use precision_gc.Heap.{Memory, Layout, store, set_next}
use precision_gc.Heap.Blocks.{
  Block, IsBlock, Apart, Outside, SameBlock, UserSame, IsBlock-same, SameBlock-store,
  SameBlock-trans, insert_address_lem, set_previous_lem, set_next_lem,
}
use precision_gc.Malloc.{clear}
use precision_gc.Malloc.Fresh.{IsZeroed}
use precision_gc.Realloc.{set_header, refill}
use precision_gc.Realloc.Filled.{Filled}

-- What myrealloc promises when it hands out `y` for `x`: a block in use, apart from every other block
-- in use and from heap_list_head, all of which are as they were. Of the contents of `y` gc_realloc
-- needs nothing.
pub record IsResized (v : Layout) (m n : Memory) (x y : Block) : Type 0 where
  pub same : (z : Block) → IsBlock v m z → Apart x z → SameBlock m n z
  pub head : n.word v.heap_list_head ≡ m.word v.heap_list_head
  pub block : IsBlock v n y
  pub off : Outside v.heap_list_head y
  pub apart : (z : Block) → IsBlock v m z → Apart x z → Apart y z
  pub unmarked : y.mark ≡ false

-- What myrealloc promises when it has no memory: every block and the head of the list are as they were.
pub record IsKept (v : Layout) (m n : Memory) : Type 0 where
  pub same : (z : Block) → IsBlock v m z → SameBlock m n z
  pub head : n.word v.heap_list_head ≡ m.word v.heap_list_head

module _ (v : Layout) where
  -- the two links written behind the user's bytes
  abbrev pub linked : Memory → Block → ℕ → ℕ → Memory
  linked m x p next = store (store m (x.insert - 16) p) (x.insert - 8) next

  pub set_header_lem :
      (m : Memory) (x : Block) (p next : ℕ)
      → IsBlock v m x
      → set_header v x.addr p next m ≡ linked m x p next
  unfolding set_header store
  set_header_lem m x p next b =
      ap (λ k. set_next v k x.addr next) (set_previous_lem b p)
      ∙ set_next_lem (IsBlock-same v m (store m (x.insert - 16) p) b refl refl) next

  pub linked-SameBlock :
      (m : Memory) (x z : Block) (p next : ℕ)
      → IsBlock v m x
      → Apart x z
      → SameBlock m (linked m x p next) z
  linked-SameBlock m x z p next b o =
      SameBlock-trans (SameBlock-store m (x.insert - 16) p z (omega (arith, b.room)))
        (SameBlock-store (store m (x.insert - 16) p) (x.insert - 8) next z (omega (arith, b.room)))

  pub linked-words :
      (m : Memory) (x : Block) (p next : ℕ)
      → IsBlock v m x
      → Outside v.heap_list_head x
      → ((linked m x p next).word v.heap_list_head ≡ m.word v.heap_list_head)
        × ((linked m x p next).word (x.insert - 16) ≡ p)
        × ((linked m x p next).word (x.insert - 8) ≡ next)
        × UserSame m (linked m x p next) x
  unfolding store
  linked-words m x p next b off = (
    ground (arith, b.room),
    ground (arith, b.room),
    ground arith,
    λ a lo hi. ground (arith, b.room),
  )

  abbrev pub zeroed : Memory → Block → Memory
  zeroed m y = clear m y.addr (y.insert - 16)

  pub zeroed-SameBlock :
      (m : Memory) (y z : Block) → IsBlock v m y → Apart y z → SameBlock m (zeroed m y) z
  unfolding clear
  zeroed-SameBlock m y z b o = record {
    live = refl;
    usable = refl;
    words = λ a lo hi. ground (arith, b.room);
  }

  pub zeroed-words :
      (m : Memory) (y : Block)
      → IsBlock v m y
      → Outside v.heap_list_head y
      → ((zeroed m y).word v.heap_list_head ≡ m.word v.heap_list_head)
        × IsZeroed (zeroed m y) y
        × IsBlock v (zeroed m y) y
  unfolding clear
  zeroed-words m y b off =
      (ground (arith, b.room), λ a lo hi. ground arith, IsBlock-same v m _ b refl refl)

module _ (v : Layout) (m n : Memory) (x y : Block) (b : IsBlock v m x)
    (off : Outside v.heap_list_head x) (p next : ℕ)
    (given : IsResized v (linked v m x 0 0) n x y) where
  was : (z : Block) → IsBlock v m z → IsBlock v (linked v m x 0 0) z
  unfolding store
  was z bz = IsBlock-same v m _ bz refl refl

  -- the new block zeroed and linked
  abbrev pub result : Memory
  result = linked v (zeroed v n y) y p next

  pub refill_lem : refill v y.addr p next n ≡ result
  unfolding refill
  refill_lem =
      ap (λ a. set_header v y.addr p next (clear n y.addr a)) (insert_address_lem given.block)
      ∙ set_header_lem v (zeroed v n y) y p next (zeroed-words v n y given.block given.off).2

  again : IsBlock v result y
  unfolding store clear
  again = IsBlock-same v n _ given.block refl refl

  pub result-Filled : Filled v m result x y p next
  result-Filled =
      let z₀ = zeroed-words v n y given.block given.off in
      let w = linked-words v (zeroed v n y) y p next z₀.2 given.off in
      let w₀ = linked-words v m x 0 0 b off in
      record {
        same = λ z bz o.
            let o' = given.apart z (was z bz) o in
            SameBlock-trans (linked-SameBlock v m x z 0 0 b o) (
              SameBlock-trans (given.same z (was z bz) o) (
                SameBlock-trans (zeroed-SameBlock v n y z given.block o')
                  (linked-SameBlock v (zeroed v n y) y z p next z₀.2 o')));
        head = w.0 ∙ z₀.0 ∙ given.head ∙ w₀.0;
        block = again;
        off = given.off;
        apart = λ z bz o. given.apart z (was z bz) o;
        unmarked = given.unmarked;
        back = w.1;
        front = w.2;
      }

  pub result-IsZeroed : IsZeroed result y
  result-IsZeroed a lo hi =
      let z₀ = zeroed-words v n y given.block given.off in
      (linked-words v (zeroed v n y) y p next z₀.2 given.off).3 a lo hi ∙ z₀.1 a lo hi

-- the links written back after a failure
module _ (v : Layout) (m n : Memory) (x : Block) (b : IsBlock v m x)
    (off : Outside v.heap_list_head x) (p next : ℕ) (kept : IsKept v (linked v m x 0 0) n) where
  stands : (z : Block) → IsBlock v m z → IsBlock v (linked v m x 0 0) z
  unfolding store
  stands z bz = IsBlock-same v m _ bz refl refl

  after : IsBlock v n x
  after =
      let same = kept.same x (stands x b) in IsBlock-same v _ n (stands x b) same.live same.usable

  pub restored_lem : set_header v x.addr p next n ≡ linked v n x p next
  restored_lem = set_header_lem v n x p next after

  pub restored-user : UserSame m (linked v n x p next) x
  restored-user a lo hi =
      (linked-words v n x p next after off).3 a lo hi
      ∙ (kept.same x (stands x b)).words a lo (omega arith)
      ∙ (linked-words v m x 0 0 b off).3 a lo hi

  restored-IsBlock : IsBlock v (linked v n x p next) x
  unfolding store
  restored-IsBlock = IsBlock-same v n _ after refl refl

  pub restored-Filled : x.mark ≡ false → Filled v m (linked v n x p next) x x p next
  restored-Filled unmarked =
      let w = linked-words v n x p next after off in
      record {
        same = λ z bz o.
            SameBlock-trans (linked-SameBlock v m x z 0 0 b o) (
              SameBlock-trans (kept.same z (stands z bz))
                (linked-SameBlock v n x z p next after o));
        head = w.0 ∙ kept.head ∙ (linked-words v m x 0 0 b off).0;
        block = restored-IsBlock;
        off = off;
        apart = λ z bz o. o;
        unmarked = unmarked;
        back = w.1;
        front = w.2;
      }
