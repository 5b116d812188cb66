-- ===== src/Dlmalloc/Stats/Tally.antt =====
-- internal_mallinfo of dlmalloc.c against sums over a list of the chunks, and the heap size that the
-- collector's bookkeeping gets from it.
use precision_gc.Base.{
  ℕ, zero, suc, ◌+◌, ◌-◌, ◌%◌, ◌^◌, ◌≡◌, refl, ap, ◌∙◌, ◌≢◌, ◌≤◌, ◌<◌, inl, inr, arith, Bool, true,
  false, List, [], ◌∷◌, length, if◌then◌else◌, Bool-cases, ==_ne,
}
use precision_gc.Types.{done}
use precision_gc.Dlmalloc.{Mstate, chunksize, next_chunk, is_inuse, align_as_chunk}
use precision_gc.Dlmalloc.Segments.{base, next, seg, is_walked}
use precision_gc.Dlmalloc.Stats.{
  Totals, Mallinfo, mallinfo_of, top_totals, count_chunk, count_chunks, count_segments,
  internal_mallinfo, get_heap_size,
}

-- a chunk of a segment
pub record Piece : Type 0 where
  pub bytes : ℕ
  pub in_use : Bool

abbrev pub all_bytes : List Piece → ℕ
all_bytes [] = 0
all_bytes (p ∷ ps) = p.bytes + all_bytes ps

abbrev pub free_bytes : List Piece → ℕ
free_bytes [] = 0
free_bytes (p ∷ ps) = (if p.in_use then 0 else p.bytes) + free_bytes ps

abbrev pub free_pieces : List Piece → ℕ
free_pieces [] = 0
free_pieces (p ∷ ps) = (if p.in_use then 0 else 1) + free_pieces ps

-- The chunks of the segment at sp from q on are the pieces.
abbrev pub IsTiled : Mstate → ℕ → ℕ → List Piece → Type 0
IsTiled s sp q [] = is_walked sp q s ≡ false
IsTiled s sp q (p ∷ ps) =
    (is_walked sp q s ≡ true)
    × (chunksize s q ≡ p.bytes)
    × (is_inuse s q ≡ p.in_use)
    × IsTiled s sp (next_chunk s q) ps

-- The segments from the record sp on, each with its pieces.
abbrev pub IsSegments : Mstate → ℕ → List (List Piece) → Type 0
IsSegments s sp [] = sp ≡ 0
IsSegments s sp (ps ∷ rest) =
    (sp ≢ 0) × IsTiled s sp (align_as_chunk (base s sp)) ps × IsSegments s (next s sp) rest

abbrev totals : ℕ → ℕ → ℕ → Totals
totals n m k = record { nfree = n; mfree = m; sum = k }

-- the totals with those of pieces added
abbrev pub added : Totals → List Piece → Totals
added t ps = totals (t.nfree + free_pieces ps) (t.mfree + free_bytes ps) (t.sum + all_bytes ps)

abbrev pub added_all : Totals → List (List Piece) → Totals
added_all t [] = t
added_all t (ps ∷ rest) = added_all (added t ps) rest

-- Nothing overflows when the pieces are added.
abbrev pub Fits : Totals → List Piece → Type 0
Fits t ps = (t.nfree + length ps < 2 ^ 64) × (t.mfree ≤ t.sum) × (t.sum + all_bytes ps < 2 ^ 64)

abbrev pub FitsAll : Totals → List (List Piece) → Type 0
FitsAll t [] = Unit
FitsAll t (ps ∷ rest) = Fits t ps × FitsAll (added t ps) rest

totals_eq : {n n' m m' k k' : ℕ} → n ≡ n' → m ≡ m' → k ≡ k' → totals n m k ≡ totals n' m' k'
totals_eq p q r = λ i. totals (p i) (q i) (r i)

free_bytes_le : (ps : List Piece) → free_bytes ps ≤ all_bytes ps
free_bytes_le [] = omega arith
free_bytes_le (p ∷ ps) = ground (arith, free_bytes_le ps)

count_chunk-added :
    (q : ℕ) (s : Mstate) (t : Totals) (p : Piece) (ps : List Piece)
    → chunksize s q ≡ p.bytes
    → is_inuse s q ≡ p.in_use
    → Fits t (p ∷ ps)
    → count_chunk q s t ≡ added t (p ∷ [])
unfolding count_chunk
count_chunk-added q s t p ps size used fits = elim (Bool-cases p.in_use) [
  | inl on ↦
      rw (used ∙ on) (rw on (totals_eq (omega arith) (omega arith) (omega (arith, size, fits))))
  | inr off ↦ rw (used ∙ off) (
      rw off
        (totals_eq (omega (arith, fits)) (omega (arith, size, fits)) (omega (arith, size, fits))))
]

added-cons :
    (t : Totals) (p : Piece) (ps : List Piece) → added (added t (p ∷ [])) ps ≡ added t (p ∷ ps)
added-cons t p ps = totals_eq (omega arith) (omega arith) (omega arith)

Fits-cons :
    (t : Totals) (p : Piece) (ps : List Piece) → Fits t (p ∷ ps) → Fits (added t (p ∷ [])) ps
Fits-cons t p ps fits = ground (arith, fits)

chunks-added :
    (fuel sp q : ℕ) (s : Mstate) (t : Totals) (ps : List Piece)
    → IsTiled s sp q ps
    → Fits t ps
    → length ps < fuel
    → count_chunks fuel sp q s t ≡ done (added t ps)
unfolding count_chunks
chunks-added zero sp q s t ps tiled fits few = absurd (omega arith)
chunks-added (suc fuel) sp q s t [] tiled fits few =
    rw tiled (ap done (totals_eq (omega arith) (omega arith) (omega arith)))
chunks-added (suc fuel) sp q s t (p ∷ ps) tiled fits few = rw tiled.0 (
    rw (count_chunk-added q s t p ps tiled.1 tiled.2 fits) (
      chunks-added fuel sp (next_chunk s q) s (added t (p ∷ [])) ps tiled.3 (Fits-cons t p ps fits)
        (omega arith)
      ∙ ap done (added-cons t p ps)))

-- the rounds of all walks
abbrev pub rounds : List (List Piece) → ℕ
rounds [] = 1
rounds (ps ∷ rest) = length ps + 1 + rounds rest

rounds_pos : (segs : List (List Piece)) → 0 < rounds segs
rounds_pos [] = omega arith
rounds_pos (ps ∷ rest) = omega arith

segments-added :
    (fuel sp : ℕ) (s : Mstate) (t : Totals) (segs : List (List Piece))
    → IsSegments s sp segs
    → FitsAll t segs
    → rounds segs ≤ fuel
    → count_segments fuel sp s t ≡ done (added_all t segs)
unfolding count_segments
segments-added zero sp s t [] segs fits few = absurd (omega arith)
segments-added zero sp s t (ps ∷ rest) segs fits few = absurd (omega arith)
segments-added (suc fuel) sp s t [] segs fits few = rw segs refl
segments-added (suc fuel) sp s t (ps ∷ rest) segs fits few = rw (==_ne sp 0 segs.0) (
    rw
      (chunks-added fuel sp (align_as_chunk (base s sp)) s t ps segs.1 fits.0
        (omega (arith, rounds_pos rest)))
      (segments-added fuel (next s sp) s (added t ps) rest segs.2 fits.1 (omega arith)))

-- over all segments
abbrev pub every_byte : List (List Piece) → ℕ
every_byte [] = 0
every_byte (ps ∷ rest) = all_bytes ps + every_byte rest

abbrev pub every_free_byte : List (List Piece) → ℕ
every_free_byte [] = 0
every_free_byte (ps ∷ rest) = free_bytes ps + every_free_byte rest

abbrev pub every_free_piece : List (List Piece) → ℕ
every_free_piece [] = 0
every_free_piece (ps ∷ rest) = free_pieces ps + every_free_piece rest

abbrev pub every_piece : List (List Piece) → ℕ
every_piece [] = 0
every_piece (ps ∷ rest) = length ps + every_piece rest

totals-sums :
    (t : Totals) (segs : List (List Piece))
    → added_all t segs
      ≡ totals
          (t.nfree + every_free_piece segs)
          (t.mfree + every_free_byte segs)
          (t.sum + every_byte segs)
totals-sums t [] = totals_eq (omega arith) (omega arith) (omega arith)
totals-sums t (ps ∷ rest) =
    totals-sums (added t ps) rest ∙ totals_eq (omega arith) (omega arith) (omega arith)

free_pieces_le : (ps : List Piece) → free_pieces ps ≤ length ps
free_pieces_le [] = omega arith
free_pieces_le (p ∷ ps) = ground (arith, free_pieces_le ps)

every_free_byte_le : (segs : List (List Piece)) → every_free_byte segs ≤ every_byte segs
every_free_byte_le [] = omega arith
every_free_byte_le (ps ∷ rest) = omega (arith, free_bytes_le ps, every_free_byte_le rest)

FitsAll-sums :
    (t : Totals) (segs : List (List Piece))
    → t.nfree + every_piece segs < 2 ^ 64
    → t.mfree ≤ t.sum
    → t.sum + every_byte segs < 2 ^ 64
    → FitsAll t segs
FitsAll-sums t [] few le small = tt
FitsAll-sums t (ps ∷ rest) few le small = (
  (omega (arith, few), le, omega (arith, small)),
  FitsAll-sums (added t ps) rest (omega (arith, few, free_pieces_le ps))
      (omega (arith, le, free_bytes_le ps)) (omega (arith, small)),
)

-- With a top and a round for each chunk, one more for each segment and one more, and as long as the
-- bytes and the number of all chunks and the footprint stay below 2^64, mallinfo returns. Top with its
-- foot of 80 bytes counts as a free chunk: arena is its size and the bytes of all chunks, fordblks its
-- size and the bytes of the free ones, ordblks one more than the number of the free ones, and keepcost
-- is the size of top without the foot. hblkhd and uordblks are what arena and fordblks leave of the
-- footprint, usmblks is the largest footprint so far, and the heap size that the collector works with
-- is the footprint.
pub mallinfo-pieces :
    (fuel : ℕ) (s : Mstate) (segs : List (List Piece))
    → s.top ≢ 0
    → IsSegments s (seg s) segs
    → s.topsize + 80 + every_byte segs < 2 ^ 64
    → 1 + every_piece segs < 2 ^ 64
    → rounds segs ≤ fuel
    → s.footprint < 2 ^ 64
    → (info : Mallinfo) × (internal_mallinfo fuel s ≡ done info)
      × (info.arena ≡ s.topsize + 80 + every_byte segs)
      × (info.fordblks ≡ s.topsize + 80 + every_free_byte segs)
      × (info.ordblks ≡ 1 + every_free_piece segs)
      × (info.keepcost ≡ s.topsize)
      × (info.hblkhd ≡ (s.footprint + (2 ^ 64 - info.arena)) % 2 ^ 64)
      × (info.uordblks ≡ (s.footprint + (2 ^ 64 - info.fordblks)) % 2 ^ 64)
      × (info.usmblks ≡ s.max_footprint)
      × (get_heap_size fuel s ≡ done s.footprint)
unfolding internal_mallinfo get_heap_size
mallinfo-pieces fuel s segs top tiled small few enough foot =
    let start : (s.topsize + 80) % 2 ^ 64 ≡ s.topsize + 80 = omega (arith, small) in
    let fits =
      FitsAll-sums (top_totals s) segs (omega (arith, few)) (omega arith) (omega (arith, small)) in
    let e =
      segments-added fuel (seg s) s (top_totals s) segs tiled fits enough
      ∙ ap done (totals-sums (top_totals s) segs) in
    (
      mallinfo_of s (
          totals (1 + every_free_piece segs) ((s.topsize + 80) % 2 ^ 64 + every_free_byte segs)
            ((s.topsize + 80) % 2 ^ 64 + every_byte segs)),
      rw (==_ne s.top 0 top) (rw e refl),
      omega (arith, start),
      omega (arith, start),
      refl,
      refl,
      refl,
      refl,
      refl,
      rw (==_ne s.top 0 top) (rw e (ap done (omega (arith, small, foot, every_free_byte_le segs)))),
    )
