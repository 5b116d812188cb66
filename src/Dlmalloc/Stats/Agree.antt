-- ===== src/Dlmalloc/Stats/Agree.antt =====
-- The two statistics of dlmalloc.c side by side: internal_mallinfo adds the free bytes up, and
-- internal_malloc_stats takes them off.
use precision_gc.Base.{
  ℕ, zero, suc, ◌+◌, ◌%◌, ◌^◌, ◌≡◌, refl, ap, ◌∙◌, sym, subst, ◌<◌, inl, inr, arith, ◌==◌,
  if◌then◌else◌, Bool-cases,
}
use precision_gc.Types.{Run, done, abort, out_of_fuel, ◌>>=◌}
use precision_gc.Dlmalloc.{Mstate, chunksize, next_chunk, is_inuse, minus64, align_as_chunk}
use precision_gc.Dlmalloc.Segments.{base, next, seg, is_initialized, is_walked}
use precision_gc.Dlmalloc.Stats.{
  Totals, mallinfo_of, top_totals, count_chunk, count_chunks, count_segments, internal_mallinfo,
  use_chunks, use_segments, internal_malloc_stats,
}

minus64_twice :
    (f m z : ℕ) → m < 2 ^ 64 → z < 2 ^ 64 → minus64 (minus64 f m) z ≡ minus64 f ((m + z) % 2 ^ 64)
minus64_twice f m z h k = omega arith

-- what internal_malloc_stats has where internal_mallinfo has the totals
abbrev used_of : Mstate → Totals → ℕ
used_of s t = minus64 s.footprint t.mfree

-- the two walks have come to the same place
abbrev Agrees : Mstate → Run Totals → Run ℕ → Type 0
Agrees s (done t) (done used) = (t.mfree < 2 ^ 64) × (used ≡ used_of s t)
Agrees s abort abort = Unit
Agrees s out_of_fuel out_of_fuel = Unit
Agrees s _ _ = ⊥

Agrees-then :
    (s : Mstate) (r : Run Totals) (u : Run ℕ) (f : Totals → Run Totals) (g : ℕ → Run ℕ)
    → Agrees s r u
    → ((t : Totals) → t.mfree < 2 ^ 64 → Agrees s (f t) (g (used_of s t)))
    → Agrees s (r >>= f) (u >>= g)
Agrees-then s (done t) (done used) f g h k = subst (λ x. Agrees s (f t) (g x)) (sym h.1) (k t h.0)
Agrees-then s abort abort f g h k = tt
Agrees-then s out_of_fuel out_of_fuel f g h k = tt
Agrees-then s (done t) abort f g h k = absurd h
Agrees-then s (done t) out_of_fuel f g h k = absurd h
Agrees-then s abort (done used) f g h k = absurd h
Agrees-then s abort out_of_fuel f g h k = absurd h
Agrees-then s out_of_fuel (done used) f g h k = absurd h
Agrees-then s out_of_fuel abort f g h k = absurd h

-- Reports of two walks that agree are the same.
Agrees-report :
    {A B : Type 0} (s : Mstate) (r : Run Totals) (u : Run ℕ) (info : Totals → A) (f : A → B)
    (g : ℕ → B)
    → ((t : Totals) → f (info t) ≡ g (used_of s t))
    → Agrees s r u
    → (u >>= λ used. done (g used)) ≡ ((r >>= λ t. done (info t)) >>= λ i. done (f i))
Agrees-report s (done t) (done used) info f g e h = ap (λ x. done (g x)) h.1 ∙ ap done (sym (e t))
Agrees-report s abort abort info f g e h = refl
Agrees-report s out_of_fuel out_of_fuel info f g e h = refl
Agrees-report s (done t) abort info f g e h = absurd h
Agrees-report s (done t) out_of_fuel info f g e h = absurd h
Agrees-report s abort (done used) info f g e h = absurd h
Agrees-report s abort out_of_fuel info f g e h = absurd h
Agrees-report s out_of_fuel (done used) info f g e h = absurd h
Agrees-report s out_of_fuel abort info f g e h = absurd h

module _ (s : Mstate) (words : (a : ℕ) → s.word a < 2 ^ 64) where
  count_chunk_lt : (q : ℕ) (t : Totals) → t.mfree < 2 ^ 64 → (count_chunk q s t).mfree < 2 ^ 64
  unfolding count_chunk
  count_chunk_lt q t h = elim (Bool-cases (is_inuse s q)) [
    | inl on ↦ rw on h
    | inr off ↦ rw off (omega arith)
  ]

  use_chunk :
      (q : ℕ) (t : Totals)
      → t.mfree < 2 ^ 64
      → (if is_inuse s q then used_of s t else minus64 (used_of s t) (chunksize s q))
        ≡ used_of s (count_chunk q s t)
  unfolding count_chunk
  use_chunk q t h = elim (Bool-cases (is_inuse s q)) [
    | inl on ↦ rw on refl
    | inr off ↦
        rw off (minus64_twice s.footprint t.mfree (chunksize s q) h (omega (arith, words (q + 8))))
  ]

  chunks-Agrees :
      (fuel sp q : ℕ) (t : Totals)
      → t.mfree < 2 ^ 64
      → Agrees s (count_chunks fuel sp q s t) (use_chunks fuel sp q s (used_of s t))
  unfolding count_chunks use_chunks
  chunks-Agrees zero sp q t h = tt
  chunks-Agrees (suc fuel) sp q t h = elim (Bool-cases (is_walked sp q s)) [
    | inl on ↦ rw on (
        rw (use_chunk q t h)
          (chunks-Agrees fuel sp (next_chunk s q) (count_chunk q s t) (count_chunk_lt q t h)))
    | inr off ↦ rw off (h, refl)
  ]

  segments-Agrees :
      (fuel sp : ℕ) (t : Totals)
      → t.mfree < 2 ^ 64
      → Agrees s (count_segments fuel sp s t) (use_segments fuel sp s (used_of s t))
  unfolding count_segments use_segments
  segments-Agrees zero sp t h = tt
  segments-Agrees (suc fuel) sp t h = elim (Bool-cases (sp == 0)) [
    | inl on ↦ rw on (h, refl)
    | inr off ↦ rw off (
        Agrees-then s (count_chunks fuel sp (align_as_chunk (base s sp)) s t)
          (use_chunks fuel sp (align_as_chunk (base s sp)) s (used_of s t))
          (count_segments fuel (next s sp) s) (use_segments fuel (next s sp) s)
          (chunks-Agrees fuel sp (align_as_chunk (base s sp)) t h)
          (segments-Agrees fuel (next s sp)))
  ]

-- The numbers that malloc_stats prints are those of mallinfo: the most bytes from the system, the bytes
-- from the system, and the bytes in use; so wherever the words of memory are of 64 bits, and with the
-- same fuel.
pub malloc_stats-mallinfo :
    (fuel : ℕ) (s : Mstate)
    → ((a : ℕ) → s.word a < 2 ^ 64)
    → internal_malloc_stats fuel s
      ≡ internal_mallinfo fuel s >>= λ info.
          done (info.usmblks, (if is_initialized s then s.footprint else 0), info.uordblks)
unfolding internal_malloc_stats internal_mallinfo
malloc_stats-mallinfo fuel s words = elim (Bool-cases (is_initialized s)) [
  | inl on ↦ rw on (
      Agrees-report s (count_segments fuel (seg s) s (top_totals s))
        (use_segments fuel (seg s) s (used_of s (top_totals s))) (mallinfo_of s)
        (λ info. (info.usmblks, s.footprint, info.uordblks))
        (λ used. (s.max_footprint, s.footprint, used)) (λ t. refl)
        (segments-Agrees s words fuel (seg s) (top_totals s) (omega arith)))
  | inr off ↦ rw off refl
]
