-- ===== src/Collect/Roots.antt =====
-- What the scans of the root set enqueue (gc.c, the scan functions).
use mathlib.Core.List.{Memᴰ}
use mathlib.Core.List.Memᴰ
use native.Mathlib.Decide.{dec_lt}
use precision_gc.Base.{
  ℕ, zero, suc, ◌+◌, ◌*◌, ◌-◌, ◌≤◌, ◌<◌, ◌≡◌, refl, sym, ap, ◌↔◌, ◌⊎◌, inl, inr, Bool, true, false,
  List, [], ◌∷◌, ◌++◌, arith, length, length-append, ltb, Bool-cases, subst, if◌then◌else◌,
}
use precision_gc.Heap.{Memory}
use precision_gc.Types.{done, Liballocs, valid_heap_object, visit_pointer}
use precision_gc.Types.Slots.{
  Scanned, Scanned-none, Scanned-run, Scanned-mono, Scanned-then, Scanned-pointer,
}
use precision_gc.Collect.{visit_register, visit_registers, scan_words}

-- a word of the walk from `lo` up to `limit` that is not passed over
abbrev pub OnWalk : (ℕ → Bool) → ℕ → ℕ → ℕ → Type 0
OnWalk skip lo limit a = (k : ℕ) × (a ≡ lo + 8 * k) × (a < limit) × (skip a ≡ false)

module _ (lib : Liballocs) (bigallocs : List ℕ) where
  abbrev Valid : ℕ → Type 0
  Valid p = valid_heap_object lib bigallocs p ≡ true

  mem-visit_register :
      (r : ℕ) (q : List ℕ) (p : ℕ)
      → Memᴰ p (visit_register lib bigallocs r q) ↔ (Memᴰ p q ⊎ ((p ≡ r) × Valid p))
  unfolding visit_register
  mem-visit_register r q p = elim (Bool-cases (valid_heap_object lib bigallocs r)) [
    | inl ok ↦ rw ok (
      λ h. elim (Memᴰ.append_cases q h) [
        | inl old ↦ inl old
        | inr new ↦ let e = Memᴰ.eq_of_singleton new in inr (e, rw e ok)
      ],
      λ s. elim s [
        | inl old ↦ Memᴰ.append_left (r ∷ []) old
        | inr (e, _) ↦ Memᴰ.append_right q (Memᴰ.head e)
      ],
    )
    | inr bad ↦ rw bad (
      inl,
      λ s. elim s [ inl old ↦ old | inr (e, ok) ↦ cc (ap (valid_heap_object lib bigallocs) e) ],
    )
  ]

  -- The register scan enqueues exactly the registers that hold a valid heap pointer.
  pub mem-visit_registers :
      (rs q : List ℕ) (p : ℕ)
      → Memᴰ p (visit_registers lib bigallocs rs q) ↔ (Memᴰ p q ⊎ (Memᴰ p rs × Valid p))
  unfolding visit_registers
  mem-visit_registers [] q p =
      (inl, λ s. elim s [ inl old ↦ old | inr (h, _) ↦ absurd (Memᴰ.not-nil h) ])
  mem-visit_registers (r ∷ rs) q p =
      let later = mem-visit_registers rs (visit_register lib bigallocs r q) p in
      let now = mem-visit_register r q p in
      (
        λ h. elim (later.0 h) [
          | inl here ↦ elim (now.0 here) [ inl old ↦ inl old | inr (e, ok) ↦ inr (Memᴰ.head e, ok) ]
          | inr (there, ok) ↦ inr (Memᴰ.tail there, ok)
        ],
        λ s. elim s [
          | inl old ↦ later.1 (inl (now.1 (inl old)))
          | inr (at, ok) ↦ elim (Memᴰ.cases_cons at) [
            | inl e ↦ later.1 (inl (now.1 (inr (e, ok))))
            | inr there ↦ later.1 (inr (there, ok))
          ]
        ],
      )

  length-visit_pointer :
      (m : Memory) (a : ℕ) (q : List ℕ) → length (visit_pointer lib bigallocs m a q) ≤ length q + 1
  unfolding visit_pointer
  length-visit_pointer m a q = ground (arith, length-append q (m.word a ∷ []))

  pub length-visit_registers :
      (rs q : List ℕ) → length (visit_registers lib bigallocs rs q) ≤ length q + length rs
  unfolding visit_registers visit_register
  length-visit_registers [] q = omega arith
  length-visit_registers (r ∷ rs) q = ground (
    arith,
    length-append q (r ∷ []),
    length-visit_registers rs (q ++ r ∷ []),
    length-visit_registers rs q,
  )

  visit_unless :
      (skip : ℕ → Bool) (a : ℕ) (m : Memory) (q : List ℕ)
      → Scanned lib bigallocs
          (λ b. (b ≡ a) × (skip a ≡ false))
          (λ m' q'. done (if skip a then q' else visit_pointer lib bigallocs m' a q'))
          m
          q
          (if skip a then q else visit_pointer lib bigallocs m a q)
  visit_unless skip a m q = elim (Bool-cases (skip a)) [
    | inl skipped ↦
        subst
          (λ r.
            Scanned lib bigallocs (λ b. (b ≡ a) × (skip a ≡ false))
              (λ m' q'. done (if skip a then q' else visit_pointer lib bigallocs m' a q')) m q r)
          (sym (ap (λ b. if b then q else visit_pointer lib bigallocs m a q) skipped))
          (Scanned-run lib bigallocs _ _ _ m q q (λ m' q'. rw skipped refl)
            (Scanned-none lib bigallocs (λ b. (b ≡ a) × (skip a ≡ false)) m q q (λ b s. cc (s.1))
              refl))
    | inr kept ↦
        subst
          (λ r.
            Scanned lib bigallocs (λ b. (b ≡ a) × (skip a ≡ false))
              (λ m' q'. done (if skip a then q' else visit_pointer lib bigallocs m' a q')) m q r)
          (sym (ap (λ b. if b then q else visit_pointer lib bigallocs m a q) kept))
          (Scanned-run lib bigallocs _ _ _ m q (visit_pointer lib bigallocs m a q)
            (λ m' q'. rw kept refl)
            (Scanned-mono lib bigallocs _ _ _ m q (visit_pointer lib bigallocs m a q)
              (λ b. (λ e. (e, kept), λ s. s.0))
              (Scanned-pointer lib bigallocs a m q (visit_pointer lib bigallocs m a q) refl)))
  ]

  walk_on :
      (skip : ℕ → Bool) (lo limit a : ℕ)
      → lo < limit
      → (((a ≡ lo) × (skip lo ≡ false)) ⊎ OnWalk skip (lo + 8) limit a) ↔ OnWalk skip lo limit a
  walk_on skip lo limit a more = (
    λ s. elim s [
      | inl (e, kept) ↦ (0, omega arith, omega arith, rw e kept)
      | inr (k, at, hi, kept) ↦ (k + 1, omega arith, hi, kept)
    ],
    λ (k, at, hi, kept). elim (dec_lt 0 k) [
      | yes later ↦ inr (k - 1, omega arith, hi, kept)
      | no now ↦ let e : a ≡ lo = omega arith in inl (e, subst (λ b. skip b ≡ false) e kept)
    ],
  )

  -- A segment scan that returns has enqueued exactly the valid heap pointers in the words of the
  -- segment, but for those passed over.
  pub scan_words-Scanned :
      (skip : ℕ → Bool) (fuel lo limit : ℕ) (m : Memory) (q r : List ℕ)
      → scan_words lib bigallocs skip fuel lo limit m q ≡ done r
      → Scanned lib bigallocs
          (OnWalk skip lo limit)
          (λ m' q'. scan_words lib bigallocs skip fuel lo limit m' q')
          m
          q
          r
  unfolding scan_words
  scan_words-Scanned skip zero lo limit m q r h = cc
  scan_words-Scanned skip (suc fuel) lo limit m q r h = elim (Bool-cases (ltb lo limit)) [
    | inr over ↦
        let h' : done q ≡ done r = rw over at h in
        Scanned-run lib bigallocs _ _ _ m q r (λ m' q'. rw over refl)
          (Scanned-none lib bigallocs (OnWalk skip lo limit) m q r
            (λ a (k, at, hi, _). ground arith) (cc))
    | inl more ↦
        let mid = if skip lo then q else visit_pointer lib bigallocs m lo q in
        Scanned-run lib bigallocs _ _ _ m q r (λ m' q'. rw more refl)
          (Scanned-mono lib bigallocs _ _ _ m q r (λ a. walk_on skip lo limit a (ground arith))
            (Scanned-then lib bigallocs (λ b. (b ≡ lo) × (skip lo ≡ false))
              (OnWalk skip (lo + 8) limit)
              (λ m' q'. done (if skip lo then q' else visit_pointer lib bigallocs m' lo q'))
              (λ m' q'. scan_words lib bigallocs skip fuel (lo + 8) limit m' q') m q mid r
              (visit_unless skip lo m q)
              (scan_words-Scanned skip fuel (lo + 8) limit m mid r (rw more at h))))
  ]

  -- The scan of a segment returns, given a round for each word and one more, and adds at most one
  -- pointer for each word.
  pub scan_words_ends :
      (skip : ℕ → Bool) (words lo limit : ℕ) (m : Memory) (q : List ℕ)
      → limit ≤ lo + 8 * words
      → (r : List ℕ) × (scan_words lib bigallocs skip (suc words) lo limit m q ≡ done r)
        × (length r ≤ length q + words)
  unfolding scan_words
  scan_words_ends skip zero lo limit m q h = (q, ground arith, omega arith)
  scan_words_ends skip (suc words) lo limit m q h = elim (Bool-cases (ltb lo limit)) [
    | inr over ↦ (q, rw over refl, omega arith)
    | inl more ↦
        let mid = if skip lo then q else visit_pointer lib bigallocs m lo q in
        let (r, ends, size) = scan_words_ends skip words (lo + 8) limit m mid (omega arith) in
        (r, rw more ends, ground (arith, length-visit_pointer m lo q))
  ]
