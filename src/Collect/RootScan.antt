-- ===== src/Collect/RootScan.antt =====
-- The four scans of gc_collect, one after the other: what is a root.
use mathlib.Core.List.{Memᴰ}
use mathlib.Core.List.Memᴰ
use precision_gc.Base.{
  false, refl, ◌∷◌, ◌<◌, ◌==◌, ◌&&◌, ==_self, ℕ, suc, ◌+◌, ◌*◌, ◌≤◌, ◌≡◌, sym, ◌≢◌, ◌↔◌, ◌⊎◌, inl,
  inr, true, List, [], arith, length, subst, ==_ne,
}
use precision_gc.Heap.{Memory, Layout}
use precision_gc.Types.{Run, done, Liballocs, valid_heap_object}
use precision_gc.Types.Slots.{Scanned}
use precision_gc.Types.Valid.{IsObject, valid_heap_object-IsObject}
use precision_gc.Collect.{
  Registers, RootSet, Fuel, register_list, visit_registers, scan_registers, no_skip, is_head,
  scan_stack, scan_data_segment, scan_bss_segment, scan_roots,
}
use precision_gc.Collect.Roots.{
  mem-visit_registers, length-visit_registers, OnWalk, scan_words-Scanned, scan_words_ends,
}

-- What the sixteen general registers hold.
abbrev pub Held : Registers → ℕ → Type 0
Held g p = Memᴰ p (
    g.rax ∷ g.rbx ∷ g.rcx ∷ g.rdx ∷ g.rbp ∷ g.rsp ∷ g.rsi ∷ g.rdi ∷ g.r8 ∷ g.r9 ∷ g.r10 ∷ g.r11
    ∷ g.r12 ∷ g.r13 ∷ g.r14 ∷ g.r15 ∷ [])

-- a word that starts in the range, counted from its start
abbrev pub InRange : ℕ → ℕ → ℕ → Type 0
InRange lo hi a = (k : ℕ) × (a ≡ lo + 8 * k) × (a < hi)

-- A pointer to a heap object that a register holds, or a word of the stack, of .data, or of .bss other
-- than heap_list_head.
abbrev pub IsRoot : Layout → Liballocs → List ℕ → RootSet → Memory → ℕ → Type 0
IsRoot v lib bigallocs r m p =
    IsObject lib bigallocs p
    × (Held r.registers p
        ⊎ ((a : ℕ) × (m.word a ≡ p)
            × (InRange r.stack_pointer r.stack_base a
                ⊎ InRange r.data_start r.edata a
                ⊎ (InRange r.bss_start r.end a × (a ≢ v.heap_list_head)))))

OnWalk-InRange : (lo hi a : ℕ) → OnWalk (no_skip) lo hi a ↔ InRange lo hi a
OnWalk-InRange lo hi a = (λ (k, at, less, _). (k, at, less), λ (k, at, less). (k, at, less, refl))

OnWalk-head :
    (v : Layout) (m : Memory) (lo hi a : ℕ)
    → OnWalk (is_head v m) lo hi a ↔ (InRange lo hi a × (a ≢ v.heap_list_head))
OnWalk-head v m lo hi a = (
  λ (k, at, less, kept). (
    (k, at, less),
    λ e.
        let kept' : (v.heap_list_head == v.heap_list_head
              && (m.word v.heap_list_head == m.word v.heap_list_head))
            ≡ false =
          subst (λ b. ((b == v.heap_list_head) && (m.word b == m.word v.heap_list_head)) ≡ false) e
            kept in
        cc (==_self v.heap_list_head, ==_self (m.word v.heap_list_head), kept'),
  ),
  λ ((k, at, less), ne). (k, at, less, rw (==_ne a v.heap_list_head ne) refl),
)

-- the same, with the walks of the four scans
Walked : Layout → Liballocs → List ℕ → RootSet → Memory → ℕ → Type 0
Walked v lib bigallocs r m p =
    IsObject lib bigallocs p
    × (Memᴰ p (register_list r.registers)
        ⊎ ((a : ℕ) × (m.word a ≡ p)
            × (OnWalk (no_skip) r.stack_pointer r.stack_base a
                ⊎ OnWalk (no_skip) r.data_start r.edata a
                ⊎ OnWalk (is_head v m) r.bss_start r.end a)))

Walked-IsRoot :
    (v : Layout) (lib : Liballocs) (bigallocs : List ℕ) (r : RootSet) (m : Memory) (p : ℕ)
    → Walked v lib bigallocs r m p ↔ IsRoot v lib bigallocs r m p
unfolding Walked
Walked-IsRoot v lib bigallocs r m p = (
  λ (ok, w). (
    ok,
    elim w [
      | inl held ↦ inl held
      | inr (a, e, at) ↦ inr (
        a,
        e,
        elim at [
          | inl s ↦ inl ((OnWalk-InRange r.stack_pointer r.stack_base a).0 s)
          | inr (inl s) ↦ inr (inl ((OnWalk-InRange r.data_start r.edata a).0 s))
          | inr (inr s) ↦ inr (inr ((OnWalk-head v m r.bss_start r.end a).0 s))
        ],
      )
    ],
  ),
  λ (ok, w). (
    ok,
    elim w [
      | inl held ↦ inl held
      | inr (a, e, at) ↦ inr (
        a,
        e,
        elim at [
          | inl s ↦ inl ((OnWalk-InRange r.stack_pointer r.stack_base a).1 s)
          | inr (inl s) ↦ inr (inl ((OnWalk-InRange r.data_start r.edata a).1 s))
          | inr (inr s) ↦ inr (inr ((OnWalk-head v m r.bss_start r.end a).1 s))
        ],
      )
    ],
  ),
)

-- The stack has been found, and `words` rounds are enough for each scanned range.
pub record IsScannable (r : RootSet) (fuel : Fuel) (words : ℕ) : Type 0 where
  pub scan : fuel.scan ≡ suc words
  pub pointer : r.stack_pointer ≢ 0
  pub base : r.stack_base ≢ 0
  pub stack : r.stack_base ≤ r.stack_pointer + 8 * words
  pub segment : r.edata ≤ r.data_start + 8 * words
  pub bss : r.end ≤ r.bss_start + 8 * words

Found : Liballocs → List ℕ → (ℕ → Type 0) → Memory → List ℕ → List ℕ → Type 0
Found lib bigallocs P m q r =
    (p : ℕ) → Memᴰ p r ↔ (Memᴰ p q ⊎ (IsObject lib bigallocs p × ((a : ℕ) × (m.word a ≡ p) × P a)))

Scanned-Found :
    (lib : Liballocs) (bigallocs : List ℕ) (P : ℕ → Type 0) (f : Memory → List ℕ → Run (List ℕ))
    (m : Memory) (q r : List ℕ)
    → Scanned lib bigallocs P f m q r
    → Found lib bigallocs P m q r
unfolding Found
Scanned-Found lib bigallocs P f m q r s p = (
  λ h. elim (Memᴰ.append_cases q (subst (λ l. Memᴰ p l) s.result h)) [
    | inl old ↦ inl old
    | inr new ↦ let (a, at, e, ok) = (s.exact p).0 new in inr (ok, (a, e, at))
  ],
  λ w.
      subst (λ l. Memᴰ p l) (sym s.result)
        (elim w [
          | inl old ↦ Memᴰ.append_left s.found old
          | inr (ok, (a, e, at)) ↦ Memᴰ.append_right q ((s.exact p).1 (a, at, e, ok))
        ]),
)

roots_exact :
    (lib : Liballocs) (bigallocs rs : List ℕ) (P Q R : ℕ → Type 0) (m : Memory)
    (q₀ q₁ q₂ q₃ : List ℕ) (p : ℕ)
    → (Memᴰ p q₀ ↔ (Memᴰ p [] ⊎ (Memᴰ p rs × (valid_heap_object lib bigallocs p ≡ true))))
    → Found lib bigallocs P m q₀ q₁
    → Found lib bigallocs Q m q₁ q₂
    → Found lib bigallocs R m q₂ q₃
    → Memᴰ p q₃
      ↔ (IsObject lib bigallocs p × (Memᴰ p rs ⊎ ((a : ℕ) × (m.word a ≡ p) × (P a ⊎ Q a ⊎ R a))))
unfolding Found
roots_exact lib bigallocs rs P Q R m q₀ q₁ q₂ q₃ p regs one two three = (
  λ h. elim ((three p).0 h) [
    | inr (ok, (a, e, at)) ↦ (ok, inr (a, e, inr (inr at)))
    | inl h₂ ↦ elim ((two p).0 h₂) [
      | inr (ok, (a, e, at)) ↦ (ok, inr (a, e, inr (inl at)))
      | inl h₁ ↦ elim ((one p).0 h₁) [
        | inr (ok, (a, e, at)) ↦ (ok, inr (a, e, inl at))
        | inl h₀ ↦ elim (regs.0 h₀) [
          | inl nothing ↦ absurd (Memᴰ.not-nil nothing)
          | inr (at, ok) ↦ ((valid_heap_object-IsObject lib bigallocs p).0 ok, inl at)
        ]
      ]
    ]
  ],
  λ (ok, w). elim w [
    | inl at ↦ (three p).1 (
        inl (
          (two p).1 (
            inl (
              (one p).1
                (inl (regs.1 (inr (at, (valid_heap_object-IsObject lib bigallocs p).1 ok))))))))
    | inr (a, e, where_) ↦ elim where_ [
      | inl at ↦ (three p).1 (inl ((two p).1 (inl ((one p).1 (inr (ok, (a, e, at)))))))
      | inr (inl at) ↦ (three p).1 (inl ((two p).1 (inr (ok, (a, e, at)))))
      | inr (inr at) ↦ (three p).1 (inr (ok, (a, e, at)))
    ]
  ],
)

module _ (v : Layout) (lib : Liballocs) (free : ℕ → Memory → Memory) (fuel : Fuel) (r : RootSet)
    (bigallocs : List ℕ) (m : Memory) (words : ℕ) (ok : IsScannable r fuel words) where
  -- When the stack's base and pointer have been found and the fuel has a round for each word of the
  -- longest range and one more, the four scans return, and what they have enqueued is exactly the roots:
  -- the pointers to heap objects that a general register holds, or a word of the stack, of .data, or of
  -- .bss but for the variable heap_list_head.
  pub scan_roots-IsRoot :
      (q : List ℕ) × (scan_roots v lib free fuel r bigallocs m [] ≡ done q)
      × ((p : ℕ) → Memᴰ p q ↔ IsRoot v lib bigallocs r m p)
      × (length q ≤ 16 + 3 * words)
  unfolding Walked scan_roots scan_stack scan_data_segment scan_bss_segment scan_registers
  scan_roots-IsRoot =
      let regs = register_list r.registers in
      let q₀ = visit_registers lib bigallocs regs [] in
      let (q₁, e₁, l₁) =
        scan_words_ends lib bigallocs (no_skip) words r.stack_pointer r.stack_base m q₀ ok.stack in
      let (q₂, e₂, l₂) =
        scan_words_ends lib bigallocs (no_skip) words r.data_start r.edata m q₁ ok.segment in
      let (q₃, e₃, l₃) =
        scan_words_ends lib bigallocs (is_head v m) words r.bss_start r.end m q₂ ok.bss in
      let s₁ =
        scan_words-Scanned lib bigallocs (no_skip) (suc words) r.stack_pointer r.stack_base m q₀ q₁
          e₁ in
      let s₂ =
        scan_words-Scanned lib bigallocs (no_skip) (suc words) r.data_start r.edata m q₁ q₂ e₂ in
      let s₃ =
        scan_words-Scanned lib bigallocs (is_head v m) (suc words) r.bss_start r.end m q₂ q₃ e₃ in
      (
        q₃,
        rw (ok.scan, ==_ne r.stack_base 0 ok.base, ==_ne r.stack_pointer 0 ok.pointer, e₁, e₂) e₃,
        λ p.
            let same =
              roots_exact lib bigallocs regs (OnWalk (no_skip) r.stack_pointer r.stack_base)
                (OnWalk (no_skip) r.data_start r.edata) (OnWalk (is_head v m) r.bss_start r.end) m
                q₀ q₁ q₂ q₃ p (mem-visit_registers lib bigallocs regs [] p)
                (Scanned-Found lib bigallocs _ _ m q₀ q₁ s₁)
                (Scanned-Found lib bigallocs _ _ m q₁ q₂ s₂)
                (Scanned-Found lib bigallocs _ _ m q₂ q₃ s₃) in
            let range = Walked-IsRoot v lib bigallocs r m p in
            (λ at. range.0 (same.0 at), λ w. same.1 (range.1 w)),
        omega (arith, length-visit_registers lib bigallocs regs []),
      )
