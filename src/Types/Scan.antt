-- ===== src/Types/Scan.antt =====
-- The scan of an object against the places where its type says that pointers are.
use native.Mathlib.Decide.{dec_le}
use precision_gc.Base.{
  ℕ, zero, suc, ◌+◌, ◌≤◌, ◌<◌, ◌≡◌, refl, sym, ◌↔◌, inl, inr, true, false, List, arith, Bool-cases,
  subst,
}
use precision_gc.Heap.{Memory}
use precision_gc.Types.{
  Run, done, abort, out_of_fuel, ◌>>=◌, Liballocs, members, element_type, element_offset,
  element_known, visit_pointer, process_member, process_members, process_typed,
}
use precision_gc.Types.Slots.{
  Element, Slot, direct, nested, MemberSlot, Scanned, Scanned-none, Scanned-mono, Scanned-then,
  Scanned-pointer, Scanned-run,
}

module _ (lib : Liballocs) where
  open lib use {Uniqtype, is_void, has_subobjects, is_composite, is_pointer}

  module _ (bigallocs : List ℕ) where
    >>=-eq-done :
        {A B : Type 0} (run : Run A) (f : A → Run B) {b : B}
        → (run >>= f) ≡ done b
        → (a : A) × (run ≡ done a) × (f a ≡ done b)
    >>=-eq-done (done a) f h = (a, refl, h)
    >>=-eq-done abort f h = cc
    >>=-eq-done out_of_fuel f h = cc

    module _ (recurse : Memory → ℕ → Uniqtype → List ℕ → Run (List ℕ))
        (scanned : (m : Memory) (o : ℕ) (t : Uniqtype) (q r : List ℕ)
          → recurse m o t q ≡ done r
          → Scanned lib bigallocs (Slot lib t o) (λ m' q'. recurse m' o t q') m q r) where
      process_member-Scanned :
          (o : ℕ) (t : Uniqtype) (i : ℕ) (m : Memory) (q r : List ℕ)
          → process_member lib bigallocs m (recurse m) o t i q ≡ done r
          → Scanned lib bigallocs
              (MemberSlot lib t o i)
              (λ m' q'. process_member lib bigallocs m' (recurse m') o t i q')
              m
              q
              r
      unfolding process_member
      process_member-Scanned o t i m q r h = elim (Bool-cases (element_known lib t)) [
        | inr unknown ↦ cc (rw unknown at h)
        | inl known ↦ elim (Bool-cases (is_pointer (element_type lib t i))) [
          | inl pointer ↦
              let h' : done (visit_pointer lib bigallocs m (o + element_offset lib t i) q)
                  ≡ done r =
                rw (known, pointer) at h in
              Scanned-run lib bigallocs _ _ _ m q r (λ m' q'. rw (known, pointer) refl)
                (Scanned-mono lib bigallocs _ _ _ m q r
                  (λ a. (
                    λ e. inl (pointer, e),
                    λ s. elim s [ inl (_, e) ↦ e | inr (no_pointer, _, _) ↦ cc ],
                  ))
                  (Scanned-pointer lib bigallocs (o + element_offset lib t i) m q r (cc)))
          | inr plain ↦ elim (Bool-cases (is_composite (element_type lib t i))) [
            | inl composite ↦
                Scanned-run lib bigallocs _ _ _ m q r (λ m' q'. rw (known, plain, composite) refl)
                  (Scanned-mono lib bigallocs _ _ _ m q r
                    (λ a. (
                      λ s. inr (plain, composite, s),
                      λ s. elim s [ inl (p, _) ↦ cc | inr (_, _, s') ↦ s' ],
                    ))
                    (scanned m (o + element_offset lib t i) (element_type lib t i) q r
                      (rw (known, plain, composite) at h)))
            | inr other ↦
                let h' : done q ≡ done r = rw (known, plain, other) at h in
                Scanned-run lib bigallocs _ _ _ m q r (λ m' q'. rw (known, plain, other) refl)
                  (Scanned-none lib bigallocs (MemberSlot lib t o i) m q r
                    (λ a s. elim s [ inl (p, _) ↦ cc | inr (_, c, _) ↦ cc ]) (cc))
          ]
        ]
      ]

      process_members-Scanned :
          (o : ℕ) (t : Uniqtype) (left i : ℕ) (m : Memory) (q r : List ℕ)
          → process_members lib bigallocs m (recurse m) o t left i q ≡ done r
          → Scanned lib bigallocs
              (λ a. (j : ℕ) × (i ≤ j) × (j < i + left) × MemberSlot lib t o j a)
              (λ m' q'. process_members lib bigallocs m' (recurse m') o t left i q')
              m
              q
              r
      unfolding process_members
      process_members-Scanned o t zero i m q r h =
          Scanned-none lib bigallocs _ m q r (λ a (j, lo, hi, _). omega arith) (cc)
      process_members-Scanned o t (suc left) i m q r h =
          let (mid, one, rest) =
            >>=-eq-done (process_member lib bigallocs m (recurse m) o t i q)
              (process_members lib bigallocs m (recurse m) o t left (i + 1)) h in
          Scanned-mono lib bigallocs _ _ _ m q r
            (λ a. (
              λ s. elim s [
                | inl now ↦ (i, omega arith, omega arith, now)
                | inr (j, lo, hi, at) ↦ (j, omega arith, omega arith, at)
              ],
              λ (j, lo, hi, at). elim (dec_le (i + 1) j) [
                | yes later ↦ inr (j, later, omega arith, at)
                | no now ↦ inl (subst (λ k. MemberSlot lib t o k a) (omega arith) at)
              ],
            ))
            (Scanned-then lib bigallocs (MemberSlot lib t o i)
              (λ a. (j : ℕ) × (i + 1 ≤ j) × (j < i + 1 + left) × MemberSlot lib t o j a)
              (λ m' q'. process_member lib bigallocs m' (recurse m') o t i q')
              (λ m' q'. process_members lib bigallocs m' (recurse m') o t left (i + 1) q') m q mid r
              (process_member-Scanned o t i m q mid one)
              (process_members-Scanned o t left (i + 1) m mid r rest))

    -- the element with the number i, and the members of a type are its elements
    element_type-Element :
        (t : Uniqtype) (o i : ℕ)
        → i < members lib t
        → Element lib t o (element_type lib t i) (o + element_offset lib t i)
    unfolding members element_type element_offset
    element_type-Element t o i h = elim (Bool-cases (is_composite t)) [
      | inl composite ↦
          let h' : i < lib.member_count t = rw composite at h in
          rw composite (inl (refl, (i, h', refl, refl)))
      | inr array ↦
          let h' : i < lib.array_length t = rw array at h in
          rw array (inr (refl, (i, h', refl, refl)))
    ]

    Element-member :
        (t : Uniqtype) (o : ℕ) {e : Uniqtype} {a : ℕ}
        → Element lib t o e a
        → (i : ℕ) × (i < members lib t)
          × (element_type lib t i ≡ e)
          × (o + element_offset lib t i ≡ a)
    unfolding members element_type element_offset
    Element-member t o (inl (composite, (i, h, e, at))) =
        (i, rw composite h, rw composite (sym e), rw composite (sym at))
    Element-member t o (inr (array, (i, h, e, at))) =
        (i, rw array h, rw array (sym e), rw array (sym at))

    slots_of_members :
        {t : Uniqtype}
        → is_void t ≡ false
        → has_subobjects t ≡ true
        → (o a : ℕ)
        → ((j : ℕ) × (0 ≤ j) × (j < 0 + members lib t) × MemberSlot lib t o j a) ↔ Slot lib t o a
    slots_of_members {t} nv sub o a = (
      λ (j, _, hi, at). elim at [
        | inl (p, e) ↦
            direct (element_type lib t j) nv sub
              (subst (λ b. Element lib t o (element_type lib t j) b) (sym e)
                (element_type-Element t o j (omega arith)))
              p
        | inr (np, c, s) ↦
            nested (element_type lib t j) (o + element_offset lib t j) nv sub
              (element_type-Element t o j (omega arith)) np c s
      ],
      split,
    )
      where
        split :
            Slot lib t o a → (j : ℕ) × (0 ≤ j) × (j < 0 + members lib t) × MemberSlot lib t o j a
        split (direct e _ _ el p) =
            let (i, hi, te, at) = Element-member t o el in
            (i, omega arith, omega arith, inl (rw te p, sym at))
        split (nested e b _ _ el np c s) =
            let (i, hi, te, at) = Element-member t o el in
            (i, omega arith, omega arith, inr (rw te np, rw te c, rw (te, at) s))

    Slot-open :
        {t : Uniqtype} {o a : ℕ} → Slot lib t o a → (is_void t ≡ false) × (has_subobjects t ≡ true)
    Slot-open (direct e nv sub _ _) = (nv, sub)
    Slot-open (nested e b nv sub _ _ _ _) = (nv, sub)

    -- What a scan that returns has done, behind what was in the queue: it enqueued exactly the pointers to
    -- heap objects that stand in the pointer fields of the object, which are the pointers among the
    -- members of a structure or the elements of an array and, recursively, those of members and elements
    -- that are structures; an array inside a structure or an array has none.
    pub process_typed-Scanned :
        (fuel : ℕ) (m : Memory) (o : ℕ) (t : Uniqtype) (q r : List ℕ)
        → process_typed lib bigallocs m fuel o t q ≡ done r
        → Scanned lib bigallocs
            (Slot lib t o)
            (λ m' q'. process_typed lib bigallocs m' fuel o t q')
            m
            q
            r
    unfolding process_typed
    process_typed-Scanned zero m o t q r h = cc
    process_typed-Scanned (suc fuel) m o t q r h = elim (Bool-cases (is_void t)) [
      | inl void ↦
          let h' : done q ≡ done r = rw void at h in
          Scanned-run lib bigallocs _ _ _ m q r (λ m' q'. rw void refl)
            (Scanned-none lib bigallocs (Slot lib t o) m q r (λ a s. cc ((Slot-open s).0)) (cc))
      | inr nv ↦ elim (Bool-cases (has_subobjects t)) [
        | inr leaf ↦
            let h' : done q ≡ done r = rw (nv, leaf) at h in
            Scanned-run lib bigallocs _ _ _ m q r (λ m' q'. rw (nv, leaf) refl)
              (Scanned-none lib bigallocs (Slot lib t o) m q r (λ a s. cc ((Slot-open s).1)) (cc))
        | inl sub ↦
            Scanned-run lib bigallocs _ _ _ m q r (λ m' q'. rw (nv, sub) refl)
              (Scanned-mono lib bigallocs _ _ _ m q r (slots_of_members nv sub o) (
                process_members-Scanned (λ m'. process_typed lib bigallocs m' fuel)
                  (λ m' o' t' q' r'. process_typed-Scanned fuel m' o' t' q' r') o t (members lib t)
                  0 m q r (rw (nv, sub) at h)))
      ]
    ]
