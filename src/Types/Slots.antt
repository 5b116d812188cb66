-- ===== src/Types/Slots.antt =====
-- Where the type of an object says that pointers are, and what a scan of such places does.
use mathlib.Core.List.{Memᴰ, append-nil, append_assoc}
use mathlib.Core.List.Memᴰ
use precision_gc.Base.{
  ℕ, ◌+◌, ◌*◌, ◌%◌, ◌^◌, ◌<◌, ◌≡◌, refl, sym, ap, ◌∙◌, ◌↔◌, ◌⊎◌, inl, inr, true, false, List, [],
  ◌∷◌, ◌++◌, Bool-cases,
}
use precision_gc.Heap.{Memory}
use precision_gc.Types.{
  Run, done, ◌>>=◌, Liballocs, valid_heap_object, element_type, element_offset, visit_pointer,
}
use precision_gc.Types.Valid.{IsObject, valid_heap_object-IsObject}

module _ (lib : Liballocs) where
  open lib use {Uniqtype, is_void, has_subobjects, is_composite, is_pointer}

  -- A structure of type `t` at `o` has a member of type `e` at `a`, or an array has an element there; the
  -- offset of an element is taken in unsigned arithmetic of 32 bits.
  abbrev pub Element : Uniqtype → ℕ → Uniqtype → ℕ → Type 0
  Element t o e a =
      ((is_composite t ≡ true)
        × ((i : ℕ) × (i < lib.member_count t)
            × (e ≡ lib.member_type t i)
            × (a ≡ o + lib.member_offset t i)))
      ⊎ ((is_composite t ≡ false)
          × ((i : ℕ) × (i < lib.array_length t)
              × (e ≡ lib.array_element t)
              × (a ≡ o + i * lib.pos_maxoff (lib.array_element t) % 2 ^ 32)))

  -- An object of type `t` at `o` has a pointer field at address `a`: a pointer among its members or
  -- elements, or a pointer field of one that is itself a structure. An array in it is not entered.
  pub data Slot : Uniqtype → ℕ → ℕ → Type 0 where
    direct :
        {t : Uniqtype} {o a : ℕ} (e : Uniqtype)
        → is_void t ≡ false
        → has_subobjects t ≡ true
        → Element t o e a
        → is_pointer e ≡ true
        → Slot t o a
    nested :
        {t : Uniqtype} {o a : ℕ} (e : Uniqtype) (b : ℕ)
        → is_void t ≡ false
        → has_subobjects t ≡ true
        → Element t o e b
        → is_pointer e ≡ false
        → is_composite e ≡ true
        → Slot e b a
        → Slot t o a

  -- the pointer fields of member `i`
  abbrev pub MemberSlot : Uniqtype → ℕ → ℕ → ℕ → Type 0
  MemberSlot t o i a =
      ((is_pointer (element_type lib t i) ≡ true) × (a ≡ o + element_offset lib t i))
      ⊎ ((is_pointer (element_type lib t i) ≡ false)
          × (is_composite (element_type lib t i) ≡ true)
          × Slot (element_type lib t i) (o + element_offset lib t i) a)

  module _ (bigallocs : List ℕ) where
    -- A scan of the places `S` succeeded: it enqueued the valid pointers that it found there, and
    -- would do the same from any other queue, and in any memory with the same words there.
    pub record Scanned (S : ℕ → Type 0) (run : Memory → List ℕ → Run (List ℕ)) (m : Memory)
        (q r : List ℕ) : Type 0 where
      pub found : List ℕ
      pub result : r ≡ q ++ found
      pub exact :
          (p : ℕ) → Memᴰ p found ↔ ((a : ℕ) × S a × (m.word a ≡ p) × IsObject lib bigallocs p)
      pub again :
          (m' : Memory) (q' : List ℕ)
          → ((a : ℕ) → S a → m'.word a ≡ m.word a)
          → run m' q' ≡ done (q' ++ found)

    pub Scanned-none :
        (S : ℕ → Type 0) (m : Memory) (q r : List ℕ)
        → ((a : ℕ) → ¬ S a)
        → q ≡ r
        → Scanned S (λ m' q'. done q') m q r
    Scanned-none S m q r no_slot e = record {
      found = [];
      result = sym e ∙ sym (append-nil q);
      exact = λ p. (λ h. absurd (Memᴰ.not-nil h), λ (a, s, _, _). absurd (no_slot a s));
      again = λ m' q' h. ap done (sym (append-nil q'));
    }

    pub Scanned-mono :
        (S T : ℕ → Type 0) (run : Memory → List ℕ → Run (List ℕ)) (m : Memory) (q r : List ℕ)
        → ((a : ℕ) → S a ↔ T a)
        → Scanned S run m q r
        → Scanned T run m q r
    Scanned-mono S T run m q r e s = record {
      found = s.found;
      result = s.result;
      exact = λ p. (
        λ h. (let (a, at, w, ok) = (s.exact p).0 h in (a, (e a).0 at, w, ok)),
        λ (a, at, w, ok). (s.exact p).1 (a, (e a).1 at, w, ok),
      );
      again = λ m' q' h. s.again m' q' (λ a at. h a ((e a).0 at));
    }

    pub Scanned-then :
        (S T : ℕ → Type 0) (run next : Memory → List ℕ → Run (List ℕ)) (m : Memory) (q r t : List ℕ)
        → Scanned S run m q r
        → Scanned T next m r t
        → Scanned (λ a. S a ⊎ T a) (λ m' q'. run m' q' >>= next m') m q t
    Scanned-then S T run next m q r t s u = record {
      found = s.found ++ u.found;
      result = u.result ∙ ap (λ l. l ++ u.found) s.result ∙ append_assoc q s.found u.found;
      exact = λ p. (
        λ h. elim (Memᴰ.append_cases s.found h) [
          | inl one ↦ let (a, at, w, ok) = (s.exact p).0 one in (a, inl at, w, ok)
          | inr two ↦ let (a, at, w, ok) = (u.exact p).0 two in (a, inr at, w, ok)
        ],
        λ (a, at, w, ok). elim at [
          | inl one ↦ Memᴰ.append_left u.found ((s.exact p).1 (a, one, w, ok))
          | inr two ↦ Memᴰ.append_right s.found ((u.exact p).1 (a, two, w, ok))
        ],
      );
      again = λ m' q' h. rw (s.again m' q' (λ a at. h a (inl at))) (
          u.again m' (q' ++ s.found) (λ a at. h a (inr at))
          ∙ ap done (append_assoc q' s.found u.found));
    }

    pub Scanned-pointer :
        (address : ℕ) (m : Memory) (q r : List ℕ)
        → visit_pointer lib bigallocs m address q ≡ r
        → Scanned
            (λ a. a ≡ address)
            (λ m' q'. done (visit_pointer lib bigallocs m' address q'))
            m
            q
            r
    unfolding visit_pointer
    Scanned-pointer address m q r e =
        elim (Bool-cases (valid_heap_object lib bigallocs (m.word address))) [
          | inl ok ↦ record {
            found = m.word address ∷ [];
            result = sym e ∙ rw ok refl;
            exact = λ p. (
              λ h. (
                address,
                refl,
                sym (Memᴰ.eq_of_singleton h),
                (valid_heap_object-IsObject lib bigallocs p).0 (rw (Memᴰ.eq_of_singleton h) ok),
              ),
              λ (a, at, w, _). Memᴰ.head (sym w ∙ ap m.word at),
            );
            again = λ m' q' h. rw (h address refl, ok) refl;
          }
          | inr bad ↦ record {
            found = [];
            result = sym e ∙ rw bad (sym (append-nil q));
            exact = λ p. (
              λ h. absurd (Memᴰ.not-nil h),
              λ (a, at, w, ok). cc (
                ap (λ b. valid_heap_object lib bigallocs (m.word b)) at,
                ap (valid_heap_object lib bigallocs) w,
                (valid_heap_object-IsObject lib bigallocs p).1 ok,
              ),
            );
            again = λ m' q' h. rw (h address refl, bad) (ap done (sym (append-nil q')));
          }
        ]

    pub Scanned-run :
        (S : ℕ → Type 0) (run run' : Memory → List ℕ → Run (List ℕ)) (m : Memory) (q r : List ℕ)
        → ((m' : Memory) (q' : List ℕ) → run' m' q' ≡ run m' q')
        → Scanned S run m q r
        → Scanned S run' m q r
    Scanned-run S run run' m q r e s = record {
      found = s.found;
      result = s.result;
      exact = s.exact;
      again = λ m' q' h. e m' q' ∙ s.again m' q' h;
    }
