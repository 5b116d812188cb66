-- ===== src/Types/Object.antt =====
-- The scan of a whole heap object, whose type liballocs tells.
use precision_gc.Base.{
  ℕ, ◌≡◌, refl, sym, ap, ◌↔◌, inl, inr, ◌⊎◌, subst, false, Bool-cases, Option, none, some, List,
}
use precision_gc.Heap.{Memory}
use precision_gc.Types.{
  Run, done, abort, out_of_fuel, ◌>>=◌, Liballocs, object_uniqtype, process_heap_object_recursive,
}
use precision_gc.Types.Slots.{Slot, Scanned, Scanned-none, Scanned-run, Scanned-mono}
use precision_gc.Types.Scan.{process_typed-Scanned}

module _ (lib : Liballocs) where
  -- What liballocs knows of the allocation at an address is the type t: the type that it has been given,
  -- or what make_precise makes of that for this allocation.
  abbrev pub HasType : ℕ → lib.Uniqtype → Type 0
  HasType o t =
      ((lib.alloc_info o).err ≡ false)
      × ((u : lib.Uniqtype) × ((lib.alloc_info o).uniqtype ≡ some u)
          × (((lib.make_precise u ≡ none) × (t ≡ u))
              ⊎ ((f : ℕ → ℕ → ℕ → Option lib.Uniqtype) × (lib.make_precise u ≡ some f)
                  × (f o (lib.alloc_info o).start (lib.alloc_info o).size ≡ some t))))

  -- a pointer field of the heap object at o
  abbrev pub ObjectSlot : ℕ → ℕ → Type 0
  ObjectSlot o a = (t : lib.Uniqtype) × HasType o t × Slot lib t o a

  option_cases : {A : Type 0} (x : Option A) → (x ≡ none) ⊎ ((a : A) × (x ≡ some a))
  option_cases none = inl refl
  option_cases (some a) = inr (a, refl)

  some_inj : {A : Type 0} {a b : A} → some a ≡ some b → a ≡ b
  some_inj h = cc

  object_uniqtype-HasType :
      (o : ℕ) (t : lib.Uniqtype) → (object_uniqtype lib o none ≡ done (some t)) ↔ HasType o t
  unfolding object_uniqtype
  object_uniqtype-HasType o t = (
    λ h. elim (Bool-cases (lib.alloc_info o).err) [
      | inl on ↦ cc (rw on at h)
      | inr off ↦ elim (option_cases (lib.alloc_info o).uniqtype) [
        | inl missing ↦ cc (rw (off, missing) at h)
        | inr (u, found) ↦ elim (option_cases (lib.make_precise u)) [
          | inl rough ↦
              let h' : done (some u) ≡ done (some t) = rw (off, found, rough) at h in
              (off, (u, found, inl (rough, cc)))
          | inr (f, fine) ↦
              let h' : done (f o (lib.alloc_info o).start (lib.alloc_info o).size) ≡ done (some t) =
                rw (off, found, fine) at h in
              (off, (u, found, inr (f, fine, cc)))
        ]
      ]
    ],
    λ (off, (u, found, what)). elim what [
      | inl (rough, e) ↦ rw (off, found, rough) (ap (λ w. done (some w)) (sym e))
      | inr (f, fine, e) ↦ rw (off, found, fine) (ap done e)
    ],
  )

  Run-cases :
      {A : Type 0} (r : Run (Option A)) {B : Type 0} (k : Option A → Run B) {b : B}
      → (r >>= k) ≡ done b
      → (r ≡ done none) ⊎ ((a : A) × (r ≡ done (some a)))
  Run-cases (done none) k h = inl refl
  Run-cases (done (some a)) k h = inr (a, refl)
  Run-cases abort k h = cc
  Run-cases out_of_fuel k h = cc

  module _ (bigallocs : List ℕ) where
    -- A scan of a heap object that returns has enqueued, behind what was in the queue, exactly the
    -- pointers to heap objects that stand in the pointer fields of the object, by the type that liballocs
    -- tells of it, made precise if it can be. Fields of an array inside a structure are none of them.
    pub process_heap_object_recursive-Scanned :
        (fuel : ℕ) (m : Memory) (o : ℕ) (q r : List ℕ)
        → process_heap_object_recursive lib bigallocs m fuel o none q ≡ done r
        → Scanned lib bigallocs
            (ObjectSlot o)
            (λ m' q'. process_heap_object_recursive lib bigallocs m' fuel o none q')
            m
            q
            r
    unfolding process_heap_object_recursive
    process_heap_object_recursive-Scanned fuel m o q r h =
        elim (Run-cases (object_uniqtype lib o none) _ h) [
          | inl untyped ↦
              let h' : done q ≡ done r = rw untyped at h in
              Scanned-run lib bigallocs _ _ _ m q r (λ m' q'. rw untyped refl)
                (Scanned-none lib bigallocs (ObjectSlot o) m q r
                  (λ a (t, e, _). cc ((object_uniqtype-HasType o t).1 e)) (cc))
          | inr (t, typed) ↦
              Scanned-run lib bigallocs _ _ _ m q r (λ m' q'. rw typed refl)
                (Scanned-mono lib bigallocs _ _ _ m q r
                  (λ a. (
                    λ s. (t, (object_uniqtype-HasType o t).0 typed, s),
                    λ (u, e, s).
                        subst (λ w. Slot lib w o a) (cc ((object_uniqtype-HasType o u).1 e)) s,
                  ))
                  (process_typed-Scanned lib bigallocs fuel m o t q r (rw typed at h)))
        ]
