-- ===== src/Types/Fuel.antt =====
-- The fuel for the scan of an object, against how deep its type is nested.
use precision_gc.Base.{
  ℕ, zero, suc, ◌+◌, ◌<◌, ◌≡◌, refl, ◌≢◌, inl, inr, true, List, arith, Bool-cases,
}
use precision_gc.Heap.{Memory}
use precision_gc.Types.{
  Run, done, abort, out_of_fuel, ◌>>=◌, Liballocs, members, element_type, element_offset,
  element_known, process_member, process_members, process_typed,
}

-- A type is contained in none of its own members: liballocs gives the nesting a depth.
pub record Nesting (lib : Liballocs) : Type 0 where
  pub depth : lib.Uniqtype → ℕ
  pub member :
      (t : lib.Uniqtype) (i : ℕ)
      → lib.has_subobjects t ≡ true
      → i < members lib t
      → lib.is_composite (element_type lib t i) ≡ true
      → depth (element_type lib t i) < depth t

>>=-ne_out_of_fuel :
    {A B : Type 0} (run : Run A) (f : A → Run B)
    → run ≢ out_of_fuel
    → ((a : A) → f a ≢ out_of_fuel)
    → (run >>= f) ≢ out_of_fuel
>>=-ne_out_of_fuel (done a) f h k e = k a e
>>=-ne_out_of_fuel abort f h k e = cc
>>=-ne_out_of_fuel out_of_fuel f h k e = h refl

module _ (lib : Liballocs) (nesting : Nesting lib) (bigallocs : List ℕ) (m : Memory) where
  open lib use {Uniqtype, is_void, has_subobjects, is_composite, is_pointer}

  module _ (recurse : ℕ → Uniqtype → List ℕ → Run (List ℕ)) (o : ℕ) (t : Uniqtype)
      (ends : (i : ℕ)
        → i < members lib t
        → is_composite (element_type lib t i) ≡ true
        → (a : ℕ) (q : List ℕ) → recurse a (element_type lib t i) q ≢ out_of_fuel) where
    process_member_ends :
        (i : ℕ) (q : List ℕ)
        → i < members lib t
        → process_member lib bigallocs m recurse o t i q ≢ out_of_fuel
    unfolding process_member
    process_member_ends i q hi e = elim (Bool-cases (element_known lib t)) [
      | inr unknown ↦ cc (rw unknown at e)
      | inl known ↦ elim (Bool-cases (is_pointer (element_type lib t i))) [
        | inl pointer ↦ cc (rw (known, pointer) at e)
        | inr plain ↦ elim (Bool-cases (is_composite (element_type lib t i))) [
          | inl composite ↦
              ends i hi composite (o + element_offset lib t i) q (rw (known, plain, composite) at e)
          | inr other ↦ cc (rw (known, plain, other) at e)
        ]
      ]
    ]

    process_members_ends :
        (left i : ℕ) (q : List ℕ)
        → i + left ≡ members lib t
        → process_members lib bigallocs m recurse o t left i q ≢ out_of_fuel
    unfolding process_members
    process_members_ends zero i q h = λ e. cc
    process_members_ends (suc left) i q h =
        >>=-ne_out_of_fuel (process_member lib bigallocs m recurse o t i q)
          (process_members lib bigallocs m recurse o t left (i + 1))
          (process_member_ends i q (omega arith))
          (λ q'. process_members_ends left (i + 1) q' (omega arith))

  -- When types nest finitely deep, and there is more fuel than the type of the object is deep, the scan
  -- of the object does not run out of fuel: it returns or an assertion fails.
  pub process_typed_ends :
      (fuel o : ℕ) (t : Uniqtype) (q : List ℕ)
      → nesting.depth t < fuel
      → process_typed lib bigallocs m fuel o t q ≢ out_of_fuel
  unfolding process_typed
  process_typed_ends zero o t q h e = omega arith
  process_typed_ends (suc fuel) o t q h e = elim (Bool-cases (is_void t)) [
    | inl void ↦ cc (rw void at e)
    | inr nv ↦ elim (Bool-cases (has_subobjects t)) [
      | inr leaf ↦ cc (rw (nv, leaf) at e)
      | inl sub ↦
          process_members_ends (process_typed lib bigallocs m fuel) o t
            (λ i hi c a q'.
              process_typed_ends fuel a (element_type lib t i) q'
                (omega (arith, nesting.member t i sub hi c)))
            (members lib t) 0 q (omega arith) (rw (nv, sub) at e)
    ]
  ]
