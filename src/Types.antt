-- ===== src/Types.antt =====
-- The typed scan of an object (gc.c, process_heap_object_recursive, valid_heap_object), over
-- liballocs, which tells the types, bounds and allocator of an address.
pub mod Valid
pub mod Slots
pub mod Scan
pub mod Fuel
pub mod Object
pub mod Bigallocs
use precision_gc.Base.{
  ℕ, zero, suc, ◌+◌, ◌*◌, ◌%◌, ◌/◌, ◌^◌, Bool, true, false, not, ◌&&◌, ◌||◌, Option, none, some,
  List, [], ◌∷◌, ◌++◌, ltb, leb, ◌==◌, if◌then◌else◌,
}
use precision_gc.Heap.{Memory}
use precision_gc.Heap.Blocks.{user_end}

-- What a call leaves behind: a result, a failed assertion or a crash, or a model out of fuel.
pub data Run (A : Type 0) : Type 0 where
  done : A → Run A
  abort out_of_fuel : Run A

infixl 5 ◌>>=◌
abbrev pub ◌>>=◌ : {A B : Type 0} → Run A → (A → Run B) → Run B
done a >>= f = f a
abort >>= f = abort
out_of_fuel >>= f = out_of_fuel

-- The answer of __liballocs_get_alloc_info: whether it returned an error, and what the out
-- parameters hold then. `generic_malloc` says that the allocator is __generic_malloc_allocator.
pub record AllocInfo (Uniqtype : Type 0) : Type 0 where
  pub err : Bool
  pub generic_malloc : Bool
  pub start : ℕ
  pub size : ℕ
  pub uniqtype : Option Uniqtype

-- liballocs: types with the macros that read them, the page index, and the queries. `member_type t i`
-- and `member_offset t i` are `related[i].un.memb`.
pub record Liballocs : Type 1 where
  pub Uniqtype : Type 0
  pub is_void : Uniqtype → Bool
  pub has_subobjects : Uniqtype → Bool
  pub is_composite : Uniqtype → Bool
  pub is_pointer : Uniqtype → Bool
  pub has_known_length : Uniqtype → Bool
  pub member_count : Uniqtype → ℕ
  pub member_type : Uniqtype → ℕ → Uniqtype
  pub member_offset : Uniqtype → ℕ → ℕ
  pub array_length : Uniqtype → ℕ
  pub array_element : Uniqtype → Uniqtype
  pub pos_maxoff : Uniqtype → ℕ
  pub page_index : ℕ → ℕ
  pub alloc_info : ℕ → AllocInfo Uniqtype
  pub make_precise : Uniqtype → Option (ℕ → ℕ → ℕ → Option Uniqtype)

-- IS_PLAUSIBLE_POINTER
unfoldable pub is_plausible_pointer : ℕ → Bool
is_plausible_pointer p = leb 4194304 p && ltb p user_end

module _ (lib : Liballocs) where
  open lib use {
    Uniqtype, is_void, has_subobjects, is_composite, is_pointer, has_known_length, member_count,
    member_type, member_offset, array_length, array_element, pos_maxoff, page_index, alloc_info,
    make_precise,
  }

  unfoldable pub has_index : ℕ → List ℕ → Bool
  has_index index [] = false
  has_index index (b ∷ bs) = if index == b then true else has_index index bs

  -- over the indices of bigallocs_list
  unfoldable pub valid_bigalloc : List ℕ → ℕ → Bool
  unfolding has_index
  valid_bigalloc bigallocs pointer = has_index (page_index pointer) bigallocs

  unfoldable pub new_bigalloc : List ℕ → ℕ → List ℕ
  new_bigalloc bigallocs pointer =
      if not (valid_bigalloc bigallocs pointer) then page_index pointer ∷ bigallocs else bigallocs

  unfoldable pub valid_heap_object : List ℕ → ℕ → Bool
  valid_heap_object bigallocs pointer =
      if is_plausible_pointer pointer
      then (if valid_bigalloc bigallocs pointer
          then (let info = alloc_info pointer in
              info.generic_malloc && not (info.size == 0) && (pointer == info.start))
          else false)
      else false

  -- The type that the scan of an object goes by: the one given, or else the precise type of the
  -- allocation, if its query succeeds. `done none` is a NULL type.
  unfoldable pub object_uniqtype : ℕ → Option Uniqtype → Run (Option Uniqtype)
  object_uniqtype object (some t) = done (some t)
  object_uniqtype object none =
      let info = alloc_info object in
      if info.err then abort else elim info.uniqtype [
        | none ↦ abort
        | some t ↦ elim (make_precise t) [
          | none ↦ done (some t)
          | some precise ↦ done (precise object info.start info.size)
        ]
      ]

  -- `members` and the type and offset of member `i`, an array's element at `i * pos_maxoff` in
  -- unsigned arithmetic
  unfoldable pub members : Uniqtype → ℕ
  members t = if is_composite t then member_count t else array_length t

  unfoldable pub element_type : Uniqtype → ℕ → Uniqtype
  element_type t i = if is_composite t then member_type t i else array_element t

  unfoldable pub element_offset : Uniqtype → ℕ → ℕ
  element_offset t i =
      if is_composite t then member_offset t i else i * pos_maxoff (array_element t) % 2 ^ 32

  -- The assertion in the loop: an array's elements have a known length.
  unfoldable pub element_known : Uniqtype → Bool
  element_known t = is_composite t || has_known_length (member_type t 0)

  module _ (bigallocs : List ℕ) (m : Memory) where
    -- The queue after the pointer at an address has been looked at.
    unfoldable pub visit_pointer : ℕ → List ℕ → List ℕ
    visit_pointer address queue =
        let pointed_to_object = m.word address in
        if valid_heap_object bigallocs pointed_to_object
        then queue ++ (pointed_to_object ∷ [])
        else queue

    -- One round of the loop over the members; `recurse` is the call on a sub-object.
    unfoldable pub process_member :
        (ℕ → Uniqtype → List ℕ → Run (List ℕ)) → ℕ → Uniqtype → ℕ → List ℕ → Run (List ℕ)
    process_member recurse object t i queue =
        let address = object + element_offset t i in
        let element = element_type t i in
        if not (element_known t)
        then abort
        else if is_pointer element
        then done (visit_pointer address queue)
        else if is_composite element
        then recurse address element queue
        else done queue

    -- The rounds left, from member `i` on.
    unfoldable pub process_members :
        (ℕ → Uniqtype → List ℕ → Run (List ℕ)) → ℕ → Uniqtype → ℕ → ℕ → List ℕ → Run (List ℕ)
    process_members recurse object t zero i queue = done queue
    process_members recurse object t (suc left) i queue =
        process_member recurse object t i queue >>= process_members recurse object t left (i + 1)

    -- The body for an object whose type is known; the fuel bounds the nesting of types.
    unfoldable pub process_typed : ℕ → ℕ → Uniqtype → List ℕ → Run (List ℕ)
    process_typed zero object t queue = out_of_fuel
    process_typed (suc fuel) object t queue =
        let scan = process_members (process_typed fuel) object t (members t) 0 queue in
        if is_void t then done queue else if not (has_subobjects t) then done queue else scan

    unfoldable pub process_heap_object_recursive : ℕ → ℕ → Option Uniqtype → List ℕ → Run (List ℕ)
    process_heap_object_recursive fuel object object_type queue =
        object_uniqtype object object_type >>= λ found. elim found [
          | none ↦ done queue
          | some t ↦ process_typed fuel object t queue
        ]
