-- ===== src/Samples/Stat.antt =====
-- gc_init on a text of 27 fields of one letter and the number 2097152.
use precision_gc.Base.{ℕ, zero, suc, ◌≡◌, refl, ◌++◌, true, some, List, [], ◌∷◌, arith, All}
use precision_gc.Types.{done}
use precision_gc.Startup.{gc_init}
use precision_gc.Startup.Fields.{IsField, printed, value, gc_init-printed}

abbrev letters : ℕ → List (List ℕ)
letters zero = []
letters (suc n) = (65 ∷ []) ∷ letters n

letters-IsField : (n : ℕ) → All IsField (letters n)
letters-IsField zero = tt
letters-IsField (suc n) = ((refl, tt), letters-IsField n)

abbrev digits : List ℕ
digits = 50 ∷ 48 ∷ 57 ∷ 55 ∷ 49 ∷ 53 ∷ 50 ∷ []

gc_init-printed_example :
    gc_init (some (printed (letters 27) (digits ++ 32 ∷ [])))
    ≡ done (record { stack_base = value digits; mutex = 1; initialised = true })
gc_init-printed_example =
    gc_init-printed (letters 27) digits [] 32 refl (letters-IsField 27)
      (refl, (refl, (refl, (refl, (refl, (refl, (refl, tt))))))) refl (omega arith) (omega arith)
      (omega arith) refl
