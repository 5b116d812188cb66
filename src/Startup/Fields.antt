-- ===== src/Startup/Fields.antt =====
-- gc_init on a text that is made of fields.
use Prim.Native.Nat.pow
use precision_gc.Base.{
  ℕ, ◌+◌, ◌-◌, ◌*◌, ◌%◌, ◌^◌, ◌≡◌, ◌≤◌, ◌<◌, refl, ap, sym, ◌∙◌, true, false, some, List, [], ◌∷◌,
  ◌++◌, arith, All, length, take, take-all,
}
use precision_gc.Types.{done}
use precision_gc.Startup.{
  is_space, is_digit, pass_spaces, pass_word, skip_fields, skip_spaces, number_text, accumulate,
  strtoull, start, gc_init, with_number, stat_skip, stat_buf_size,
}

-- A field: one character or more, none of them white space.
abbrev pub IsField : List ℕ → Type 0
IsField [] = ⊥
IsField (c ∷ cs) = (is_space c ≡ false) × All (λ d. is_space d ≡ false) cs

-- fields with a space behind each
abbrev pub printed : List (List ℕ) → List ℕ → List ℕ
printed [] rest = rest
printed (f ∷ fs) rest = f ++ 32 ∷ printed fs rest

-- the number that digits stand for
abbrev pub value : List ℕ → ℕ
value [] = 0
value (c ∷ cs) = (c - 48) * 10 ^ length cs + value cs

pass_word-field :
    (cs rest : List ℕ) → All (λ d. is_space d ≡ false) cs → pass_word (cs ++ 32 ∷ rest) ≡ rest
unfolding pass_word
pass_word-field [] rest h = refl
pass_word-field (c ∷ cs) rest (word, h) = rw word (pass_word-field cs rest h)

pass-IsField : (f rest : List ℕ) → IsField f → pass_word (pass_spaces (f ++ 32 ∷ rest)) ≡ rest
unfolding pass_spaces
pass-IsField [] rest bad = absurd bad
pass-IsField (c ∷ cs) rest (word, h) = rw word (pass_word-field cs rest h)

skip_fields-printed :
    (fs : List (List ℕ)) (rest : List ℕ)
    → All IsField fs
    → skip_fields (length fs) (printed fs rest) ≡ rest
unfolding skip_fields
skip_fields-printed [] rest h = refl
skip_fields-printed (f ∷ fs) rest (field, h) =
    ap (skip_fields (length fs)) (pass-IsField f (printed fs rest) field)
    ∙ skip_fields-printed fs rest h

number_text-digits :
    (ds rest : List ℕ) (stop : ℕ)
    → All (λ d. is_digit d ≡ true) ds
    → is_digit stop ≡ false
    → number_text (ds ++ stop ∷ rest) ≡ some ds
unfolding number_text
number_text-digits [] rest stop h end = rw end refl
number_text-digits (d ∷ ds) rest stop (digit, h) end =
    rw (digit, number_text-digits ds rest stop h end) refl

-- one more digit in front of the others
shift : (n e p w : ℕ) → (n * 10 + e) * p + w ≡ n * (p * 10) + (e * p + w)
shift n e p w = omega arith

accumulate-value : (n : ℕ) (ds : List ℕ) → accumulate n ds ≡ n * 10 ^ length ds + value ds
unfolding accumulate
accumulate-value n [] = omega arith
accumulate-value n (d ∷ ds) =
    accumulate-value (n * 10 + (d - 48)) ds
    ∙ shift n (d - 48) (10 ^ length ds) (value ds)
    ∙ ap (λ p. n * p + ((d - 48) * 10 ^ length ds + value ds)) (sym (pow.suc 10 (length ds)))

strtoull-value : (ds : List ℕ) → value ds < 2 ^ 64 → strtoull ds ≡ value ds
unfolding strtoull
strtoull-value ds h = rw (accumulate-value 0 ds) (ground arith)

start_lem :
    (base : ℕ)
    → 0x10_0000 < base
    → base % 8 ≡ 0
    → start base ≡ done (record { stack_base = base; mutex = 1; initialised = true })
unfolding start
start_lem base low even = ground arith

skip_spaces-digit : (d : ℕ) (rest : List ℕ) → is_digit d ≡ true → skip_spaces (d ∷ rest) ≡ d ∷ rest
unfolding skip_spaces
skip_spaces-digit d rest digit = ground arith

-- When the file has 27 fields without white space inside, each followed by a space, then the digits of
-- a number and a character that is no digit, and fits in the buffer, and the number is a possible
-- stack address (above 0x100000, below 2^64, a multiple of 8), then gc_init takes the number as the
-- base of the stack and leaves the semaphore free.
pub gc_init-printed :
    (fields : List (List ℕ)) (ds rest : List ℕ) (stop : ℕ)
    → length fields ≡ 27
    → All IsField fields
    → All (λ d. is_digit d ≡ true) ds
    → is_digit stop ≡ false
    → length (printed fields (ds ++ stop ∷ rest)) ≤ 4096
    → 0x10_0000 < value ds
    → value ds < 2 ^ 64
    → value ds % 8 ≡ 0
    → gc_init (some (printed fields (ds ++ stop ∷ rest)))
      ≡ done (record { stack_base = value ds; mutex = 1; initialised = true })
unfolding gc_init
gc_init-printed fields [] rest stop count ok digits end fits low high even = absurd (omega arith)
gc_init-printed fields (d ∷ ds) rest stop count ok digits end fits low high even =
    let text = printed fields ((d ∷ ds) ++ stop ∷ rest) in
    let behind : skip_fields stat_skip (take stat_buf_size text) ≡ (d ∷ ds) ++ stop ∷ rest =
      ap (skip_fields stat_skip) (take-all stat_buf_size text fits)
      ∙ ap (λ n. skip_fields n text) (sym count)
      ∙ skip_fields-printed fields ((d ∷ ds) ++ stop ∷ rest) ok in
    ap (λ l. with_number (number_text (skip_spaces l))) behind
    ∙ ap (λ l. with_number (number_text l)) (skip_spaces-digit d (ds ++ stop ∷ rest) digits.0)
    ∙ ap with_number (number_text-digits (d ∷ ds) rest stop digits end)
    ∙ ap start (strtoull-value (d ∷ ds) high)
    ∙ start_lem (value (d ∷ ds)) low even
