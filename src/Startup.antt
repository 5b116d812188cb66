-- ===== src/Startup.antt =====
-- gc_init of gc.c: the base of the stack is read from the text of /proc/self/stat.
pub mod Fields
use precision_gc.Base.{
  ℕ, zero, suc, ◌+◌, ◌-◌, ◌*◌, ◌%◌, ◌^◌, Bool, true, false, not, ◌&&◌, ◌||◌, Option, none, some,
  List, [], ◌∷◌, ltb, leb, ◌==◌, if◌then◌else◌, take,
}
use precision_gc.Types.{Run, done, abort}

-- isspace and isdigit of the C locale
abbrev pub is_space : ℕ → Bool
is_space c = (c == 32) || (leb 9 c && leb c 13)

abbrev pub is_digit : ℕ → Bool
is_digit c = leb 48 c && leb c 57

-- The globals that gc_init sets.
pub record Started : Type 0 where
  pub stack_base : ℕ
  pub mutex : ℕ
  pub initialised : Bool

abbrev pub stat_skip : ℕ
stat_skip = 27

abbrev pub stat_buf_size : ℕ
stat_buf_size = 4096

-- A position in the buffer is the text from there on. `while (isspace(stat_buf[buf_offset++]))`, which
-- also passes the character that ends the loop
unfoldable pub pass_spaces : List ℕ → List ℕ
pass_spaces [] = []
pass_spaces (c ∷ text) = let rest = pass_spaces text in if is_space c then rest else text

-- `while (!isspace(stat_buf[buf_offset++]))`
unfoldable pub pass_word : List ℕ → List ℕ
pass_word [] = []
pass_word (c ∷ text) = let rest = pass_word text in if not (is_space c) then rest else text

unfoldable pub skip_fields : ℕ → List ℕ → List ℕ
skip_fields zero text = text
skip_fields (suc n) text = skip_fields n (pass_word (pass_spaces text))

-- `while (isspace(stat_buf[buf_offset])) buf_offset++`
unfoldable pub skip_spaces : List ℕ → List ℕ
skip_spaces [] = []
skip_spaces (c ∷ text) = let rest = skip_spaces text in if is_space c then rest else c ∷ text

abbrev pub prepend : ℕ → Option (List ℕ) → Option (List ℕ)
prepend c none = none
prepend c (some cs) = some (c ∷ cs)

-- The digits up to the character that ends the number; `none` if the buffer ends first.
unfoldable pub number_text : List ℕ → Option (List ℕ)
number_text [] = none
number_text (c ∷ text) =
    let rest = number_text text in if not (is_digit c) then some [] else prepend c rest

-- strtoull in base 10 on digits, which stops at the largest number
unfoldable pub accumulate : ℕ → List ℕ → ℕ
accumulate n [] = n
accumulate n (c ∷ cs) = accumulate (n * 10 + (c - 48)) cs

unfoldable pub strtoull : List ℕ → ℕ
strtoull cs = let n = accumulate 0 cs in if ltb n (2 ^ 64) then n else 2 ^ 64 - 1

-- the assertion on the address and what is set after it
unfoldable pub start : ℕ → Run Started
start base =
    if ltb 0x10_0000 base && (base % 8 == 0)
    then done (record { stack_base = base; mutex = 1; initialised = true })
    else abort

abbrev pub with_number : Option (List ℕ) → Run Started
with_number none = abort
with_number (some cs) = start (strtoull cs)

-- The argument is the content of the file, if it can be opened.
unfoldable pub gc_init : Option (List ℕ) → Run Started
gc_init none = abort
gc_init (some file) =
    with_number (number_text (skip_spaces (skip_fields stat_skip (take stat_buf_size file))))
