-- ===== src/Tests/Library.antt =====
-- The functions of the C library at small inputs.
use asmc.Prelude.{
  ℕ, suc, ◌<◌, [], option, All, ◌==◌, ◌+◌, ◌≤◌, false, Option, none, some, ◌∷◌, ◌++◌, ◌≡◌, refl,
  arith, codes, length, replicate, length-replicate, if◌then◌else◌, drop, sym, ap, ◌∙◌,
}
use asmc.Cstring.{Bytes}
use asmc.Stdlib.Ctype.{islower, isupper, isalpha, isalnum, tolower, toupper, ctype-cases}
use asmc.Stdlib.Duplicate.{IsChar, Pdclib, overrun, strdup, strdup_lem}

-- The length of a string in memory.
abbrev measured : Bytes → Option ℕ
measured [] = none
measured (c ∷ s) = if c == 0 then some 0 else option (measured s) none (λ n. some (n + 1))

measured-length : (s rest : Bytes) → All IsChar s → measured (s ++ 0 ∷ rest) ≡ some (length s)
measured-length [] rest h = refl
measured-length (c ∷ s) rest (p, h) =
    let char : (c == 0) ≡ false = ground arith in
    let next : length s + 1 ≡ suc (length s) = omega arith in
    rw (char, measured-length s rest h, next) refl

-- A string with its terminator, written over the beginning of a block.
abbrev copied : Bytes → Bytes → Option Bytes
copied [] s = none
copied (x ∷ block) [] = none
copied (x ∷ block) (c ∷ s) =
    if c == 0 then some (0 ∷ block) else option (copied block s) none (λ b. some (c ∷ b))

copied-fits :
    (block s rest : Bytes)
    → All IsChar s
    → length s < length block
    → copied block (s ++ 0 ∷ rest) ≡ some (s ++ 0 ∷ drop (length s + 1) block)
copied-fits [] s rest h l = absurd (omega arith)
copied-fits (x ∷ block) [] rest h l = refl
copied-fits (x ∷ block) (c ∷ s) rest (p, h) l =
    let char : (c == 0) ≡ false = ground arith in
    let next : suc (length s) + 1 ≡ suc (length s + 1) = omega arith in
    rw (char, copied-fits block s rest h (omega arith), next) refl

copied-overrun :
    (block s rest : Bytes)
    → All IsChar s
    → length block ≤ length s
    → copied block (s ++ 0 ∷ rest) ≡ none
copied-overrun [] [] rest h l = refl
copied-overrun [] (c ∷ s) rest h l = refl
copied-overrun (x ∷ block) [] rest h l = absurd (omega arith)
copied-overrun (x ∷ block) (c ∷ s) rest (p, h) l =
    let char : (c == 0) ≡ false = ground arith in
    rw (char, copied-overrun block s rest h (omega arith)) refl

some-length : (n : ℕ) (block : Bytes) → some (replicate n 0) ≡ some block → length block ≡ n
some-length n block e =
    let same : replicate n 0 ≡ block = ground arith in ap length (sym same) ∙ length-replicate n 0

-- Blocks of zeros.
abbrev pdclib : Pdclib
pdclib = record {
  malloc = λ n. some (replicate n 0);
  strlen = measured;
  strcpy = copied;
  length-malloc = some-length;
  strlen-length = measured-length;
  strcpy-fits = copied-fits;
  strcpy-overrun = copied-overrun;
}

strdup_lem_example : strdup pdclib (codes "asm" ++ 0 ∷ codes "rest") ≡ overrun
strdup_lem_example =
    strdup_lem pdclib b'a' (codes "sm") (codes "rest") (omega arith, (omega arith, tt))

ctype-cases_example :
    (islower (tolower b'Q') ≡ isalpha b'Q')
    × (isupper (toupper b'Q') ≡ isalpha b'Q')
    × (tolower (toupper b'Q') ≡ tolower b'Q')
    × (toupper (tolower b'Q') ≡ toupper b'Q')
    × (isalnum b'Q' ≡ isalpha b'Q')
ctype-cases_example = ctype-cases b'Q'
