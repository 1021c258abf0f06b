-- ===== src/Stdlib/Duplicate.antt =====
-- diskfs/stdlib/string.h: `strdup`, the project's own. What it calls is copied from PDCLib or given by
-- the loader, and is a parameter.
use asmc.Prelude.{
  true, false, ℕ, zero, suc, ◌+◌, ◌≤◌, ◌<◌, ◌&&◌, Option, none, some, [], ◌∷◌, ◌++◌, ltb, ◌==◌,
  if◌then◌else◌, ◌≡◌, refl, arith, length, drop, option, All, Option-cases, inl, inr,
}
use asmc.Cstring.{Bytes}

-- A byte of a string.
abbrev pub IsChar : ℕ → Type 0
IsChar c = 0 < c

-- The memory from a pointer on is the list of its bytes, and so is a block of the heap. `strlen` is
-- `none` where the memory has no terminator, `malloc` is `none` for a null pointer, and `strcpy` is
-- `none` where it writes behind the block, and else the block after the copy.
pub record Pdclib : Type 0 where
  pub malloc : ℕ → Option Bytes
  pub strlen : Bytes → Option ℕ
  pub strcpy : Bytes → Bytes → Option Bytes
  pub length-malloc : (n : ℕ) (block : Bytes) → malloc n ≡ some block → length block ≡ n
  pub strlen-length : (s rest : Bytes) → All IsChar s → strlen (s ++ 0 ∷ rest) ≡ some (length s)
  pub strcpy-fits :
      (block s rest : Bytes)
      → All IsChar s
      → length s < length block
      → strcpy block (s ++ 0 ∷ rest) ≡ some (s ++ 0 ∷ drop (length s + 1) block)
  pub strcpy-overrun :
      (block s rest : Bytes)
      → All IsChar s
      → length block ≤ length s
      → strcpy block (s ++ 0 ∷ rest) ≡ none

-- What becomes of a call: it reads on behind all of the memory, it copies to a null pointer, it writes
-- behind its block, or it returns the block.
pub data Duplicate : Type 0 where
  unterminated null_write overrun : Duplicate
  duplicated : Bytes → Duplicate

module _ (lib : Pdclib) where
  -- `s` is the memory from the pointer on, and `s+1` that behind its first byte.
  unfoldable pub strdup : Bytes → Duplicate
  strdup s = option (lib.strlen (drop 1 s)) unterminated (λ n.
      option (lib.malloc n) null_write (λ block. option (lib.strcpy block s) overrun duplicated))

  copy :
      (c : ℕ) (s rest block : Bytes)
      → All IsChar s
      → length block ≡ length s
      → option (lib.strcpy block (c ∷ s ++ 0 ∷ rest)) overrun duplicated
        ≡ (if c == 0 && ltb 0 (length s) then duplicated (0 ∷ drop 1 block) else overrun)
  copy zero [] rest block h e = rw (lib.strcpy-overrun block [] (0 ∷ rest) tt (omega arith)) refl
  copy zero (d ∷ s) rest block h e =
      let some_text : ltb 0 (suc (length s)) ≡ true = ground arith in
      rw (lib.strcpy-fits block [] (d ∷ s ++ 0 ∷ rest) tt (omega arith), some_text) refl
  copy (suc c) s rest block h e =
      let no_end : (suc c == 0) ≡ false = ground arith in
      rw (lib.strcpy-overrun block (suc c ∷ s) rest (omega arith, h) (omega arith), no_end) refl

  -- `strdup` requests a block for the string behind its first byte, without a place for that byte and
  -- the terminator. A block that it gets is overrun by every string but the empty one, and by that too
  -- when the text behind its terminator is empty; else the empty string is copied. Without a block it
  -- copies to the null pointer.
  pub strdup_lem :
      (c : ℕ) (s rest : Bytes)
      → All IsChar s
      → strdup (c ∷ s ++ 0 ∷ rest)
        ≡ option
            (lib.malloc (length s))
            null_write
            (λ block. if c == 0 && ltb 0 (length s) then duplicated (0 ∷ drop 1 block) else overrun)
  unfolding strdup
  strdup_lem c s rest h = elim (Option-cases (lib.malloc (length s))) [
    | inl p ↦ rw (lib.strlen-length s rest h, p) refl
    | inr (block, p) ↦
        rw (lib.strlen-length s rest h, p)
          (copy c s rest block h (lib.length-malloc (length s) block p))
  ]
