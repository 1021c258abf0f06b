-- ===== src/Stdlib/Strings.antt =====
-- diskfs/stdlib/string.h: `strcmp`, the project's own.
use asmc.Prelude.{ℕ, ◌<◌, [], ◌∷◌, ltb, ◌==◌, if◌then◌else◌, ◌≡◌, refl, arith, All}
use asmc.Cstring.{Bytes, minus_one}
use asmc.Cstring

-- One round of the loop on two bytes; `rest` is what the later rounds return.
abbrev pub compare_round : ℕ → ℕ → ℕ → ℕ
compare_round a b rest =
    if ltb a b then minus_one else if ltb b a then 1 else if a == 0 then 0 else rest

unfoldable pub strcmp : Bytes → Bytes → ℕ
strcmp [] [] = 0
strcmp [] (b ∷ y) = compare_round 0 b 0
strcmp (a ∷ x) [] = compare_round a 0 0
strcmp (a ∷ x) (b ∷ y) = let rest = strcmp x y in compare_round a b rest

-- A byte that is not negative as a signed `char`.
abbrev pub IsAscii : ℕ → Type 0
IsAscii c = c < 128

-- On strings of ASCII `strcmp` of the C library, on unsigned bytes, is `strcmp2` of the assembler, on
-- signed ones.
pub strcmp-strcmp2 : (x y : Bytes) → All IsAscii x → All IsAscii y → strcmp x y ≡ Cstring.strcmp x y
unfolding strcmp Cstring.strcmp
strcmp-strcmp2 [] [] h k = refl
strcmp-strcmp2 [] (b ∷ y) h (p, k) = ground arith
strcmp-strcmp2 (a ∷ x) [] (p, h) k = ground arith
strcmp-strcmp2 (a ∷ x) (b ∷ y) (p, h) (q, k) = ground (arith, strcmp-strcmp2 x y h k)
