-- ===== src/Tests/Cstrings.antt =====
-- The string helpers and the numerals at inputs that meet the hypotheses.
use asmc.Prelude.{none, some, ◌≡◌, ◌↔◌, refl, arith, codes}
use asmc.Cstring.{strcmp, find_char, trimstr}
use asmc.Cstring.Compare.{strcmp-eq-zero_iff}
use asmc.Cstring.Find.{FirstAt, find_char_iff}
use asmc.Cstring.Trim.{IsTrimOf, trimstr-IsTrimOf}
use asmc.Numbers.{decode_number}
use asmc.Numbers.Numeral.{Spells, decode_number_iff}

trims : trimstr (codes " \tmov eax, 1 ") ≡ codes "mov eax, 1"
unfolding trimstr
trims = refl

reads_hex : decode_number (codes "0x1f") ≡ some 31
unfolding decode_number
reads_hex = refl

refuses_upper_case : decode_number (codes "0x1F") ≡ none
unfolding decode_number
refuses_upper_case = refl

strcmp-eq-zero_iff_example : (strcmp (codes "eax") (codes "eax") ≡ 0) ↔ (codes "eax" ≡ codes "eax")
strcmp-eq-zero_iff_example =
    strcmp-eq-zero_iff (codes "eax") (codes "eax") (omega arith) (omega arith)

find_char_iff_example :
    (find_char (codes "al, [esp]") b',' ≡ some 2) ↔ FirstAt (codes "al, [esp]") b',' 2
find_char_iff_example = find_char_iff (codes "al, [esp]") b',' 2 (omega arith)

trimstr-IsTrimOf_example : IsTrimOf (codes "  ret ") (trimstr (codes "  ret "))
trimstr-IsTrimOf_example = trimstr-IsTrimOf (codes "  ret ")

decode_number_iff_example : (decode_number (codes "0x1f") ≡ some 31) ↔ Spells (codes "0x1f") 31
decode_number_iff_example = decode_number_iff (codes "0x1f") 31
