-- ===== src/Tests/CcTexts.antt =====
-- The passes of the C compiler over small texts.
use asmc.Prelude.{some, [], ◌∷◌, ◌++◌, ◌≡◌, refl, arith, codes, length, All}
use asmc.Cstring.{Bytes}
use asmc.Cc.Text.{find_matching}
use asmc.Cc.Matching.{Balanced, empty, other, group, find_matching-Balanced}
use asmc.Cc.Literals.{mark, fix_strings, fix_round}
use asmc.Cc.Protected.{OnLine, fix_strings-literal, fix_strings-OnLine}
use asmc.Cc.Operations.{fix_operations}
use asmc.Cc.Pairs.{Tokenized, Free, expand, fix_operations_lem}

-- x(y)
abbrev argument : Bytes
argument = codes "x(y)"

argument-Balanced : Balanced b'(' b')' argument
argument-Balanced =
    other b'x' (codes "(y)") (omega arith) (omega arith)
      (group (codes "y") [] (other b'y' [] (omega arith) (omega arith) empty) empty)

find_matching-Balanced_example :
    find_matching b'(' b')' (b'(' ∷ argument ++ b')' ∷ codes "+1") ≡ some 5
find_matching-Balanced_example =
    find_matching-Balanced b'(' b')' (omega arith) argument (codes "+1") argument-Balanced
      (omega arith)

semicolon : fix_strings (codes ";") ≡ some (codes ";")
unfolding fix_strings fix_round
semicolon = refl

fix_strings-literal_example :
    fix_strings (codes "\"a*\";") ≡ some (b'"' ∷ mark b'a' ∷ mark b'*' ∷ b'"' ∷ codes ";")
fix_strings-literal_example =
    fix_strings-literal (codes "a*") (codes ";") (codes ";") (omega arith) semicolon

comment : fix_strings (codes "a\n/*\n*/") ≡ some (codes "a      ")
unfolding fix_strings fix_round
comment = refl

fix_strings-OnLine_example :
    (length (codes "a      ") ≡ length (codes "a\n/*\n*/")) × All OnLine (codes "a      ")
fix_strings-OnLine_example =
    fix_strings-OnLine (codes "a\n/*\n*/") (codes "a      ") (omega arith) comment

fix_operations_lem_example :
    Tokenized (codes "a<<=b|| c") (fix_operations (codes "a<<=b|| c"))
    × Free (fix_operations (codes "a<<=b|| c"))
    × (expand (fix_operations (codes "a<<=b|| c")) ≡ codes "a<<=b|| c")
fix_operations_lem_example =
    fix_operations_lem (codes "a<<=b|| c")
      (refl, (refl, (refl, (refl, (refl, (refl, (refl, (refl, (refl, tt)))))))))
