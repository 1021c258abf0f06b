-- ===== src/Tests/Tokens.antt =====
-- Tokens and literals of the G language at inputs that meet the hypotheses.
use asmc.Prelude.{[], ◌≡◌, ◌↔◌, refl, arith, codes, true, some}
use asmc.Globals.{emit_str}
use asmc.Compiler.Token.{is_whitespace, in_code, read_token, emit_escaped_string}
use asmc.Compiler.Words.{read_token-word}
use asmc.Compiler.Escapes.{emit_escaped_string-quoted}
use asmc.Cc.Numbers.{decode_number, decode_number-IsNumeral_iff}
use asmc.Numbers.Numeral.{IsNumeral}
use asmc.Tests.Start.{start}

read_token-word_example : read_token in_code [] (codes " \nfun main") ≡ (codes "fun", codes "main")
unfolding is_whitespace
read_token-word_example =
    read_token-word (codes " \n") b'f' (codes "un") b' ' (codes "main") (refl, (refl, tt))
      (
        (refl, omega arith, omega arith, omega arith),
        (
          (refl, omega arith, omega arith, omega arith),
          ((refl, omega arith, omega arith, omega arith), tt),
        ),
      )
      refl

emit_escaped_string-quoted_example :
    emit_escaped_string (codes "\"a\\n\\\"\"") start ≡ emit_str (codes "a\n\"") start
emit_escaped_string-quoted_example = emit_escaped_string-quoted (codes "a\n\"") start

decode_number-IsNumeral_iff_example :
    (decode_number (codes "207") ≡ some 207) ↔ IsNumeral true (codes "207") 207
decode_number-IsNumeral_iff_example = decode_number-IsNumeral_iff (codes "207") 207
