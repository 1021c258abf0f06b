-- ===== src/Cc2/Shared.antt =====
-- cc/cc2.c: the functions whose text is that of the function of cc/cc.c with the same name, letter for
-- letter. They are modelled once.
use asmc.Prelude.{ℕ, Bool, Option}
use asmc.Cstring.{Bytes}
use asmc.Cc.Text
use asmc.Cc.Text.{RevMatch}
use asmc.Cc.Names
use asmc.Cc.Literals
use asmc.Cc.Numbers

abbrev pub is_whitespace : ℕ → Bool
is_whitespace = Text.is_whitespace

abbrev pub is_id : ℕ → Bool
is_id = Text.is_id

abbrev pub find_matching : ℕ → ℕ → Bytes → Option ℕ
find_matching = Text.find_matching

abbrev pub find_matching_rev : ℕ → ℕ → Bytes → ℕ → ℕ → RevMatch
find_matching_rev = Text.find_matching_rev

abbrev pub find_char : Bytes → ℕ → Option ℕ
find_char = Text.find_char

abbrev pub find_char_back : Bytes → ℕ → Option ℕ
find_char_back = Text.find_char_back

abbrev pub remove_spaces : Bytes → Bytes
remove_spaces = Text.remove_spaces

abbrev pub trimstr : Bytes → Bytes
trimstr = Text.trimstr

abbrev pub strncmp2 : Bytes → Bytes → Bool
strncmp2 = Names.strncmp2

abbrev pub fix_strings : Bytes → Option Bytes
fix_strings = Literals.fix_strings

abbrev pub decode_number : Bytes → Option ℕ
decode_number = Numbers.decode_number
