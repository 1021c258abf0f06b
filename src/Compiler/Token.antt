-- ===== src/Compiler/Token.antt =====
-- attic/gstaging.c: reading tokens, and the escapes of strings and characters.
use asmc.Prelude.{
  ℕ, ◌+◌, ◌-◌, ◌^◌, Bool, true, false, not, ◌||◌, Option, some, [], ◌∷◌, ◌++◌, ltb, ◌==◌,
  if◌then◌else◌,
}
use asmc.Cstring.{Bytes}
use asmc.Run.{pure, ◌>>=◌, ◌>>◌, halt, panic, assert, gets, modify}
use asmc.Globals.{Globals, M, emit}
use asmc.Numbers.{decode_number}

unfoldable pub is_whitespace : ℕ → Bool
is_whitespace x = x == b' ' || x == b'\t' || x == b'\n'

-- The states 0 to 5 of the loop of `get_token2`.
pub data TokenState : Type 0 where
  in_code in_comment in_string string_escape in_char char_escape : TokenState

-- The state after a character that is saved in state 0.
abbrev pub after_saved : ℕ → TokenState
after_saved x = if x == b'"' then in_string else if x == b'\'' then in_char else in_code

abbrev pub nonempty : Bytes → Bool
nonempty [] = false
nonempty (c ∷ s) = true

-- The loop: the token that is read after `token`, and the input that is left. A token ends at white
-- space, at the end of a comment or at the end of the file.
unfoldable pub read_token : TokenState → Bytes → Bytes → Bytes × Bytes
unfolding is_whitespace
read_token state token [] = (token, [])
read_token in_code token (x ∷ input) =
    let skip = read_token in_code token input in
    let comment = read_token in_comment token input in
    let save = read_token (after_saved x) (token ++ x ∷ []) input in
    if is_whitespace x
    then (if nonempty token then (token, input) else skip)
    else if x == b'#'
    then comment
    else save
read_token in_comment token (x ∷ input) =
    let skip = read_token in_comment token input in
    let code = read_token in_code token input in
    if x == b'\n' then (if nonempty token then (token, input) else code) else skip
read_token in_string token (x ∷ input) =
    let next = if x == b'"' then in_code else if x == b'\\' then string_escape else in_string in
    read_token next (token ++ x ∷ []) input
read_token string_escape token (x ∷ input) = read_token in_string (token ++ x ∷ []) input
read_token in_char token (x ∷ input) =
    let next = if x == b'\'' then in_code else if x == b'\\' then char_escape else in_char in
    read_token next (token ++ x ∷ []) input
read_token char_escape token (x ∷ input) = read_token in_char (token ++ x ∷ []) input

-- The token as a string ends at its first NUL.
unfoldable pub up_to_nul : Bytes → Bytes
up_to_nul [] = []
up_to_nul (c ∷ s) = if c == 0 then [] else c ∷ up_to_nul s

abbrev pub token_read : Bytes × Bytes → Globals → Globals
token_read (token, rest) g = record g { token_buf = up_to_nul token; input = rest }

unfoldable pub get_token : M Bytes
unfolding read_token up_to_nul
get_token = do
  given_back ← gets (λ g. g.token_given_back)
  if given_back
      then modify (λ g. record g { token_given_back = false })
      else modify (λ g. token_read (read_token in_code [] g.input) g)
  gets (λ g. g.token_buf)

unfoldable pub give_back_token : M (Unit {0})
give_back_token = do
  given_back ← gets (λ g. g.token_given_back)
  assert (not given_back)
  modify (λ g. record g { token_given_back = true })

unfoldable pub escaped : ℕ → ℕ
escaped x =
    if x == b'n'
    then b'\n'
    else if x == b't'
    then b'\t'
    else if x == b'0'
    then 0
    else if x == b'\\'
    then b'\\'
    else if x == b'\''
    then b'\''
    else if x == b'"'
    then b'"'
    else 0

-- The loop of `emit_escaped_string2`, behind the opening quote.
unfoldable pub emit_escaped : Bytes → M (Unit {0})
unfolding escaped
emit_escaped [] = halt panic
emit_escaped (c ∷ []) =
    if c == b'"' then pure tt else if c == b'\\' then halt panic else (do emit c; halt panic)
emit_escaped (c ∷ d ∷ s) =
    let after_escape = emit_escaped s in
    let after_plain = emit_escaped (d ∷ s) in
    if c == b'"'
    then halt panic
    else if c == b'\\'
    then (do emit (escaped d); after_escape)
    else (do emit c; after_plain)

unfoldable pub emit_escaped_string : Bytes → M (Unit {0})
unfolding emit_escaped
emit_escaped_string [] = halt panic
emit_escaped_string (c ∷ s) = do assert (c == b'"'); emit_escaped s

-- A `char` as an `unsigned int`.
abbrev pub sign_extend : ℕ → ℕ
sign_extend c = if ltb c 128 then c else 2 ^ 32 - 256 + c

-- `operand[i]`; what stands behind the terminator reads as 0.
abbrev pub char_at : Bytes → ℕ → ℕ
char_at [] i = 0
char_at (c ∷ s) i = elim i [ ℕ.zero ↦ c | ℕ.suc j ↦ char_at s j ]

unfoldable pub decode_number_or_char : Bytes → M (Option ℕ)
unfolding escaped
decode_number_or_char operand =
    if char_at operand 0 == b'\''
    then (if char_at operand 1 == b'\\'
        then (do
          assert (char_at operand 3 == b'\'')
          assert (char_at operand 4 == 0)
          pure (some (escaped (char_at operand 2))))
        else (do
          assert (char_at operand 2 == b'\'')
          assert (char_at operand 3 == 0)
          pure (some (sign_extend (char_at operand 1)))))
    else pure (decode_number operand)
