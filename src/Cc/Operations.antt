-- ===== src/Cc/Operations.antt =====
-- cc/cc.c: `fix_operations`, which replaces the operators of two characters by tokens.
use asmc.Prelude.{
  ℕ, zero, suc, Bool, false, not, ◌||◌, ◌-◌, set, option, ◌&&◌, Option, none, some, [], ◌∷◌, ◌==◌,
  if◌then◌else◌, length,
}
use asmc.Cstring.{Bytes}
use asmc.Cc.Text.{is_id, find_matching}

-- The token of the operator that two bytes form.
unfoldable pub pair_token : ℕ → ℕ → Option ℕ
pair_token x y =
    if x == b'<' && y == b'<'
    then some 0x82
    else if x == b'>' && y == b'>'
    then some 0x83
    else if x == b'<' && y == b'='
    then some 0x84
    else if x == b'>' && y == b'='
    then some 0x85
    else if x == b'=' && y == b'='
    then some 0x86
    else if x == b'!' && y == b'='
    then some 0x87
    else if x == b'&' && y == b'&'
    then some 0x88
    else if x == b'|' && y == b'|'
    then some 0x89
    else none

-- Behind a token stands the blank that the second byte has become. No operator begins with it, so
-- the round at the blank changes nothing, and the loop goes on behind it.
unfoldable pub fix_operations : Bytes → Bytes
fix_operations [] = []
fix_operations (x ∷ []) = x ∷ []
fix_operations (x ∷ y ∷ s) =
    option (pair_token x y) (x ∷ fix_operations (y ∷ s)) (λ token. token ∷ b' ' ∷ fix_operations s)

-- The tokens of `fix_operations2`.
abbrev pub tok_call_open : ℕ
tok_call_open = 0x80

abbrev pub tok_call_closed : ℕ
tok_call_closed = 0x81

abbrev pub tok_deref : ℕ
tok_deref = 0x8a

abbrev pub tok_addr : ℕ
tok_addr = 0x8b

-- An operator that does not follow an operand.
abbrev pub prefix_token : ℕ → ℕ
prefix_token c = if c == b'*' then tok_deref else if c == b'&' then tok_addr else c

-- `prev_is_id` behind a byte.
abbrev pub ends_operand : ℕ → Bool
ends_operand c = is_id c || c == b')'

-- The rest of the text when the first byte has become `c`.
abbrev pub behind : ℕ → Option Bytes → Option Bytes
behind c rest = option rest none (λ s. some (c ∷ s))

-- The loop of `fix_operations2`, a round for each byte; `none` is the failed assert.
unfoldable pub fix2_from : ℕ → Bool → Bytes → Option Bytes
fix2_from zero prev_is_id s = some s
fix2_from (suc rounds) prev_is_id [] = some []
fix2_from (suc rounds) prev_is_id (c ∷ s) =
    let again = fix2_from rounds in
    if not prev_is_id
    then (let c' = prefix_token c in behind c' (again (ends_operand c') s))
    else if c == b'('
    then option (find_matching b'(' b')' (c ∷ s)) none (λ i.
      behind tok_call_open (again (ends_operand tok_call_open) (set s (i - 1) tok_call_closed)))
    else behind c (again (ends_operand c) s)

unfoldable pub fix_operations2 : Bytes → Option Bytes
unfolding fix2_from
fix_operations2 s = fix2_from (length s) false s
