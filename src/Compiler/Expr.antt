-- ===== src/Compiler/Expr.antt =====
-- attic/gstaging.c: code for one token of an expression, and for the expression before a brace.
use asmc.Prelude.{
  ℕ, zero, suc, ◌+◌, ◌-◌, ◌*◌, ◌^◌, Bool, true, false, not, ◌||◌, [], ◌∷◌, ltb, ◌==◌, if◌then◌else◌,
  option, codes, length,
}
use asmc.Cstring.{Bytes, minus_one, same}
use asmc.Run.{pure, ◌>>=◌, ◌>>◌, halt, out_of_fuel, assert, expect, gets, modify, repeat}
use asmc.Globals.{M, word, sub_word, loop_count, emit, emit32, emit_str}
use asmc.Symbols.{find_symbol, add_symbol_wrapper}
use asmc.Compiler.Stack.{push_var, pop_var, find_in_stack}
use asmc.Compiler.Token.{get_token, give_back_token, emit_escaped_string, decode_number_or_char}

-- What the program takes from the C library: the value of `atoi`, and the text that
-- `sprintf(buf, ".%d", id)` writes.
pub record Libc : Type 0 where
  pub atoi : Bytes → ℕ
  pub label_text : ℕ → Bytes

-- "__temp"
abbrev pub temp_var : Bytes
temp_var = codes "__temp"

-- The arities that mark a variable, -1, and a constant, -2.
abbrev pub minus_two : ℕ
minus_two = 2 ^ 32 - 2

-- `addr - *get_current_loc() - 4`
unfoldable pub compute_rel : ℕ → M ℕ
compute_rel addr = gets (λ g. sub_word (sub_word addr g.current_loc) 4)

-- `get_symbol2`; the flag says that the caller wants the arity. In stage 0 a location that is all
-- that is wanted is 0.
unfoldable pub get_symbol : Bytes → Bool → M (ℕ × ℕ)
get_symbol name wants_arity = do
  stage ← gets (λ g. g.stage)
  if stage == 1 || wants_arity
      then (do res ← gets (λ g. find_symbol name g.symbols); expect res)
      else pure (0, 0)

unfoldable pub gen_label : M ℕ
gen_label = do
  label_num ← gets (λ g. g.label_num)
  modify (λ g. record g { label_num = word (g.label_num + 1) })
  pure label_num

-- A constant or an address: `push loc`.
unfoldable pub push_immediate : ℕ → M (Unit {0})
push_immediate val = do push_var temp_var true; emit 0x68; emit32 val

-- The call of a function: its arguments are popped, its result is pushed.
unfoldable pub push_call : ℕ → ℕ → M (Unit {0})
push_call loc arity = do
  emit 0xe8
  rel ← compute_rel loc
  emit32 rel
  emit_str (0x81 ∷ 0xc4 ∷ [])
  emit32 (word (4 * arity))
  repeat (loop_count arity) (pop_var true)
  push_var temp_var true
  emit 0x50

unfoldable pub push_symbol : Bytes → Bool → M (Unit {0})
unfolding push_immediate push_call get_symbol compute_rel
push_symbol tok want_addr = do
  (loc, arity) ← get_symbol tok true
  assert (not (arity == minus_two) || not want_addr)
  if want_addr || arity == minus_two
      then push_immediate loc
      else if arity == minus_one
      then (do push_var temp_var true; emit 0xb8; emit32 loc; emit_str (0xff ∷ 0x30 ∷ []))
      else push_call loc arity

unfoldable pub push_stack_var : ℕ → Bool → M (Unit {0})
push_stack_var pos want_addr =
    if want_addr
    then (do
      push_var temp_var true
      emit_str (0x8d ∷ 0x84 ∷ 0x24 ∷ [])
      emit32 (word (4 * pos))
      emit 0x50)
    else (do push_var temp_var true; emit_str (0xff ∷ 0xb4 ∷ 0x24 ∷ []); emit32 (word (4 * pos)))

unfoldable pub push_expr : Bytes → Bool → M (Unit {0})
unfolding push_symbol push_stack_var push_immediate
push_expr tok want_addr = do
  number ← decode_number_or_char tok
  option number
      (do
        pos ← gets (find_in_stack tok)
        option pos (push_symbol tok want_addr) (λ i. push_stack_var i want_addr))
      (λ val. do assert (not want_addr); push_immediate val)

-- A token that begins with '@' asks for an address.
unfoldable pub push_operand : Bytes → M (Unit {0})
unfolding push_expr
push_operand [] = push_expr [] false
push_operand (c ∷ tok) = if c == b'@' then push_expr tok true else push_expr (c ∷ tok) false

module _ (libc : Libc) where
  -- `emit32(compute_rel(get_symbol(write_label(lab), 0)))`
  unfoldable pub emit_label_rel : ℕ → M (Unit {0})
  unfolding get_symbol compute_rel
  emit_label_rel lab = do
    (loc, arity) ← get_symbol (libc.label_text lab) false
    rel ← compute_rel loc
    emit32 rel

  -- `add_symbol_wrapper(write_label(lab), *get_current_loc(), -1)`
  unfoldable pub place_label : ℕ → M (Unit {0})
  place_label lab = do
    current_loc ← gets (λ g. g.current_loc)
    add_symbol_wrapper (libc.label_text lab) current_loc minus_one

  -- A string literal stands in the code, behind a jump over it.
  unfoldable pub push_string : Bytes → M (Unit {0})
  unfolding gen_label emit_label_rel place_label get_symbol
  push_string tok = do
    str_lab ← gen_label
    jmp_lab ← gen_label
    emit 0xe9
    emit_label_rel jmp_lab
    place_label str_lab
    emit_escaped_string tok
    emit 0
    place_label jmp_lab
    push_var temp_var true
    emit 0x68
    (loc, arity) ← get_symbol (libc.label_text str_lab) false
    emit32 loc

  -- The last branches of both loops over tokens.
  unfoldable pub push_token : Bytes → M (Unit {0})
  unfolding push_string push_operand
  push_token [] = push_operand []
  push_token (c ∷ tok) = if c == b'"' then push_string (c ∷ tok) else push_operand (c ∷ tok)

  unfoldable pub until_brace : ℕ → M (Unit {0})
  unfolding push_token
  until_brace zero = halt out_of_fuel
  until_brace (suc fuel) =
      let more = until_brace fuel in
      do
        tok ← get_token
        if same tok (codes "{") then give_back_token else (do push_token tok; more)

  -- A round takes a token, so that the length of the input bounds their number.
  unfoldable pub push_expr_until_brace : M (Unit {0})
  unfolding until_brace
  push_expr_until_brace = do
    left ← gets (λ g. length g.input)
    until_brace (left + 3)
    temp_depth ← gets (λ g. g.temp_depth)
    assert (ltb 0 temp_depth)

unfoldable pub decode_number_or_symbol : Bytes → M ℕ
unfolding get_symbol
decode_number_or_symbol str = do
  res ← decode_number_or_char str
  option res (do (loc, arity) ← get_symbol str true; pure loc) pure
