-- ===== src/Cc/Expressions.antt =====
-- cc/cc.c: `eval_expr`, which emits the code of an expression. The text of the expression does not
-- change, and a pointer into it is its index.
use asmc.Prelude.{
  ℕ, zero, suc, ◌+◌, ◌-◌, ◌*◌, ◌%◌, Bool, true, false, not, ◌||◌, Option, none, some, [], ◌∷◌, ◌==◌,
  if◌then◌else◌, option, codes, take, drop,
}
use asmc.Cstring.{Bytes}
use asmc.Run.{pure, ◌>>=◌, ◌>>◌, halt, out_of_fuel, assert, expect, gets, modify, repeat}
use asmc.Globals.{word}
use asmc.Cc.Text.{find_matching, find_char_back, byte_of}
use asmc.Cc.Operations.{tok_call_open, tok_call_closed, tok_deref, tok_addr}
use asmc.Cc.Tables.{C, push_var, pop_var, emit, emit32, emits}

-- The bytes from `begin` to `end`.
abbrev pub slice : Bytes → ℕ → ℕ → Bytes
slice text begin end = take (end - begin) (drop begin text)

unfoldable pub is_in : ℕ → Bytes → Bool
is_in x [] = false
is_in x (c ∷ set) = let rest = is_in x set in if x == c then true else rest

abbrev pub temp_name : Bytes
temp_name = codes "__temp"

abbrev pub max_string_num : ℕ
max_string_num = 1024

-- `(char) (c + 0x80)`
abbrev pub unmark : ℕ → ℕ
unmark c = (c + 0x80) % 256

unfoldable pub gen_id : C ℕ
gen_id = do
  id ← gets (λ g. g.lab_id)
  modify (λ g. record g { lab_id = word (g.lab_id + 1) })
  pure id

-- The place of the match of the byte at `p`.
abbrev pub match_at : ℕ → ℕ → Bytes → ℕ → ℕ → Option ℕ
match_at opening closing text p end =
    option (find_matching opening closing (slice text p end)) none (λ i. some (p + i))

-- The code between the two operands and the result of an operator of two operands, of the first part
-- of the chain; `none` stands for the comparisons.
unfoldable pub operator_code : ℕ → Option Bytes
operator_code op =
    if op == b'+'
    then some (0x01 ∷ 0xc8 ∷ [])
    else if op == b'-'
    then some (0x29 ∷ 0xc8 ∷ [])
    else if op == b'*'
    then some (0xf7 ∷ 0xe9 ∷ [])
    else if op == b'/'
    then some (0x31 ∷ 0xd2 ∷ 0xf7 ∷ 0xf9 ∷ [])
    else if op == b'%'
    then some (0x31 ∷ 0xd2 ∷ 0xf7 ∷ 0xf9 ∷ 0x89 ∷ 0xd0 ∷ [])
    else if op == 0x82
    then some (0xd3 ∷ 0xe0 ∷ [])
    else if op == 0x83
    then some (0xd3 ∷ 0xe8 ∷ [])
    else if op == b'&'
    then some (0x21 ∷ 0xc8 ∷ [])
    else if op == b'|'
    then some (0x09 ∷ 0xc8 ∷ [])
    else none

-- The jump of a comparison.
unfoldable pub comparison_jump : ℕ → Option ℕ
comparison_jump op =
    if op == 0x86
    then some 0x74
    else if op == 0x87
    then some 0x75
    else if op == b'<'
    then some 0x7c
    else if op == 0x84
    then some 0x7e
    else if op == b'>'
    then some 0x7f
    else if op == 0x85
    then some 0x7d
    else none

unfoldable pub emit_and : C (Unit {0})
emit_and = do
  emits (0x83 ∷ 0xf8 ∷ 0x00 ∷ 0x74 ∷ 0x0c ∷ 0x83 ∷ 0xf9 ∷ 0x00 ∷ 0x74 ∷ 0x07 ∷ 0xb8 ∷ [])
  emit32 1
  emits (0xeb ∷ 0x02 ∷ 0x31 ∷ 0xc0 ∷ [])

unfoldable pub emit_or : C (Unit {0})
emit_or = do
  emits (0x83 ∷ 0xf8 ∷ 0x00 ∷ 0x75 ∷ 0x09 ∷ 0x83 ∷ 0xf9 ∷ 0x00 ∷ 0x75 ∷ 0x04 ∷ [])
  emits (0x31 ∷ 0xc0 ∷ 0xeb ∷ 0x05 ∷ 0xb8 ∷ [])
  emit32 1

-- `false` for the early `return 0`.
unfoldable pub emit_comparison : ℕ → C Bool
unfolding comparison_jump
emit_comparison op = do
  emits (0x39 ∷ 0xc8 ∷ [])
  option (comparison_jump op) (pure false) (λ jump. do
    emits (jump ∷ 0x04 ∷ [])
    emits (0x31 ∷ 0xc0 ∷ 0xeb ∷ 0x05 ∷ 0xb8 ∷ [])
    emit32 1
    pure true)

unfoldable pub emit_operator : ℕ → C Bool
unfolding operator_code emit_and emit_or emit_comparison
emit_operator op =
    option (operator_code op)
      (if op == 0x88
        then (do emit_and; pure true)
        else if op == 0x89
        then (do emit_or; pure true)
        else emit_comparison op)
      (λ code. do emits code; pure true)

-- `push_var("__temp"); emit(0x50);`
abbrev pub push_result : C Bool
push_result = do push_var temp_name; emit 0x50; pure true

module _ (text : Bytes) where
  -- The calls of `eval_expr` on smaller pieces are those of `eval`.
  module _ (eval : ℕ → ℕ → Bool → C (Unit {0})) where
    unfoldable pub eval_assign : ℕ → ℕ → ℕ → Bool → C Bool
    eval_assign begin op end addr = do
      eval (op + 1) end false
      eval begin op true
      emit 0x58
      pop_var
      emit 0x59
      pop_var
      char_op ← gets (λ g. g.char_op)
      if char_op
          then (do modify (λ g. record g { char_op = false }); emits (0x88 ∷ 0x08 ∷ []))
          else emits (0x89 ∷ 0x08 ∷ [])
      push_var temp_name
      if addr then emit 0x50 else emit 0x51
      pure true

    -- The loop over the arguments, the last first; the result is their number.
    unfoldable pub eval_params : ℕ → ℕ → ℕ → ℕ → C ℕ
    eval_params zero params_begin params_end param_num = halt out_of_fuel
    eval_params (suc fuel) params_begin params_end param_num =
        let more = eval_params fuel params_begin in
        if params_begin == params_end
        then pure param_num
        else option (find_char_back (slice text params_begin params_end) b',')
            (do eval params_begin params_end false; pure (param_num + 1))
            (λ pos. do
              eval (params_begin + pos + 1) params_end false
              more (params_begin + pos) (param_num + 1))

    unfoldable pub eval_call : ℕ → ℕ → ℕ → Bool → C Bool
    unfolding eval_params
    eval_call begin op end addr = do
      assert (not addr)
      closing ← expect (match_at tok_call_open tok_call_closed text op end)
      assert (end - 1 == closing)
      param_num ← eval_params (end - op) (op + 1) (end - 1) 0
      eval begin op true
      pop_var
      emits (0x58 ∷ 0xff ∷ 0xd0 ∷ 0x81 ∷ 0xc4 ∷ [])
      emit32 (word (4 * param_num))
      repeat param_num pop_var
      push_result

    unfoldable pub eval_deref : ℕ → ℕ → ℕ → Bool → C Bool
    eval_deref begin op end addr = do
      assert (begin == op)
      eval (op + 1) end false
      pop_var
      emit 0x58
      if not addr then emits (0xb8 ∷ 0x00 ∷ []) else pure tt
      push_result

    unfoldable pub eval_addr : ℕ → ℕ → ℕ → Bool → C Bool
    eval_addr begin op end addr = do
      assert (not addr)
      assert (begin == op)
      eval (op + 1) end true
      pure true

    unfoldable pub eval_unary : ℕ → ℕ → ℕ → Bool → C Bool
    eval_unary begin op end addr = do
      assert (not addr)
      assert (begin == op)
      eval (op + 1) end false
      pop_var
      emit 0x58
      if byte_of text op == b'!'
          then (do
            emits (0x83 ∷ 0xf8 ∷ 0x00 ∷ 0x74 ∷ 0x04 ∷ 0x31 ∷ 0xc0 ∷ 0xeb ∷ 0x05 ∷ 0xb8 ∷ [])
            emit32 1)
          else emits (0xf7 ∷ 0xd0 ∷ [])
      emit 0x50
      push_var temp_name
      pure true

    unfoldable pub eval_binary : ℕ → ℕ → ℕ → Bool → C Bool
    unfolding emit_operator
    eval_binary begin op end addr = do
      assert (not addr)
      eval (op + 1) end false
      eval begin op false
      emit 0x58
      pop_var
      emit 0x59
      pop_var
      known ← emit_operator (byte_of text op)
      if known then push_result else pure false

    unfoldable pub run_eval_expr : ℕ → ℕ → ℕ → Bool → C Bool
    unfolding eval_assign eval_call eval_deref eval_addr eval_unary eval_binary
    run_eval_expr begin op end addr =
        let c = byte_of text op in
        if c == b'='
        then eval_assign begin op end addr
        else if c == tok_call_open
        then eval_call begin op end addr
        else if c == tok_deref
        then eval_deref begin op end addr
        else if c == tok_addr
        then eval_addr begin op end addr
        else if c == b'!' || c == b'~'
        then eval_unary begin op end addr
        else eval_binary begin op end addr
