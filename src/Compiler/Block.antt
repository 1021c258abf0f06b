-- ===== src/Compiler/Block.antt =====
-- attic/gstaging.c: the statements of a block. `parse_block2` calls itself for the blocks within, so
-- the statements take it as an argument.
use asmc.Prelude.{
  ℕ, zero, suc, ◌+◌, ◌-◌, ◌*◌, true, false, [], ◌∷◌, leb, ltb, ◌==◌, if◌then◌else◌, codes, length,
}
use asmc.Cstring.{Bytes, same}
use asmc.Run.{pure, ◌>>=◌, ◌>>◌, halt, out_of_fuel, assert, gets, modify, repeat}
use asmc.Globals.{M, word, loop_count, emit, emit32, emit_str}
use asmc.Compiler.Stack.{push_var, pop_var, pop_temps}
use asmc.Compiler.Token.{get_token, give_back_token, nonempty}
use asmc.Compiler.Expr.{
  Libc, temp_var, gen_label, emit_label_rel, place_label, push_token, push_expr_until_brace,
  decode_number_or_symbol,
}

-- ";": the temporaries are dropped.
unfoldable pub parse_semicolon : M (Unit {0})
parse_semicolon = do
  emit_str (0x81 ∷ 0xc4 ∷ [])
  temp_depth ← gets (λ g. g.temp_depth)
  emit32 (word (4 * temp_depth))
  pop_temps

unfoldable pub parse_ret : M (Unit {0})
parse_ret = do
  temp_depth ← gets (λ g. g.temp_depth)
  if ltb 0 temp_depth then (do emit 0x58; pop_var true) else pure tt
  emit_str (0x81 ∷ 0xc4 ∷ [])
  stack_depth ← gets (λ g. g.stack_depth)
  emit32 (word (4 * stack_depth))
  emit_str (0x5d ∷ 0xc3 ∷ [])

-- "pop eax; cmp eax, 0; je rel"
abbrev pub je_bytes : Bytes
je_bytes = 0x58 ∷ 0x83 ∷ 0xf8 ∷ 0x00 ∷ 0x0f ∷ 0x84 ∷ []

-- "$name": a variable.
unfoldable pub parse_var : Bytes → M (Unit {0})
parse_var name = do assert (nonempty name); push_var name false; emit_str (0x83 ∷ 0xec ∷ 0x04 ∷ [])

-- "\arity": a call through a pointer.
unfoldable pub parse_indirect_call : Bytes → M (Unit {0})
parse_indirect_call arity_str = do
  assert (nonempty arity_str)
  arity ← decode_number_or_symbol arity_str
  pop_var true
  emit_str (0x58 ∷ 0xff ∷ 0xd0 ∷ [])
  emit_str (0x81 ∷ 0xc4 ∷ [])
  emit32 (word (4 * arity))
  repeat (loop_count arity) (pop_var true)
  push_var temp_var true
  emit 0x50

-- The block around its statements. The stack is cut back to its depth at the beginning.
unfoldable pub parse_block_with : M (Unit {0}) → M (Unit {0})
parse_block_with statements = do
  modify (λ g. record g { block_depth = g.block_depth + 1 })
  saved_stack_depth ← gets (λ g. g.stack_depth)
  tok ← get_token
  assert (same tok (codes "{"))
  statements
  emit_str (0x81 ∷ 0xc4 ∷ [])
  stack_depth ← gets (λ g. g.stack_depth)
  assert (leb saved_stack_depth stack_depth)
  emit32 (word (4 * (stack_depth - saved_stack_depth)))
  modify (λ g. record g { stack_depth = saved_stack_depth; block_depth = g.block_depth - 1 })

module _ (libc : Libc) where
  unfoldable pub parse_if : M (Unit {0}) → M (Unit {0})
  parse_if block = do
    push_expr_until_brace libc
    else_lab ← gen_label
    pop_var true
    emit_str je_bytes
    emit_label_rel libc else_lab
    block
    else_tok ← get_token
    if same else_tok (codes "else")
        then (do
          fi_lab ← gen_label
          emit 0xe9
          emit_label_rel libc fi_lab
          place_label libc else_lab
          block
          place_label libc fi_lab)
        else (do place_label libc else_lab; give_back_token)

  unfoldable pub parse_while : M (Unit {0}) → M (Unit {0})
  parse_while block = do
    restart_lab ← gen_label
    end_lab ← gen_label
    place_label libc restart_lab
    push_expr_until_brace libc
    pop_var true
    emit_str je_bytes
    emit_label_rel libc end_lab
    block
    emit 0xe9
    emit_label_rel libc restart_lab
    place_label libc end_lab

  -- The branches that look at the first character of the token.
  unfoldable pub parse_token : Bytes → M (Unit {0})
  unfolding parse_var parse_indirect_call
  parse_token [] = push_token libc []
  parse_token (c ∷ name) =
      if c == b'$'
      then parse_var name
      else if c == b'\\'
      then parse_indirect_call name
      else push_token libc (c ∷ name)

  -- One round of the loop, for a token other than "}".
  unfoldable pub parse_statement : M (Unit {0}) → Bytes → M (Unit {0})
  unfolding parse_token parse_semicolon parse_ret parse_if parse_while
  parse_statement block tok =
      if same tok (codes ";")
      then parse_semicolon
      else if same tok (codes "ret")
      then parse_ret
      else if same tok (codes "if")
      then parse_if block
      else if same tok (codes "while")
      then parse_while block
      else parse_token tok

  unfoldable pub parse_statements : ℕ → M (Unit {0})
  unfolding parse_statement parse_block_with
  parse_statements zero = halt out_of_fuel
  parse_statements (suc fuel) =
      let more = parse_statements fuel in
      do
        tok ← get_token
        assert (nonempty tok)
        if same tok (codes "}")
            then pure tt
            else (do parse_statement (parse_block_with more) tok; more)

  -- A round takes a token, so that the length of the input bounds the rounds and the nesting.
  unfoldable pub parse_block : M (Unit {0})
  unfolding parse_statements
  parse_block = do left ← gets (λ g. length g.input); parse_block_with (parse_statements (left + 3))
