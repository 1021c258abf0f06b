-- ===== src/Cc/Blocks.antt =====
-- cc/cc.c: blocks, functions, the strings and the two stages. A block is the list of its bytes, from
-- which each round of the loop takes a statement or a block with its head.
use asmc.Prelude.{
  ℕ, zero, suc, ◌+◌, ◌-◌, Bool, true, false, Option, none, some, List, [], ◌∷◌, ◌++◌, leb, ltb,
  ◌==◌, if◌then◌else◌, option, codes, length, take, drop,
}
use asmc.Cstring.{Bytes}
use asmc.Run.{
  pure, ◌>>=◌, ◌>>◌, halt, panic, fault, out_of_fuel, assert, expect, gets, modify, repeat,
}
use asmc.Cc.Text.{find_char, find_char_back, find_matching, remove_spaces, trimstr, byte_of}
use asmc.Cc.Names.{strncmp2, equal}
use asmc.Cc.Tables.{C, Literal, add_symbol, push_var, pop_var, pop_to_depth, emit}
use asmc.Cc.Expressions.{slice, unmark}
use asmc.Cc.Statements.{
  is_empty, emit_drop, compile_statement, add_label, process_fi, process_if, process_if_end,
  process_else, process_elseif,
}

-- The string at the beginning of a buffer.
unfoldable pub up_to_nul : Bytes → Bytes
up_to_nul [] = []
up_to_nul (c ∷ s) = let rest = up_to_nul s in if c == 0 then [] else c ∷ rest

-- The buffer of a head after `remove_spaces`: where bytes were removed, a terminator stands behind the
-- rest, and then what stood there before.
abbrev pub head_buffer : Bytes → Bytes
head_buffer head =
    let s = remove_spaces head in
    if length s == length head then s else s ++ 0 ∷ drop (length s + 1) head

-- What a block begins with: a name, and the text between its parentheses, if it has any.
pub record Head : Type 0 where
  pub name : Bytes
  pub inside : Option Bytes

unfoldable pub read_head : Bytes → C Head
read_head head =
    let buffer = head_buffer head in
    option (find_char buffer b'(') (pure (record { name = up_to_nul buffer; inside = none }))
      (λ open_pos. do
        closing ← expect (find_matching b'(' b')' (drop open_pos buffer))
        let closed_pos = open_pos + closing
        assert (byte_of buffer (closed_pos + 1) == 0)
        pure (record {
          name = take open_pos buffer;
          inside = some (slice buffer (open_pos + 1) closed_pos);
        }))

-- The loop over the parameters, the last first; the result is their number.
unfoldable pub push_params : ℕ → Bytes → ℕ → C ℕ
push_params zero inside param_num = halt out_of_fuel
push_params (suc fuel) inside param_num =
    let more = push_params fuel in
    if is_empty inside
    then pure param_num
    else option (find_char_back inside b',') (do push_var (up_to_nul inside); pure (param_num + 1))
        (λ pos. do
          push_var (up_to_nul (drop (pos + 1) inside))
          more (take pos inside) (param_num + 1))

-- What a head has done: the labels that are open, the parameters, and whether an "end if" follows.
pub record Opened : Type 0 where
  pub else_lab : ℕ
  pub fi_lab : ℕ
  pub param_num : ℕ
  pub must_end_if : Bool

unfoldable pub begin_function : Head → ℕ → ℕ → C Opened
unfolding push_params
begin_function head else_lab fi_lab = do
  assert (else_lab == 0)
  assert (fi_lab == 0)
  inside ← expect (head.inside)
  current_loc ← gets (λ g. g.current_loc)
  add_symbol head.name current_loc
  stack_depth ← gets (λ g. g.stack_depth)
  assert (stack_depth == 0)
  param_num ← push_params (length inside + 1) inside 0
  push_var (codes "__ret")
  modify (λ g. record g { ret_depth = g.stack_depth })
  pure (record { else_lab = 0; fi_lab = 0; param_num = param_num; must_end_if = false })

-- The rest of a block behind the byte at `n`.
abbrev pub behind_byte : ℕ → Bytes → Bytes
behind_byte n text = drop (n + 1) text

module _ (label_text : ℕ → Bytes) where
  unfoldable pub begin_if : Bytes → ℕ → ℕ → C Opened
  begin_if exp else_lab fi_lab = do
    (else_lab', fi_lab') ← process_if label_text exp else_lab fi_lab
    pure (record { else_lab = else_lab'; fi_lab = fi_lab'; param_num = 0; must_end_if = true })

  unfoldable pub begin_elseif : Bytes → ℕ → ℕ → C Opened
  begin_elseif exp else_lab fi_lab = do
    else_lab' ← process_elseif label_text exp else_lab
    pure (record { else_lab = else_lab'; fi_lab = fi_lab; param_num = 0; must_end_if = true })

  unfoldable pub begin_else : ℕ → ℕ → C Opened
  begin_else else_lab fi_lab = do
    process_else label_text else_lab
    pure (record { else_lab = 0; fi_lab = fi_lab; param_num = 0; must_end_if = true })

  unfoldable pub open_block : Head → ℕ → ℕ → C Opened
  unfolding begin_function begin_if begin_elseif begin_else
  open_block head else_lab fi_lab = do
    block_depth ← gets (λ g. g.block_depth)
    if block_depth == 1
        then begin_function head else_lab fi_lab
        else option head.inside
            (if equal head.name (codes "else") then begin_else else_lab fi_lab else halt panic)
            (λ inside.
              if strncmp2 head.name (codes "if")
              then begin_if (up_to_nul inside) else_lab fi_lab
              else if strncmp2 head.name (codes "elseif")
              then begin_elseif (up_to_nul inside) else_lab fi_lab
              else halt panic)

  unfoldable pub close_block : Opened → C (Unit {0})
  close_block opened = do
    block_depth ← gets (λ g. g.block_depth)
    if block_depth == 1
        then (do
          pop_var
          emit 0xc3
          repeat opened.param_num pop_var
          stack_depth ← gets (λ g. g.stack_depth)
          assert (stack_depth == 0))
        else pure tt
    if opened.must_end_if then process_if_end label_text opened.fi_lab else pure tt

  -- The block that follows a head; the last byte in front of its brace is left out. For an empty body
  -- that is in front of the body: the C code goes on behind it, and the model stops with a fault.
  unfoldable pub compile_block_with_head :
      (Bytes → C (Unit {0})) → Bytes → Bytes → ℕ → ℕ → C (ℕ × ℕ)
  unfolding read_head open_block close_block
  compile_block_with_head block head body else_lab fi_lab = do
    read ← read_head head
    opened ← open_block read else_lab fi_lab
    if is_empty body then halt fault else block (take (length body - 1) body)
    close_block opened
    pure (opened.else_lab, opened.fi_lab)

  -- What `compile_block` does around its loop.
  unfoldable pub around_block : C (ℕ × ℕ) → C (Unit {0})
  around_block loop = do
    modify (λ g. record g { block_depth = g.block_depth + 1 })
    saved_stack_depth ← gets (λ g. g.stack_depth)
    (else_lab, fi_lab) ← loop
    process_fi label_text else_lab fi_lab
    block_depth ← gets (λ g. g.block_depth)
    if block_depth == 1 then pure tt else (do
      exit_stack_depth ← gets (λ g. g.stack_depth)
      pop_to_depth saved_stack_depth
      emit_drop exit_stack_depth saved_stack_depth)
    modify (λ g. record g { block_depth = g.block_depth - 1 })

  -- The loop. It takes bytes in every round, so that the length of the block bounds the rounds and the
  -- nesting.
  unfoldable pub block_loop : ℕ → Bytes → ℕ → ℕ → C (ℕ × ℕ)
  unfolding compile_block_with_head around_block
  block_loop zero text else_lab fi_lab = halt out_of_fuel
  block_loop (suc fuel) text else_lab fi_lab =
      let more = block_loop fuel in
      let statement = λ (pos : ℕ). (do
        process_fi label_text else_lab fi_lab
        compile_statement label_text (take pos text)
        more (behind_byte pos text) 0 0) in
      let headed = λ (pos : ℕ). (do
        size ← option (find_matching b'{' b'}' (drop pos text)) (halt fault) pure
        (else_lab', fi_lab') ←
            compile_block_with_head (λ inner. around_block (more inner 0 0)) (take pos text)
              (slice text (pos + 1) (pos + size)) else_lab fi_lab
        more (behind_byte (pos + size) text) else_lab' fi_lab') in
      option (find_char text b';')
        (option (find_char text b'{')
          (do assert (is_empty (trimstr (up_to_nul text))); pure (else_lab, fi_lab)) headed)
        (λ semicolon_pos. option (find_char text b'{') (statement semicolon_pos) (λ brace_pos.
          if ltb semicolon_pos brace_pos then statement semicolon_pos else headed brace_pos))

  unfoldable pub compile_block : Bytes → C (Unit {0})
  unfolding block_loop
  compile_block text = around_block (block_loop (length text + 1) text 0 0)

  -- The bytes between the quotes of a literal. A quote is followed by another, the last one included.
  unfoldable pub emit_literal : Bytes → C (Unit {0})
  emit_literal [] = pure tt
  emit_literal (c ∷ []) = if c == b'"' then pure tt else (do assert (leb 0x80 c); emit (unmark c))
  emit_literal (c ∷ d ∷ s) =
      let behind_quotes = emit_literal s in
      let behind_one = emit_literal (d ∷ s) in
      if c == b'"'
      then (do assert (d == b'"'); behind_quotes)
      else (do assert (leb 0x80 c); emit (unmark c); behind_one)

  unfoldable pub create_string : Literal → C (Unit {0})
  unfolding emit_literal
  create_string literal = do
    add_label label_text literal.id
    let piece = literal.piece
    assert (byte_of piece 0 == b'"')
    assert (byte_of piece (length piece - 1) == b'"')
    assert (leb 2 (length piece))
    emit_literal (slice piece 1 (length piece - 1))

  unfoldable pub create_each : List Literal → C (Unit {0})
  unfolding create_string
  create_each [] = pure tt
  create_each (literal ∷ literals) = do create_string literal; create_each literals

  unfoldable pub create_strings : C (Unit {0})
  unfolding create_each
  create_strings = do literals ← gets (λ g. g.literals); create_each literals
