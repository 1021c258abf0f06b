-- ===== src/Cc2/Blocks.antt =====
-- cc/cc2.c: statements, blocks, functions and `main`. The messages are left out.
use asmc.Prelude.{
  ℕ, zero, suc, ◌+◌, ◌-◌, ◌*◌, [], ◌∷◌, ltb, ◌==◌, if◌then◌else◌, option, codes, length, take, drop,
}
use asmc.Cstring.{Bytes}
use asmc.Run.{pure, ◌>>=◌, ◌>>◌, halt, fault, out_of_fuel, assert, expect, gets, modify, repeat}
use asmc.Globals.{word, sub_word}
use asmc.Cc2.Shared.{
  find_char, find_char_back, find_matching, remove_spaces, trimstr, strncmp2, fix_strings,
}
use asmc.Cc.Text.{byte_of}
use asmc.Cc.Names.{equal}
use asmc.Cc.Operations.{pair_token}
use asmc.Cc.Expressions.{slice}
use asmc.Cc.Statements.{is_empty}
use asmc.Cc.Blocks.{up_to_nul, behind_byte}
use asmc.Cc2.Tables.{Cc2Globals, C2, push_var, pop_var, pop_to_depth, emit, emit32, emits}
use asmc.Cc2.Types.{find_id, is_type, interpret_type}
use asmc.Cc2.Eval.{compile_expression}

-- Behind a token stands a blank, which begins no operator.
unfoldable pub fix_operands : Bytes → Bytes
fix_operands [] = []
fix_operands (x ∷ []) = x ∷ []
fix_operands (x ∷ y ∷ s) =
    option (pair_token x y) (x ∷ fix_operands (y ∷ s)) (λ token. token ∷ b' ' ∷ fix_operands s)

-- "add esp, .." by the slots between two depths.
abbrev pub emit_drop : ℕ → ℕ → C2 (Unit {0})
emit_drop depth kept = do emits (0x81 ∷ 0xc4 ∷ []); emit32 (word (4 * sub_word depth kept))

-- A declaration in front of its "=", if it has one.
unfoldable pub declare : Bytes → C2 (Unit {0})
declare decl = do
  name ← interpret_type decl
  push_var (trimstr name)
  emits (0x83 ∷ 0xec ∷ 0x04 ∷ [])

unfoldable pub compile_declaration : Bytes → C2 (Unit {0})
unfolding declare
compile_declaration text = option (find_char text b'=') (declare text) (λ equal_pos. do
  declare (take equal_pos text)
  compile_expression (trimstr (drop (equal_pos + 1) text))
  emits (0x58 ∷ 0x89 ∷ 0x04 ∷ 0x24 ∷ [])
  pop_var)

-- What follows the word "return".
unfoldable pub compile_return : Bytes → C2 (Unit {0})
compile_return exp = do
  if is_empty exp then pure tt else (do compile_expression exp; emit 0x58; pop_var)
  exit_stack_depth ← gets (λ g. g.stack_depth)
  ret_depth ← gets (λ g. g.ret_depth)
  emit_drop exit_stack_depth ret_depth
  emit 0xc3

-- The statement `piece`, in front of its semicolon.
unfoldable pub compile_statement : Bytes → C2 (Unit {0})
unfolding compile_declaration compile_return
compile_statement piece =
    let text = trimstr piece in
    let first_id = take (find_id text) text in
    if is_empty text
    then pure tt
    else if strncmp2 first_id (codes "return")
    then compile_return (drop (find_id text) text)
    else if is_type first_id
    then compile_declaration text
    else (do compile_expression text; emits (0x83 ∷ 0xc4 ∷ 0x04 ∷ []); pop_var)

-- The loop over the parameters, the last first; the result is their number. In an empty piece the
-- search for a comma runs on in front of it, which is taken for a fault.
unfoldable pub push_params : ℕ → Bytes → ℕ → C2 ℕ
push_params zero inside param_num = halt out_of_fuel
push_params (suc fuel) inside param_num =
    let more = push_params fuel in
    if is_empty inside
    then halt fault
    else option (find_char_back inside b',') (do push_var inside; pure (param_num + 1))
        (λ pos. do push_var (drop (pos + 1) inside); more (take pos inside) (param_num + 1))

-- The head of a function; the result is the number of its parameters.
unfoldable pub begin_function : Bytes → C2 ℕ
unfolding push_params
begin_function head = do
  let text = remove_spaces head
  open_pos ← expect (find_char text b'(')
  closed_pos ← expect (find_char text b')')
  assert (byte_of text (closed_pos + 1) == 0)
  stack_depth ← gets (λ g. g.stack_depth)
  assert (stack_depth == 0)
  let inside = slice text (open_pos + 1) closed_pos
  param_num ← push_params (length inside + 1) inside 0
  push_var (codes "__ret")
  modify (λ g. record g { ret_depth = g.stack_depth })
  pure param_num

unfoldable pub end_function : ℕ → C2 (Unit {0})
end_function param_num = do
  pop_var
  emit 0xc3
  repeat param_num pop_var
  stack_depth ← gets (λ g. g.stack_depth)
  assert (stack_depth == 0)

-- The block that follows a head; the last byte in front of its brace is left out. For an empty body that
-- is in front of the body: the C code goes on behind it, and the model stops with a fault.
unfoldable pub compile_block_with_head : (Bytes → C2 (Unit {0})) → Bytes → Bytes → C2 (Unit {0})
unfolding begin_function end_function
compile_block_with_head block def_text body =
    let head = trimstr def_text in
    if equal head (codes "enum") then pure tt else (do
      outer ← gets (λ g. g.block_depth)
      param_num ← if outer == 1 then begin_function head else pure 0
      if is_empty body then halt fault else block (take (length body - 1) body)
      block_depth ← gets (λ g. g.block_depth)
      if block_depth == 1 then end_function param_num else pure tt)

-- What `compile_block` does around its loop.
unfoldable pub around_block : C2 (Unit {0}) → C2 (Unit {0})
around_block loop = do
  modify (λ g. record g { block_depth = g.block_depth + 1 })
  saved_stack_depth ← gets (λ g. g.stack_depth)
  loop
  exit_stack_depth ← gets (λ g. g.stack_depth)
  pop_to_depth saved_stack_depth
  emit_drop exit_stack_depth saved_stack_depth
  modify (λ g. record g { block_depth = g.block_depth - 1 })

-- The loop. It takes bytes in every round, so that the length of the block bounds the rounds and the
-- nesting.
unfoldable pub block_loop : ℕ → Bytes → C2 (Unit {0})
unfolding compile_block_with_head around_block
block_loop zero text = halt out_of_fuel
block_loop (suc fuel) text =
    let more = block_loop fuel in
    let statement =
      λ (pos : ℕ). (do compile_statement (take pos text); more (behind_byte pos text)) in
    let headed = λ (pos : ℕ). (do
      size ← option (find_matching b'{' b'}' (drop pos text)) (halt fault) pure
      compile_block_with_head (λ inner. around_block (more inner)) (take pos text)
          (slice text (pos + 1) (pos + size))
      more (behind_byte (pos + size) text)) in
    option (find_char text b';')
      (option (find_char text b'{') (assert (is_empty (trimstr (up_to_nul text)))) headed)
      (λ semicolon_pos. option (find_char text b'{') (statement semicolon_pos) (λ brace_pos.
        if ltb semicolon_pos brace_pos then statement semicolon_pos else headed brace_pos))

unfoldable pub compile_block : Bytes → C2 (Unit {0})
unfolding block_loop
compile_block text = around_block (block_loop (length text + 1) text)

abbrev pub start_loc : ℕ
start_loc = 0x100000

abbrev pub begin : Cc2Globals → Cc2Globals
begin g = record g { block_depth = 0; stack_depth = 0; current_loc = start_loc }

-- `main` behind `fix_strings` and the setting of the globals.
unfoldable pub compile_text : Bytes → C2 (Unit {0})
compile_text src = do
  compile_block (fix_operands src)
  block_depth ← gets (λ g. g.block_depth)
  assert (block_depth == 0)
  stack_depth ← gets (λ g. g.stack_depth)
  assert (stack_depth == 0)

-- `main` on the bytes of the file.
unfoldable pub main : Bytes → C2 (Unit {0})
unfolding compile_text
main file = do src ← expect (fix_strings file); modify begin; compile_text src
