-- ===== src/Cc/Statements.antt =====
-- cc/cc.c: statements, and the code at the edges of the blocks.
use asmc.Prelude.{ℕ, ◌*◌, Bool, true, false, not, [], ◌∷◌, ltb, ◌==◌, if◌then◌else◌, option, codes}
use asmc.Cstring.{Bytes}
use asmc.Run.{pure, ◌>>=◌, ◌>>◌, halt, fault, assert, gets, modify}
use asmc.Globals.{word, sub_word}
use asmc.Cc.Text.{isstrpref, trimstr}
use asmc.Cc.Tables.{C, get_symbol, add_symbol, push_var, pop_var, emit, emit32, emits}
use asmc.Cc.Expressions.{gen_id}
use asmc.Cc.Eval.{compile_expression}

-- "add esp, .." by the slots between two depths.
abbrev pub emit_drop : ℕ → ℕ → C (Unit {0})
emit_drop depth kept = do emits (0x81 ∷ 0xc4 ∷ []); emit32 (word (4 * sub_word depth kept))

-- `p + 1` for a string `p`. For the empty string the C code reads on behind the terminator, in the file,
-- and the model stops with a fault.
unfoldable pub next_string : Bytes → C Bytes
next_string [] = halt fault
next_string (c ∷ s) = pure s

abbrev pub is_empty : Bytes → Bool
is_empty [] = true
is_empty (c ∷ s) = false

unfoldable pub compile_declaration : Bytes → C (Unit {0})
unfolding next_string
compile_declaration p = do
  declared ← next_string p
  let name = trimstr declared
  block_depth ← gets (λ g. g.block_depth)
  current_loc ← gets (λ g. g.current_loc)
  if block_depth == 1
      then (do add_symbol name current_loc; emit32 0)
      else (do push_var name; emits (0x83 ∷ 0xec ∷ 0x04 ∷ []))

module _ (label_text : ℕ → Bytes) where
  unfoldable pub compile_return : Bytes → C (Unit {0})
  compile_return p = do
    block_depth ← gets (λ g. g.block_depth)
    assert (ltb 1 block_depth)
    if is_empty p
        then pure tt
        else (do exp ← next_string p; compile_expression label_text exp; emit 0x58; pop_var)
    stack_depth ← gets (λ g. g.stack_depth)
    ret_depth ← gets (λ g. g.ret_depth)
    emit_drop stack_depth ret_depth
    emit 0xc3

  unfoldable pub compile_effect : Bytes → C (Unit {0})
  compile_effect text = do
    block_depth ← gets (λ g. g.block_depth)
    assert (ltb 1 block_depth)
    modify (λ g. record g { char_op = false })
    option (isstrpref (codes "char") text) (compile_expression label_text text) (λ p. do
      modify (λ g. record g { char_op = true })
      exp ← next_string p
      compile_expression label_text exp)
    emits (0x83 ∷ 0xc4 ∷ 0x04 ∷ [])
    pop_var

  -- The statement `piece`, in front of its semicolon.
  unfoldable pub compile_statement : Bytes → C (Unit {0})
  unfolding compile_return compile_declaration compile_effect
  compile_statement piece =
      let text = trimstr piece in
      if is_empty text
      then pure tt
      else option (isstrpref (codes "return") text)
          (option (isstrpref (codes "int") text) (compile_effect text) compile_declaration)
          compile_return

  -- "pop eax; cmp eax, 0; je" to a label.
  unfoldable pub emit_branch : ℕ → C (Unit {0})
  emit_branch lab = do
    emits (0x58 ∷ 0x83 ∷ 0xf8 ∷ 0x00 ∷ 0x0f ∷ 0x84 ∷ [])
    loc ← get_symbol (label_text lab)
    current_loc ← gets (λ g. g.current_loc)
    emit32 (sub_word (sub_word loc 4) current_loc)

  unfoldable pub add_label : ℕ → C (Unit {0})
  add_label lab = do
    current_loc ← gets (λ g. g.current_loc)
    add_symbol (label_text lab) current_loc

  -- The labels `*else_lab` and `*fi_lab` are passed, and returned where they change.
  unfoldable pub process_fi : ℕ → ℕ → C (Unit {0})
  unfolding add_label
  process_fi else_lab fi_lab = do
    if else_lab == 0 then pure tt else add_label else_lab
    if fi_lab == 0 then pure tt else add_label fi_lab

  unfoldable pub process_if : Bytes → ℕ → ℕ → C (ℕ × ℕ)
  unfolding process_fi emit_branch
  process_if exp else_lab fi_lab = do
    process_fi else_lab fi_lab
    else_lab' ← gen_id
    fi_lab' ← gen_id
    compile_expression label_text exp
    pop_var
    emit_branch else_lab'
    pure (else_lab', fi_lab')

  unfoldable pub process_if_end : ℕ → C (Unit {0})
  process_if_end fi_lab = do
    emit 0xe9
    loc ← get_symbol (label_text fi_lab)
    current_loc ← gets (λ g. g.current_loc)
    emit32 (sub_word (sub_word loc 4) current_loc)

  unfoldable pub process_else : ℕ → C (Unit {0})
  unfolding add_label
  process_else else_lab = do assert (not (else_lab == 0)); add_label else_lab

  unfoldable pub process_elseif : Bytes → ℕ → C ℕ
  unfolding process_else emit_branch
  process_elseif exp else_lab = do
    process_else else_lab
    else_lab' ← gen_id
    compile_expression label_text exp
    pop_var
    emit_branch else_lab'
    pure else_lab'
