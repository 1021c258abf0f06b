-- ===== src/Compiler/Driver.antt =====
-- attic/gstaging.c: the declarations of a file, the built-in functions and the two passes.
use asmc.Prelude.{ℕ, zero, suc, ◌+◌, Bool, [], ◌∷◌, ◌==◌, if◌then◌else◌, codes, length}
use asmc.Cstring.{Bytes, minus_one, same}
use asmc.Run.{pure, ◌>>=◌, ◌>>◌, halt, panic, out_of_fuel, assert, gets, modify, repeat}
use asmc.Globals.{Globals, M, loop_count, emit, emit32, emit_str}
use asmc.Symbols.{add_symbol_wrapper, add_symbol_placeholder, fix_symbol_placeholder}
use asmc.Compiler.Token.{get_token, nonempty}
use asmc.Compiler.Expr.{Libc, minus_two, decode_number_or_symbol}
use asmc.Compiler.Block.{parse_block}

-- `add_symbol_wrapper(name, *get_current_loc(), arity)`
unfoldable pub add_symbol_here : Bytes → ℕ → M (Unit {0})
add_symbol_here name arity = do
  current_loc ← gets (λ g. g.current_loc)
  add_symbol_wrapper name current_loc arity

unfoldable pub parse_const : M (Unit {0})
parse_const = do
  name ← get_token
  val_str ← get_token
  val ← decode_number_or_symbol val_str
  add_symbol_wrapper name val minus_two

-- "$name": a global variable.
unfoldable pub parse_global : Bytes → M (Unit {0})
unfolding add_symbol_here
parse_global name = do assert (nonempty name); add_symbol_here name minus_one; emit32 0

-- "%name": an array.
unfoldable pub parse_array : Bytes → M (Unit {0})
unfolding add_symbol_here
parse_array name = do
  assert (nonempty name)
  add_symbol_here name minus_two
  len_str ← get_token
  len ← decode_number_or_symbol len_str
  repeat (loop_count len) (emit 0)

unfoldable pub parse_sigil : Bytes → M (Unit {0})
unfolding parse_global parse_array
parse_sigil [] = halt panic
parse_sigil (c ∷ name) =
    if c == b'$' then parse_global name else if c == b'%' then parse_array name else halt panic

-- The built-in functions "=", "param", "+" and "-".
unfoldable pub emit_preamble : M (Unit {0})
unfolding add_symbol_here
emit_preamble = do
  add_symbol_here (codes "=") 2
  emit_str (0x8b ∷ 0x44 ∷ 0x24 ∷ 0x04 ∷ 0x8b ∷ 0x4c ∷ 0x24 ∷ 0x08 ∷ 0x89 ∷ 0x01 ∷ 0xc3 ∷ [])
  add_symbol_here (codes "param") 1
  emit_str (0x8b ∷ 0x44 ∷ 0x24 ∷ 0x04 ∷ 0x8b ∷ 0x44 ∷ 0x85 ∷ 0x08 ∷ 0xc3 ∷ [])
  add_symbol_here (codes "+") 2
  emit_str (0x8b ∷ 0x44 ∷ 0x24 ∷ 0x04 ∷ 0x03 ∷ 0x44 ∷ 0x24 ∷ 0x08 ∷ 0xc3 ∷ [])
  add_symbol_here (codes "-") 2
  emit_str (0x8b ∷ 0x44 ∷ 0x24 ∷ 0x04 ∷ 0x2b ∷ 0x44 ∷ 0x24 ∷ 0x08 ∷ 0xc3 ∷ [])

-- `platform_reset_file`, and the globals that a stage sets.
abbrev pub begin_stage : Bytes → ℕ → ℕ → Globals → Globals
begin_stage file start_loc stage g = record g {
  stage = stage;
  input = file;
  label_num = 0;
  current_loc = start_loc;
}

-- The loop over the stages leaves the stage behind the last.
abbrev pub end_stages : Globals → Globals
end_stages g = record g { stage = 2 }

module _ (libc : Libc) where
  unfoldable pub parse_fun : M (Unit {0})
  parse_fun = do
    name ← get_token
    arity_str ← get_token
    current_loc ← gets (λ g. g.current_loc)
    fix_symbol_placeholder name current_loc (libc.atoi arity_str)
    emit_str (0x55 ∷ 0x89 ∷ 0xe5 ∷ [])
    parse_block libc
    emit_str (0x5d ∷ 0xc3 ∷ [])

  unfoldable pub parse_ifun : M (Unit {0})
  parse_ifun = do
    name ← get_token
    arity_str ← get_token
    add_symbol_placeholder name (libc.atoi arity_str)

  unfoldable pub parse_declaration : Bytes → M (Unit {0})
  unfolding parse_fun parse_ifun parse_const parse_sigil
  parse_declaration tok =
      if same tok (codes "fun")
      then parse_fun
      else if same tok (codes "ifun")
      then parse_ifun
      else if same tok (codes "const")
      then parse_const
      else parse_sigil tok

  unfoldable pub parse_declarations : ℕ → M (Unit {0})
  unfolding parse_declaration
  parse_declarations zero = halt out_of_fuel
  parse_declarations (suc fuel) =
      let more = parse_declarations fuel in
      do tok ← get_token; if nonempty tok then (do parse_declaration tok; more) else pure tt

  unfoldable pub parse : M (Unit {0})
  unfolding parse_declarations
  parse = do left ← gets (λ g. length g.input); parse_declarations (left + 3)

  -- A round of the loop of `compile2`, behind the resetting of the file.
  unfoldable pub compile_file : Bool → M (Unit {0})
  compile_file with_preamble = do
    if with_preamble then emit_preamble else pure tt
    parse
    block_depth ← gets (λ g. g.block_depth)
    assert (block_depth == 0)
    stack_depth ← gets (λ g. g.stack_depth)
    assert (stack_depth == 0)
    temp_depth ← gets (λ g. g.temp_depth)
    assert (temp_depth == 0)

  unfoldable pub compile_stage : Bytes → ℕ → Bool → ℕ → M (Unit {0})
  unfolding compile_file
  compile_stage file start_loc with_preamble stage = do
    modify (begin_stage file start_loc stage)
    compile_file with_preamble

  unfoldable pub compile : Bytes → ℕ → Bool → M (Unit {0})
  unfolding compile_stage
  compile file start_loc with_preamble = do
    modify (λ g. record g { block_depth = 0; stack_depth = 0; temp_depth = 0 })
    compile_stage file start_loc with_preamble 0
    compile_stage file start_loc with_preamble 1
    modify end_stages
