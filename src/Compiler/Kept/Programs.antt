-- ===== src/Compiler/Kept/Programs.antt =====
-- attic/gstaging.c: blocks, declarations and the whole program keep what the primitives keep.
use asmc.Prelude.{ℕ, zero, suc, Bool, [], ◌∷◌}
use asmc.Cstring.{Bytes}
use asmc.Run.{out_of_fuel}
use asmc.Globals.{Globals, M}
use asmc.Run.Keeps.{StepRelation, Keeps}
use asmc.Run.Flow.{flow, if_rule, panic_rule}
use asmc.Symbols.Outcomes.{Primitives, IsQuiet}
use asmc.Prelude.{◌≡◌, refl}
use asmc.Run.{halt, modify}
use asmc.Run.Keeps.{keeps, Keeps-halt}
use asmc.Compiler.Stack.{push_var, pop_var}
use asmc.Compiler.Token.{get_token, give_back_token}
use asmc.Compiler.Expr.{Libc, gen_label, until_brace, push_expr_until_brace}
use asmc.Compiler.Block.{
  parse_if, parse_while, parse_statement, parse_block_with, parse_statements, parse_block,
}
use asmc.Compiler.Driver.{
  parse_const, parse_sigil, parse_fun, parse_ifun, parse_declaration, parse_declarations, parse,
  compile_file,
}
use asmc.Compiler.Kept.{
  CompilerPrimitives, parsing, preamble-Keeps, semicolon-Keeps, ret-Keeps, token-Keeps, here-Keeps,
}

module _ {S : StepRelation Globals} (P : Primitives S) (quiet : IsQuiet S)
    (starved : S.Allowed out_of_fuel) where
  -- A change of the globals that leaves the stage, the location, the output and the symbols alone.
  modify_rule :
      (f : Globals → Globals)
      → ((g : Globals) → (f g).stage ≡ g.stage)
      → ((g : Globals) → (f g).current_loc ≡ g.current_loc)
      → ((g : Globals) → (f g).output ≡ g.output)
      → ((g : Globals) → (f g).symbols ≡ g.symbols)
      → Keeps S (modify f)
  modify_rule f s l o t = keeps (λ g. quiet g (f g) (s g) (l g) (o g) (t g))

  starved_rule : {A : Type 0} → Keeps S (halt {A = A} out_of_fuel)
  starved_rule = Keeps-halt S out_of_fuel starved

  ruleset quiet_flow = (flow, modify_rule, refl)

  push_var-Keeps : (name : Bytes) (temp : Bool) → Keeps S (push_var name temp)
  unfolding push_var
  push_var-Keeps name temp = search quiet_flow depth 30

  pop_var-Keeps : (temp : Bool) → Keeps S (pop_var temp)
  unfolding pop_var
  pop_var-Keeps temp = search quiet_flow depth 30

  get_token-Keeps : Keeps S get_token
  unfolding get_token
  get_token-Keeps = search quiet_flow depth 30

  give_back_token-Keeps : Keeps S give_back_token
  unfolding give_back_token
  give_back_token-Keeps = search quiet_flow depth 30

  gen_label-Keeps : Keeps S gen_label
  unfolding gen_label
  gen_label-Keeps = search quiet_flow depth 30

  kit : CompilerPrimitives S
  kit = record {
    primitives = P;
    push_kept = push_var-Keeps;
    pop_kept = pop_var-Keeps;
    label_kept = gen_label-Keeps;
  }

  until_brace-Keeps : (libc : Libc) (fuel : ℕ) → Keeps S (until_brace libc fuel)
  unfolding until_brace
  until_brace-Keeps libc zero = starved_rule
  until_brace-Keeps libc (suc fuel) =
      let more = until_brace-Keeps libc fuel in
      search (parsing, kit, get_token-Keeps, give_back_token-Keeps, more) depth 30

  push_expr_until_brace-Keeps : (libc : Libc) → Keeps S (push_expr_until_brace libc)
  unfolding push_expr_until_brace
  push_expr_until_brace-Keeps libc = search (flow, until_brace-Keeps) depth 30

  ruleset tokens = (
    parsing, get_token-Keeps, give_back_token-Keeps, push_expr_until_brace-Keeps, modify_rule, refl,
  )

  if-Keeps : (libc : Libc) (block : M (Unit {0})) → Keeps S block → Keeps S (parse_if libc block)
  unfolding parse_if
  if-Keeps libc block h = search (tokens, kit) depth 40

  while-Keeps :
      (libc : Libc) (block : M (Unit {0})) → Keeps S block → Keeps S (parse_while libc block)
  unfolding parse_while
  while-Keeps libc block h = search (tokens, kit) depth 40

  statement-Keeps :
      (libc : Libc) (block : M (Unit {0})) (s : Bytes)
      → Keeps S block
      → Keeps S (parse_statement libc block s)
  unfolding parse_statement
  statement-Keeps libc block s h =
      search (if_rule, semicolon-Keeps, ret-Keeps, if-Keeps, while-Keeps, token-Keeps, kit) depth 12

  block_with-Keeps : (m : M (Unit {0})) → Keeps S m → Keeps S (parse_block_with m)
  unfolding parse_block_with
  block_with-Keeps m h = search (tokens, kit) depth 40

  statements-Keeps : (libc : Libc) (fuel : ℕ) → Keeps S (parse_statements libc fuel)
  unfolding parse_statements
  statements-Keeps libc zero = starved_rule
  statements-Keeps libc (suc fuel) =
      let more = statements-Keeps libc fuel in
      search (tokens, statement-Keeps, block_with-Keeps, more) depth 30

  block-Keeps : (libc : Libc) → Keeps S (parse_block libc)
  unfolding parse_block
  block-Keeps libc = search (flow, block_with-Keeps, statements-Keeps) depth 30

  const-Keeps : Keeps S parse_const
  unfolding parse_const
  const-Keeps = search (tokens, kit) depth 30

  sigil-Keeps : (s : Bytes) → Keeps S (parse_sigil s)
  unfolding parse_sigil
  sigil-Keeps [] = panic_rule
  sigil-Keeps (c ∷ s) = search (tokens, kit, here-Keeps) depth 30

  fun-Keeps : (libc : Libc) → Keeps S (parse_fun libc)
  unfolding parse_fun
  fun-Keeps libc = search (tokens, kit, block-Keeps) depth 30

  ifun-Keeps : (libc : Libc) → Keeps S (parse_ifun libc)
  unfolding parse_ifun
  ifun-Keeps libc = search (tokens, kit) depth 30

  declaration-Keeps : (libc : Libc) (s : Bytes) → Keeps S (parse_declaration libc s)
  unfolding parse_declaration
  declaration-Keeps libc s =
      search (if_rule, fun-Keeps, ifun-Keeps, const-Keeps, sigil-Keeps) depth 10

  declarations-Keeps : (libc : Libc) (fuel : ℕ) → Keeps S (parse_declarations libc fuel)
  unfolding parse_declarations
  declarations-Keeps libc zero = starved_rule
  declarations-Keeps libc (suc fuel) =
      let more = declarations-Keeps libc fuel in search (tokens, declaration-Keeps, more) depth 30

  pub parse-Keeps : (libc : Libc) → Keeps S (parse libc)
  unfolding parse
  parse-Keeps libc = search (flow, declarations-Keeps) depth 30

  pub compile_file-Keeps : (libc : Libc) (b : Bool) → Keeps S (compile_file libc b)
  unfolding compile_file
  compile_file-Keeps libc b = search (flow, kit, preamble-Keeps, parse-Keeps) depth 40
