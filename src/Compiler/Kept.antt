-- ===== src/Compiler/Kept.antt =====
-- attic/gstaging.c: a relation on the globals that the primitives, the stack of variables and `gen_label`
-- keep is kept by all of the compiler that reads no tokens.
pub mod Programs
use asmc.Prelude.{ℕ, zero, suc, Bool, false, Option, [], ◌∷◌, refl, ◌≡◌}
use asmc.Cstring.{Bytes}
use asmc.Run.{halt, out_of_fuel, expect, modify}
use asmc.Globals.{Globals, M, emit, emit32, emit_str}
use asmc.Run.Keeps.{StepRelation, Keeps, keeps, Keeps-halt}
use asmc.Run.Flow.{flow, if_rule, bind_rule, panic_rule, pure_rule, assert_rule}
use asmc.Symbols.{add_symbol_wrapper, add_symbol_placeholder, fix_symbol_placeholder}
use asmc.Symbols.Outcomes.{Primitives, IsQuiet}
use asmc.Assembler.Kept.{Keeps-expect, emit_str-Keeps, emit32-Keeps}
use asmc.Compiler.Stack.{push_var, pop_var, pop_while, pop_temps}
use asmc.Compiler.Token.{
  get_token, give_back_token, emit_escaped, emit_escaped_string, decode_number_or_char,
}
use asmc.Compiler.Expr.{
  Libc, compute_rel, get_symbol, gen_label, push_immediate, push_call, push_symbol, push_stack_var,
  push_expr, push_operand, emit_label_rel, place_label, push_string, push_token, until_brace,
  push_expr_until_brace, decode_number_or_symbol,
}
use asmc.Compiler.Block.{
  parse_semicolon, parse_ret, parse_var, parse_indirect_call, parse_if, parse_while, parse_token,
  parse_statement, parse_block_with, parse_statements, parse_block,
}
use asmc.Compiler.Driver.{
  add_symbol_here, parse_const, parse_sigil, parse_fun, parse_ifun, parse_declaration,
  parse_declarations, parse, emit_preamble, compile_file,
}

-- What a relation must be kept by, beside the emission of a byte and the symbol operations.
pub record CompilerPrimitives (S : StepRelation Globals) : Type 0 where
  pub primitives : Primitives S
  pub push_kept : (name : Bytes) (temp : Bool) → Keeps S (push_var name temp)
  pub pop_kept : (temp : Bool) → Keeps S (pop_var temp)
  pub label_kept : Keeps S gen_label

module _ {S : StepRelation Globals} (C : CompilerPrimitives S) where
  pub expect_rule : {A : Type 0} (o : Option A) → Keeps S (expect o)
  expect_rule = Keeps-expect S C.primitives

  pub emit_rule : (c : ℕ) → Keeps S (emit c)
  emit_rule = C.primitives.emit_kept

  pub emit_str_rule : (s : Bytes) → Keeps S (emit_str s)
  emit_str_rule = emit_str-Keeps S C.primitives

  pub emit32_rule : (x : ℕ) → Keeps S (emit32 x)
  emit32_rule = emit32-Keeps S C.primitives

  pub wrapper_rule : (name : Bytes) (loc arity : ℕ) → Keeps S (add_symbol_wrapper name loc arity)
  wrapper_rule = C.primitives.wrapper_kept

  pub placeholder_rule : (name : Bytes) (arity : ℕ) → Keeps S (add_symbol_placeholder name arity)
  placeholder_rule = C.primitives.placeholder_kept

  pub fix_rule : (name : Bytes) (loc arity : ℕ) → Keeps S (fix_symbol_placeholder name loc arity)
  fix_rule = C.primitives.fix_kept

  pub push_rule : (name : Bytes) (temp : Bool) → Keeps S (push_var name temp)
  push_rule = C.push_kept

  pub pop_rule : (temp : Bool) → Keeps S (pop_var temp)
  pop_rule = C.pop_kept

  pub label_rule : Keeps S gen_label
  label_rule = C.label_kept

  ruleset code = (
    flow, expect_rule, emit_rule, emit_str_rule, emit32_rule, push_rule, pop_rule, label_rule,
    wrapper_rule,
  )

  pub pop_while-Keeps : (n : ℕ) → Keeps S (pop_while n)
  unfolding pop_while
  pop_while-Keeps zero = pure_rule tt
  pop_while-Keeps (suc n) = let again = pop_while-Keeps n in search (code, again) depth 30

  pub pop_temps-Keeps : Keeps S pop_temps
  unfolding pop_temps
  pop_temps-Keeps = search (code, pop_while-Keeps) depth 30

  pub emit_escaped-Keeps : (s : Bytes) → Keeps S (emit_escaped s)
  unfolding emit_escaped
  emit_escaped-Keeps [] = panic_rule
  emit_escaped-Keeps (c ∷ []) = search code depth 30
  emit_escaped-Keeps (c ∷ d ∷ s) =
      let after_escape = emit_escaped-Keeps s in
      let after_plain = emit_escaped-Keeps (d ∷ s) in
      search (code, after_escape, after_plain) depth 30

  pub emit_escaped_string-Keeps : (s : Bytes) → Keeps S (emit_escaped_string s)
  unfolding emit_escaped_string
  emit_escaped_string-Keeps [] = panic_rule
  emit_escaped_string-Keeps (c ∷ s) = bind_rule (assert_rule _) (λ _. emit_escaped-Keeps s)

  pub number_or_char-Keeps : (s : Bytes) → Keeps S (decode_number_or_char s)
  unfolding decode_number_or_char
  number_or_char-Keeps s = search code depth 30

  ruleset tokens = (code, pop_temps-Keeps, emit_escaped_string-Keeps, number_or_char-Keeps)

  pub compute_rel-Keeps : (x : ℕ) → Keeps S (compute_rel x)
  unfolding compute_rel
  compute_rel-Keeps x = search code

  pub get_symbol-Keeps : (s : Bytes) (b : Bool) → Keeps S (get_symbol s b)
  unfolding get_symbol
  get_symbol-Keeps s b = search code depth 30

  ruleset names = (tokens, compute_rel-Keeps, get_symbol-Keeps)

  pub push_immediate-Keeps : (x : ℕ) → Keeps S (push_immediate x)
  unfolding push_immediate
  push_immediate-Keeps x = search names depth 30

  pub push_call-Keeps : (x y : ℕ) → Keeps S (push_call x y)
  unfolding push_call
  push_call-Keeps x y = search names depth 30

  pub push_symbol-Keeps : (s : Bytes) (b : Bool) → Keeps S (push_symbol s b)
  unfolding push_symbol
  push_symbol-Keeps s b = search (names, push_immediate-Keeps, push_call-Keeps) depth 30

  pub push_stack_var-Keeps : (x : ℕ) (b : Bool) → Keeps S (push_stack_var x b)
  unfolding push_stack_var
  push_stack_var-Keeps x b = search names depth 30

  pub push_expr-Keeps : (s : Bytes) (b : Bool) → Keeps S (push_expr s b)
  unfolding push_expr
  push_expr-Keeps s b =
      search (names, push_symbol-Keeps, push_stack_var-Keeps, push_immediate-Keeps) depth 30

  pub push_operand-Keeps : (s : Bytes) → Keeps S (push_operand s)
  unfolding push_operand
  push_operand-Keeps [] = push_expr-Keeps [] false
  push_operand-Keeps (c ∷ s) = search (if_rule, push_expr-Keeps)

  pub number_or_symbol-Keeps : (s : Bytes) → Keeps S (decode_number_or_symbol s)
  unfolding decode_number_or_symbol
  number_or_symbol-Keeps s = search names depth 30

  pub label_rel-Keeps : (libc : Libc) (x : ℕ) → Keeps S (emit_label_rel libc x)
  unfolding emit_label_rel
  label_rel-Keeps libc x = search names depth 30

  pub place_label-Keeps : (libc : Libc) (x : ℕ) → Keeps S (place_label libc x)
  unfolding place_label
  place_label-Keeps libc x = search names depth 30

  ruleset labels = (names, label_rel-Keeps, place_label-Keeps, number_or_symbol-Keeps)

  pub push_string-Keeps : (libc : Libc) (s : Bytes) → Keeps S (push_string libc s)
  unfolding push_string
  push_string-Keeps libc s = search labels depth 40

  pub push_token-Keeps : (libc : Libc) (s : Bytes) → Keeps S (push_token libc s)
  unfolding push_token
  push_token-Keeps libc [] = push_operand-Keeps []
  push_token-Keeps libc (c ∷ s) = search (if_rule, push_string-Keeps, push_operand-Keeps)

  pub semicolon-Keeps : Keeps S parse_semicolon
  unfolding parse_semicolon
  semicolon-Keeps = search labels depth 30

  pub ret-Keeps : Keeps S parse_ret
  unfolding parse_ret
  ret-Keeps = search labels depth 30

  pub var-Keeps : (s : Bytes) → Keeps S (parse_var s)
  unfolding parse_var
  var-Keeps s = search labels depth 30

  pub indirect_call-Keeps : (s : Bytes) → Keeps S (parse_indirect_call s)
  unfolding parse_indirect_call
  indirect_call-Keeps s = search labels depth 30

  pub token-Keeps : (libc : Libc) (s : Bytes) → Keeps S (parse_token libc s)
  unfolding parse_token
  token-Keeps libc [] = push_token-Keeps libc []
  token-Keeps libc (c ∷ s) = search (if_rule, var-Keeps, indirect_call-Keeps, push_token-Keeps)

  pub here-Keeps : (s : Bytes) (x : ℕ) → Keeps S (add_symbol_here s x)
  unfolding add_symbol_here
  here-Keeps s x = search labels depth 30

  pub preamble-Keeps : Keeps S emit_preamble
  unfolding emit_preamble
  preamble-Keeps = search (labels, here-Keeps) depth 40

-- The rules for the parts of the parser.
pub ruleset parsing = (
  flow, expect_rule, emit_rule, emit_str_rule, emit32_rule, push_rule, pop_rule, label_rule,
  wrapper_rule, placeholder_rule, fix_rule, number_or_symbol-Keeps, label_rel-Keeps,
  place_label-Keeps, push_token-Keeps, semicolon-Keeps, ret-Keeps, token-Keeps, here-Keeps,
)
