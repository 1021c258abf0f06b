-- ===== src/Compiler/Operands.antt =====
-- attic/gstaging.c: what a token of an expression stands for, and the code that is emitted for it.
use asmc.Prelude.{ℕ, ◌-◌, ◌^◌, ◌<◌, ◌≤◌, Bool, true, false, none, some, ◌≡◌, ◌≢◌, refl, arith, ◌==◌}
use asmc.Cstring.{Bytes, minus_one}
use asmc.Run.{done}
use asmc.Globals.{Globals}
use asmc.Globals.Emit.{emitted}
use asmc.Symbols.{find_symbol}
use asmc.Compiler.Stack.{find_in_stack}
use asmc.Compiler.Token.{decode_number_or_char}
use asmc.Compiler.Expr.{minus_two, get_symbol, push_symbol, push_expr}
use asmc.Compiler.Codes.{immediate_code, slot_code, address_code, load_code, call_code}
use asmc.Compiler.Pushes.{
  with_temp, call_rel, push_immediate-done, push_stack_var-done, push_call-done, load-done,
}

-- What a token of an expression can stand for.
pub data Meaning : Type 0 where
  literal : ℕ → Meaning
  slot : ℕ → Meaning
  slot_address : ℕ → Meaning
  load : ℕ → Meaning
  call : ℕ → ℕ → Meaning

-- How a token, with or without the '@' of an address in front of it, stands for an operand: a number, a
-- name on the stack of variables, or a symbol, which is a constant, a variable or a function.
pub data Means (tok : Bytes) (g : Globals) : Bool → Meaning → Type 0 where
  number : (v : ℕ) → decode_number_or_char tok g ≡ done (some v) g → Means tok g false (literal v)
  variable :
      (i : ℕ)
      → decode_number_or_char tok g ≡ done none g
      → find_in_stack tok g ≡ some i
      → Means tok g false (slot i)
  address :
      (i : ℕ)
      → decode_number_or_char tok g ≡ done none g
      → find_in_stack tok g ≡ some i
      → Means tok g true (slot_address i)
  constant :
      (loc : ℕ)
      → decode_number_or_char tok g ≡ done none g
      → find_in_stack tok g ≡ none
      → find_symbol tok g.symbols ≡ some (loc, minus_two)
      → Means tok g false (literal loc)
  symbol_address :
      (loc arity : ℕ)
      → decode_number_or_char tok g ≡ done none g
      → find_in_stack tok g ≡ none
      → find_symbol tok g.symbols ≡ some (loc, arity)
      → arity ≢ minus_two
      → Means tok g true (literal loc)
  global :
      (loc : ℕ)
      → decode_number_or_char tok g ≡ done none g
      → find_in_stack tok g ≡ none
      → find_symbol tok g.symbols ≡ some (loc, minus_one)
      → Means tok g false (load loc)
  function :
      (loc arity : ℕ)
      → decode_number_or_char tok g ≡ done none g
      → find_in_stack tok g ≡ none
      → find_symbol tok g.symbols ≡ some (loc, arity)
      → Means tok g false (call loc arity)

-- Room on the stack of variables, and for a function its arguments.
abbrev pub Room : Meaning → Globals → Type 0
Room (call loc arity) g =
    arity < 1024 × (arity ≤ g.temp_depth) × (arity ≤ g.stack_depth) × (g.stack_depth - arity < 1024)
Room o g = g.stack_depth < 1024

-- The code emitted for a token, from globals without it to globals with it.
abbrev pub operand_code : Meaning → Globals → Bytes
operand_code (literal v) g = immediate_code v
operand_code (slot i) g = slot_code i
operand_code (slot_address i) g = address_code i
operand_code (load loc) g = load_code loc
operand_code (call loc arity) g = call_code (call_rel loc g) arity

-- What a function takes of a depth.
abbrev pub depth_left : Meaning → ℕ → ℕ
depth_left (call loc arity) d = d - arity
depth_left o d = d

abbrev pub pushed_operand : Meaning → Globals → Globals
pushed_operand o g =
    with_temp (record g {
      stack_depth = depth_left o g.stack_depth;
      temp_depth = depth_left o g.temp_depth;
    })

known :
    (tok : Bytes) (loc arity : ℕ) (g : Globals)
    → g.stage ≡ 1
    → find_symbol tok g.symbols ≡ some (loc, arity)
    → get_symbol tok true g ≡ done (loc, arity) g
unfolding get_symbol
known tok loc arity g s q = rw (s, q) refl

pub push_expr-done :
    (tok : Bytes) (want_addr : Bool) (o : Meaning) (g : Globals)
    → Means tok g want_addr o
    → Room o g
    → g.stage ≡ 1
    → g.current_loc < 2 ^ 32
    → push_expr tok want_addr g ≡ done tt (emitted (operand_code o g) (pushed_operand o g))
unfolding push_expr push_symbol
push_expr-done tok want_addr o g (number v e) r s b = rw e (push_immediate-done v g r b)
push_expr-done tok want_addr o g (variable i e f) r s b =
    rw (e, f) (push_stack_var-done i false g r b)
push_expr-done tok want_addr o g (address i e f) r s b =
    rw (e, f) (push_stack_var-done i true g r b)
push_expr-done tok want_addr o g (constant loc e f q) r s b =
    rw (e, f, known tok loc minus_two g s q) (push_immediate-done loc g r b)
push_expr-done tok want_addr o g (symbol_address loc arity e f q x) r s b =
    let other : (arity == minus_two) ≡ false = ground arith in
    rw (e, f, known tok loc arity g s q, other) (push_immediate-done loc g r b)
push_expr-done tok want_addr o g (global loc e f q) r s b =
    rw (e, f, known tok loc minus_one g s q) (load-done loc g r b)
push_expr-done tok want_addr o g (function loc arity e f q) (a, t, d, r) s b =
    let no_constant : (arity == minus_two) ≡ false = ground arith in
    let no_variable : (arity == minus_one) ≡ false = ground arith in
    rw (e, f, known tok loc arity g s q, no_constant, no_variable)
      (push_call-done loc arity g a t d r b)
