-- ===== src/Tests/Running.antt =====
-- The code of small expressions and of ";" on a small machine.
use asmc.Prelude.{List, ℕ, ◌+◌, false, [], ◌∷◌, refl, arith, codes, ◌==◌, if◌then◌else◌}
use asmc.Cstring.{Bytes, strcmp}
use asmc.Globals.{Globals}
use asmc.Symbols.{find_symbol}
use asmc.Numbers.{decode_number}
use asmc.Compiler.Stack.{find_in_stack}
use asmc.Compiler.Token.{decode_number_or_char, read_token, up_to_nul}
use asmc.Compiler.Expr.{temp_var, until_brace}
use asmc.Compiler.Block.{parse_semicolon, parse_statements}
use asmc.Compiler.Machine.{Machine, Functions}
use asmc.Compiler.Operands.{Meaning, function, call, literal, number, slot, variable}
use asmc.Compiler.Straight.{
  Ordinary, Item, value, semicolon, Straight, Performs, parse_statements-Translates,
}
use asmc.Compiler.Postfix.{Expression, plain, Evaluates, until_brace-Translates}
use asmc.Compiler.Sequence.{Translates}
use asmc.Compiler.Execution.{Matches, Returns}
use asmc.Compiler.Discard.{Discards, parse_semicolon-Discards}
use asmc.Tests.Start.{start, libc}

-- A variable "x" and a temporary are on the stack, and "f" is a function of one argument.
abbrev names : ℕ → Bytes
names i = if i == 0 then codes "x" else temp_var

abbrev compiling : Globals
compiling = record start {
  stage = 1;
  current_loc = 0x100000;
  symbols = (record { name = codes "f"; loc = 0x200000; arity = 1 }) ∷ [];
  stack_depth = 2;
  temp_depth = 1;
  stack_vars = names;
}

abbrev running : Machine
running = record { eip = 0x100000; eax = 0; esp = 0x8000; stack = 7 ∷ 5 ∷ []; memory = λ a. 0 }

-- Every function returns its address plus one.
abbrev functions : Functions
functions a m = record m { eax = a + 1 }

functions-Returns : Returns functions
functions-Returns = record { back = λ a m. refl; level = λ a m. refl }

running-Matches : Matches compiling running
running-Matches = record { here = refl; deep = refl }

parse_semicolon-Discards_example : Discards functions compiling running (parse_semicolon compiling)
parse_semicolon-Discards_example =
    parse_semicolon-Discards functions compiling running (omega arith) (omega arith) refl
      (omega arith) running-Matches

abbrev expression : Globals
expression = record compiling { input = codes "7 f {\n" }

abbrev operands : List Meaning
operands = literal 7 ∷ call 0x200000 1 ∷ []

7_f-Expression : Expression operands expression
unfolding decode_number_or_char decode_number find_in_stack find_symbol strcmp read_token up_to_nul
7_f-Expression = (
  codes "7",
  false,
  plain b'7' [] refl refl,
  refl,
  number 7 refl,
  omega arith,
  (
    codes "f",
    false,
    plain b'f' [] refl refl,
    refl,
    function 0x200000 1 refl refl refl,
    (omega arith, omega arith, omega arith, omega arith),
    refl,
  ),
)

until_brace-Translates_example :
    Translates functions
      (Evaluates functions operands running)
      expression
      running
      (until_brace libc 3 expression)
until_brace-Translates_example =
    until_brace-Translates functions libc operands expression running 3 (omega arith) 7_f-Expression
      refl (omega arith) functions-Returns (record { here = refl; deep = refl })

abbrev block : Globals
block = record compiling { input = codes "7 ; x }\n" }

abbrev items : List Item
items = value (literal 7) ∷ semicolon ∷ value (slot 0) ∷ []

seven-Ordinary : Ordinary (codes "7")
unfolding strcmp
seven-Ordinary = record {
  no_brace = refl;
  no_semicolon = refl;
  no_ret = refl;
  no_if = refl;
  no_while = refl;
  no_var = refl;
  no_indirect_call = refl;
}

x-Ordinary : Ordinary (codes "x")
unfolding strcmp
x-Ordinary = record {
  no_brace = refl;
  no_semicolon = refl;
  no_ret = refl;
  no_if = refl;
  no_while = refl;
  no_var = refl;
  no_indirect_call = refl;
}

7_x-Straight : Straight items block
unfolding decode_number_or_char decode_number find_in_stack strcmp read_token up_to_nul
7_x-Straight = (
  codes "7",
  false,
  plain b'7' [] refl refl,
  seven-Ordinary,
  number 7 refl,
  omega arith,
  (
    refl,
    refl,
    refl,
    omega arith,
    omega arith,
    (
      codes "x",
      false,
      plain b'x' [] refl refl,
      x-Ordinary,
      variable 0 refl refl,
      omega arith,
      (refl, refl),
    ),
  ),
)

parse_statements-Translates_example :
    Translates functions
      (Performs functions items 1 running)
      block
      running
      (parse_statements libc 4 block)
parse_statements-Translates_example =
    parse_statements-Translates functions libc items block running 4 (omega arith) 7_x-Straight refl
      (omega arith) functions-Returns (record { here = refl; deep = refl })
