-- ===== src/Assembler/Kept.antt =====
-- attic/staging.c: a relation on the globals that the primitives keep is kept by the assembler.
use asmc.Prelude.{
  ℕ, suc, Bool, true, false, Option, none, some, List, [], ◌∷◌, if◌then◌else◌, option,
}
use asmc.Cstring.{Bytes}
use asmc.Run.{pure, ◌>>=◌, halt, panic, fault, assert, expect, gets, repeat}
use asmc.Globals.{Globals, M, emit, emit32, emit_str}
use asmc.Run.Keeps.{
  StepRelation, Keeps, Keeps-pure, Keeps-halt, Keeps-assert, Keeps-gets, Keeps-bind, Keeps-if,
  Keeps-repeat, Keeps-option,
}
use asmc.Symbols.Outcomes.{Primitives}
use asmc.Numbers.{decode_number_or_symbol}
use asmc.Assembler.Operand.{
  Operand, decode_displaced, decode_indirect, decode_direct, decode_body, decode_operand,
}
use asmc.Assembler.Encode.{emit_modrm, emit_helper}
use asmc.Assembler.Opcodes.{Handler, jmp_like, push_like, add_like, interrupt, ret, in_like, Row}
use asmc.Assembler.Instruction.{
  jmp_with, push_with, add_operands, add_immediate, add_with, process_instruction,
  process_text_line,
}
use asmc.Assembler.Lines.{
  process_bss_line, process_data_line, process_directive_line, process_equ_line, process_parts,
  process_line,
}

module _ (S : StepRelation Globals) (P : Primitives S) where
  pub Keeps-expect : {A : Type 0} (o : Option A) → Keeps S (expect o)
  Keeps-expect none = Keeps-halt S panic S.panic_allowed
  Keeps-expect (some a) = Keeps-pure S a

  pub emit-Keeps : (c : ℕ) → Keeps S (emit c)
  emit-Keeps c = P.emit_kept c

  pub emit_str-Keeps : (s : Bytes) → Keeps S (emit_str s)
  unfolding emit_str
  emit_str-Keeps [] = Keeps-pure S tt
  emit_str-Keeps (c ∷ s) = Keeps-bind S (P.emit_kept c) (λ _. emit_str-Keeps s)

  pub emit32-Keeps : (x : ℕ) → Keeps S (emit32 x)
  unfolding emit32
  emit32-Keeps x = search (P.emit_kept, Keeps-bind S)

  bind_rule :
      {A B : Type 0} {m : M A} {f : A → M B}
      → Keeps S m
      → ((a : A) → Keeps S (f a))
      → Keeps S (m >>= f)
  bind_rule = Keeps-bind S

  if_rule :
      {A : Type 0} (b : Bool) {m n : M A} → Keeps S m → Keeps S n → Keeps S (if b then m else n)
  if_rule = Keeps-if S

  option_rule :
      {A B : Type 0} (o : Option A) {n : M B} {f : A → M B}
      → Keeps S n
      → ((a : A) → Keeps S (f a))
      → Keeps S (option o n f)
  option_rule = Keeps-option S

  pure_rule : {A : Type 0} (a : A) → Keeps S (pure a)
  pure_rule = Keeps-pure S

  panic_rule : {A : Type 0} → Keeps S (halt {A = A} panic)
  panic_rule = Keeps-halt S panic S.panic_allowed

  fault_rule : {A : Type 0} → Keeps S (halt {A = A} fault)
  fault_rule = Keeps-halt S fault P.fault_allowed

  assert_rule : (b : Bool) → Keeps S (assert b)
  assert_rule = Keeps-assert S

  gets_rule : {A : Type 0} (f : Globals → A) → Keeps S (gets f)
  gets_rule = Keeps-gets S

  repeat_rule : (n : ℕ) {body : M (Unit {0})} → Keeps S body → Keeps S (repeat n body)
  repeat_rule = Keeps-repeat S

  ruleset flow = (
    bind_rule, if_rule, option_rule, pure_rule, panic_rule, fault_rule, assert_rule, gets_rule,
    repeat_rule, Keeps-expect, emit-Keeps, emit_str-Keeps, emit32-Keeps,
  )

  pub number-Keeps : (s : Bytes) (b : Bool) → Keeps S (decode_number_or_symbol s b)
  unfolding decode_number_or_symbol
  number-Keeps s b = search flow depth 20

  pub emit_modrm-Keeps : (m r k : ℕ) → Keeps S (emit_modrm m r k)
  unfolding emit_modrm
  emit_modrm-Keeps m r k = search flow depth 20

  pub emit_helper-Keeps : (x : ℕ) (b : Bool) (r m d : ℕ) → Keeps S (emit_helper x b r m d)
  unfolding emit_helper
  emit_helper-Keeps x b r m d = search (flow, emit_modrm-Keeps) depth 20

  ruleset parts = (flow, number-Keeps, emit_helper-Keeps)

  displaced-Keeps :
      (head reg after : Bytes) (is8 is32 : Bool)
      → Keeps S (decode_displaced head reg after is8 is32)
  unfolding decode_displaced
  displaced-Keeps head reg after is8 is32 = search parts depth 20

  indirect-Keeps :
      (whole head body : Bytes) (is8 is32 : Bool)
      → Keeps S (decode_indirect whole head body is8 is32)
  unfolding decode_indirect
  indirect-Keeps whole head body is8 is32 = search (parts, displaced-Keeps) depth 20

  direct-Keeps :
      (whole name : Bytes) (is8 is32 : Bool) → Keeps S (decode_direct whole name is8 is32)
  unfolding decode_direct
  direct-Keeps whole name is8 is32 = search parts depth 20

  body-Keeps :
      (whole head body : Bytes) (is8 is32 : Bool) → Keeps S (decode_body whole head body is8 is32)
  body-Keeps whole head [] is8 is32 = direct-Keeps whole [] is8 is32
  body-Keeps whole head (c ∷ body) is8 is32 = search (if_rule, indirect-Keeps, direct-Keeps)

  pub operand-Keeps : (s : Bytes) → Keeps S (decode_operand s)
  unfolding decode_operand
  operand-Keeps s = search (parts, body-Keeps) depth 20

  jmp-Keeps : (row : Row) (s : Bytes) (o : Option Operand) → Keeps S (jmp_with row s o)
  unfolding jmp_with
  jmp-Keeps row s (some o) = search parts depth 20
  jmp-Keeps row s none = search parts depth 20

  push-Keeps :
      (row : Row) (op : ℕ) (s : Bytes) (o : Option Operand) → Keeps S (push_with row op s o)
  unfolding push_with
  push-Keeps row op s (some o) = search parts depth 20
  push-Keeps row op s none = search parts depth 20

  operands-Keeps : (row : Row) (dest src : Operand) → Keeps S (add_operands row dest src)
  unfolding add_operands
  operands-Keeps row dest src = search parts depth 20

  add_immediate-Keeps :
      (row : Row) (dest : Operand) (s : Bytes) → Keeps S (add_immediate row dest s)
  unfolding add_immediate
  add_immediate-Keeps row dest s = search parts depth 20

  add-Keeps :
      (row : Row) (dest : Operand) (s : Bytes) (o : Option Operand)
      → Keeps S (add_with row dest s o)
  unfolding add_with
  add-Keeps row dest s (some src) = operands-Keeps row dest src
  add-Keeps row dest s none = add_immediate-Keeps row dest s

  -- Each handler of the table.
  instruction-Keeps :
      (h : Handler) (row : Row) (op : ℕ) (s : Bytes) → Keeps S (process_instruction h row op s)
  unfolding process_instruction
  instruction-Keeps jmp_like row op s = search (bind_rule, operand-Keeps, jmp-Keeps)
  instruction-Keeps push_like row op s = search (bind_rule, operand-Keeps, push-Keeps)
  instruction-Keeps add_like row op s = search (parts, operand-Keeps, add-Keeps) depth 20
  instruction-Keeps interrupt row op s = search parts depth 20
  instruction-Keeps ret row op s = search parts depth 20
  instruction-Keeps in_like row op s = search parts depth 20

  text-Keeps :
      (rows : List Row) (i : ℕ) (opcode s : Bytes) → Keeps S (process_text_line rows i opcode s)
  unfolding process_text_line
  text-Keeps [] i opcode s = pure_rule false
  text-Keeps (row ∷ rows) i opcode s =
      if_rule _ (bind_rule (instruction-Keeps row.handler row i s) (λ _. pure_rule true))
        (text-Keeps rows (suc i) opcode s)

  bss-Keeps : (opcode s : Bytes) → Keeps S (process_bss_line opcode s)
  unfolding process_bss_line
  bss-Keeps opcode s = search parts depth 20

  data-Keeps : (opcode s : Bytes) → Keeps S (process_data_line opcode s)
  unfolding process_data_line
  data-Keeps opcode s = search parts depth 20

  directive-Keeps : (opcode s : Bytes) → Keeps S (process_directive_line opcode s)
  unfolding process_directive_line
  directive-Keeps opcode s = search (parts, P.wrapper_kept) depth 20

  equ-Keeps : (opcode s : Bytes) → Keeps S (process_equ_line opcode s)
  unfolding process_equ_line
  equ-Keeps opcode s = search (parts, P.wrapper_kept) depth 20

  ruleset lines = (bss-Keeps, data-Keeps, directive-Keeps, equ-Keeps, text-Keeps)

  parts-Keeps : (table : List Row) (opcode s : Bytes) → Keeps S (process_parts table opcode s)
  unfolding process_parts
  parts-Keeps table opcode s = search (flow, lines) depth 20

  pub line-Keeps : (table : List Row) (s : Bytes) → Keeps S (process_line table s)
  unfolding process_line
  line-Keeps table s = search (flow, parts-Keeps)
