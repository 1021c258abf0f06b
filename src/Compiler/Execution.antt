-- ===== src/Compiler/Execution.antt =====
-- attic/gstaging.c: what the code for a token of an expression does when it runs.
use mathlib.Core.Option
use asmc.Prelude.{
  ℕ, zero, suc, ◌+◌, ◌*◌, ◌<◌, Bool, Option, some, List, [], ◌∷◌, ◌++◌, ◌≡◌, refl, ap, ◌∙◌, arith,
  Option-cases, inl, inr, length, get_elem?, drop, length-drop,
}
use asmc.Cstring.{Bytes}
use asmc.Globals.{Globals, word, sub_word}
use asmc.Globals.Emit.{emitted}
use asmc.Compiler.Stack.{find_from, find_in_stack}
use asmc.Compiler.Machine.{Machine, Functions, push_word, advance, further, run}
use asmc.Compiler.Codes.{
  immediate-run, slot-run, address-run, load-run, call-run, with_address, with_load, with_result,
}
use asmc.Compiler.Operands.{
  Meaning, literal, slot, slot_address, load, call, Means, number, variable, address, constant,
  symbol_address, global, function, Room, operand_code, pushed_operand,
}
use asmc.Compiler.Pushes.{call_rel}

-- The stack of the machine has a word for every name, and the machine stands where code goes on.
pub record Matches (g : Globals) (m : Machine) : Type 0 where
  pub here : m.eip ≡ g.current_loc
  pub deep : length m.stack ≡ g.stack_depth

-- A function comes back to behind its call, and leaves the stack as deep as it was.
pub record Returns (functions : Functions) : Type 0 where
  pub back : (a : ℕ) (m : Machine) → (functions a m).eip ≡ m.eip
  pub level : (a : ℕ) (m : Machine) → length (functions a m).stack ≡ length m.stack

found :
    (vars : ℕ → Bytes) (name : Bytes) (depth i : ℕ) → find_from vars name depth ≡ some i → i < depth
unfolding find_from
found vars name zero i e = absurd (ground arith)
found vars name (suc depth) i e = elim (Option-cases (find_from vars name depth)) [
  | inl n ↦ ground arith
  | inr (j, q) ↦ let below = found vars name depth j q in ground arith
]

slot_exists : (xs : List ℕ) (i : ℕ) → i < length xs → (x : ℕ) × (get_elem? xs i ≡ some x)
slot_exists [] i l = absurd (omega arith)
slot_exists (x ∷ xs) zero l = (x, refl)
slot_exists (x ∷ xs) (suc i) l = slot_exists xs i (omega arith)

-- The variable of a slot is on the stack.
abbrev pub Within : Meaning → Globals → Type 0
Within (slot i) g = i < g.stack_depth
Within o g = Unit

pub Means-Within :
    (tok : Bytes) (want_addr : Bool) (o : Meaning) (g : Globals)
    → Means tok g want_addr o
    → Within o g
unfolding find_in_stack
Means-Within tok want_addr o g (number v e) = tt
Means-Within tok want_addr o g (variable i e f) = found g.stack_vars tok g.stack_depth i f
Means-Within tok want_addr o g (address i e f) = tt
Means-Within tok want_addr o g (constant loc e f q) = tt
Means-Within tok want_addr o g (symbol_address loc arity e f q x) = tt
Means-Within tok want_addr o g (global loc e f q) = tt
Means-Within tok want_addr o g (function loc arity e f q) = tt

module _ (functions : Functions) where
  -- The stack behind an operand: its value is pushed, and those of the arguments of a function are dropped.
  abbrev pub stack_after : Meaning → Machine → Option (List ℕ)
  stack_after (literal v) m = some (word v ∷ m.stack)
  stack_after (slot i) m = Option.map (λ x. x ∷ m.stack) (get_elem? m.stack i)
  stack_after (slot_address i) m = some (word (m.esp + 4 * i) ∷ m.stack)
  stack_after (load loc) m = some (m.memory (word loc) ∷ m.stack)
  stack_after (call loc arity) m =
      let k = functions (word loc) (advance 5 m) in some (k.eax ∷ drop arity k.stack)

  -- Only a function changes the memory.
  abbrev pub memory_after : Meaning → Machine → ℕ → ℕ
  memory_after (call loc arity) m = (functions (word loc) (advance 5 m)).memory
  memory_after o m = m.memory

  -- One word is pushed, and the arguments of a function are taken.
  abbrev pub esp_after : Meaning → Machine → ℕ
  esp_after (call loc arity) m =
      sub_word (word ((functions (word loc) (advance 5 m)).esp + 4 * arity)) 4
  esp_after o m = sub_word m.esp 4

  -- A run of the code of an operand, whatever stands behind it.
  pub record Effect (o : Meaning) (g : Globals) (m : Machine) : Type 0 where
    pub final : Machine
    pub steps : ℕ
    pub runs :
        (fuel : ℕ) (t : Bytes)
        → run functions (further steps fuel) (operand_code o g ++ t) m ≡ run functions fuel t final
    pub computes : stack_after o m ≡ some final.stack
    pub remembers : final.memory ≡ memory_after o m
    pub points : final.esp ≡ esp_after o m
    behind : final.eip ≡ word (m.eip + length (operand_code o g))
    deep : length final.stack ≡ (pushed_operand o g).stack_depth

  pub operand-Effect :
      (o : Meaning) (g : Globals) (m : Machine)
      → Room o g
      → Within o g
      → Returns functions
      → Matches g m
      → Effect o g m
  operand-Effect (literal v) g m r w ret s = record {
    final = push_word (word v) (advance 5 m);
    steps = 1;
    runs = immediate-run functions v m;
    computes = refl;
    remembers = refl;
    points = refl;
    behind = refl;
    deep = let d = s.deep in omega arith;
  }
  operand-Effect (slot i) g m r w ret s =
      let d = s.deep in
      let (x, e) = slot_exists m.stack i (omega arith) in
      record {
        final = push_word x (advance 7 m);
        steps = 1;
        runs = λ fuel t. slot-run functions i x m fuel t (omega arith) e;
        computes = rw e refl;
        remembers = refl;
        points = refl;
        behind = refl;
        deep = omega arith;
      }
  operand-Effect (slot_address i) g m r w ret s =
      let d = s.deep in
      record {
        final = with_address i m;
        steps = 2;
        runs = address-run functions i m;
        computes = refl;
        remembers = refl;
        points = refl;
        behind = omega arith;
        deep = omega arith;
      }
  operand-Effect (load loc) g m r w ret s =
      let d = s.deep in
      record {
        final = with_load loc m;
        steps = 2;
        runs = load-run functions loc m;
        computes = refl;
        remembers = refl;
        points = refl;
        behind = omega arith;
        deep = omega arith;
      }
  operand-Effect (call loc arity) g m (a, t, d, r) w ret s =
      let k = functions (word loc) (advance 5 m) in
      let at : m.eip ≡ g.current_loc = s.here in
      let target : word loc ≡ word (m.eip + 5 + call_rel loc g) = omega arith in
      let level : length k.stack ≡ g.stack_depth = ret.level (word loc) (advance 5 m) ∙ s.deep in
      let back : k.eip ≡ word (m.eip + 5) = ret.back (word loc) (advance 5 m) in
      let left = length-drop arity k.stack in
      record {
        final = with_result arity k;
        steps = 3;
        runs = λ fuel t.
            call-run functions (call_rel loc g) arity m k fuel t (a)
              (ap (λ x. functions x (advance 5 m)) target) (omega arith);
        computes = refl;
        remembers = refl;
        points = refl;
        behind = omega arith;
        deep = omega arith;
      }

  pub Effect-Matches :
      (o : Meaning) (g : Globals) (m : Machine)
      → (e : Effect o g m) → Matches g m
      → Matches (emitted (operand_code o g) (pushed_operand o g)) e.final
  Effect-Matches o g m e s = record {
    here = e.behind ∙ ap (λ x. word (x + length (operand_code o g))) s.here;
    deep = e.deep;
  }
