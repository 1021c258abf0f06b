-- ===== src/Compiler/Discard.antt =====
-- attic/gstaging.c: what the code of ";" does when it runs.
use asmc.Prelude.{
  ℕ, zero, suc, ◌+◌, ◌*◌, ◌^◌, ◌<◌, ◌≤◌, true, [], ◌∷◌, ◌++◌, ◌≡◌, refl, ap, sym, arith, ltb,
  length, drop, length-drop,
}
use asmc.Cstring.{Bytes}
use asmc.Run.{done}
use asmc.Globals.{Globals, Result, word}
use asmc.Globals.Emit.{emitted, le_bytes, emit_str_lem, emit32-le_bytes, emitted-append}
use asmc.Compiler.Stack.{pop_while, pop_temps}
use asmc.Compiler.Block.{parse_semicolon}
use asmc.Compiler.Machine.{Machine, Functions, advance, further, run}
use asmc.Compiler.Codes.{discard_code, discard-run}
use asmc.Compiler.Pushes.{popped, popped_zero, popped-popped, pop_temp}
use asmc.Compiler.Execution.{Matches}

pop_while-done :
    (n : ℕ) (g : Globals)
    → g.temp_depth ≡ n
    → n ≤ g.stack_depth
    → pop_while n g ≡ done tt (popped n g)
unfolding pop_while
pop_while-done zero g e l = ap (done tt) (sym (popped_zero g))
pop_while-done (suc n) g e l =
    let some_left : ltb 0 g.temp_depth ≡ true = ground arith in
    rw
      (
        some_left,
        pop_temp g (omega arith) (omega arith),
        pop_while-done n (popped 1 g) (omega arith) (omega arith),
      )
      (ap (done tt) (popped-popped n g))

pub semicolon-done :
    (g : Globals)
    → g.temp_depth ≤ g.stack_depth
    → g.current_loc < 2 ^ 32
    → parse_semicolon g ≡ done tt (emitted (discard_code g.temp_depth) (popped g.temp_depth g))
unfolding parse_semicolon pop_temps
semicolon-done g l b =
    let g1 = emitted (0x81 ∷ 0xc4 ∷ []) g in
    let g2 = emitted (le_bytes (word (4 * g.temp_depth))) g1 in
    rw
      (
        emit_str_lem (0x81 ∷ 0xc4 ∷ []) g b,
        emit32-le_bytes (word (4 * g.temp_depth)) g1 (omega arith),
        pop_while-done g.temp_depth g2 refl l,
      )
      (ap (done tt) (
        emitted-append (0x81 ∷ 0xc4 ∷ []) (le_bytes (word (4 * g.temp_depth)))
          (popped g.temp_depth g)))

module _ (functions : Functions) where
  -- A run of ";" that ends well, and what becomes of the machine when the code runs.
  pub record Discards (g : Globals) (m : Machine) (r : Result (Unit {0})) : Type 0 where
    pub after : Globals
    pub final : Machine
    pub code : Bytes
    pub steps : ℕ
    pub ends : r ≡ done tt after
    pub written : after.output ≡ g.output ++ code
    pub runs :
        (fuel : ℕ) (t : Bytes)
        → run functions (further steps fuel) (code ++ t) m ≡ run functions fuel t final
    pub dropped : final.stack ≡ drop g.temp_depth m.stack
    pub remembers : final.memory ≡ m.memory
    pub points : final.esp ≡ word (m.esp + 4 * g.temp_depth)
    pub no_temps : after.temp_depth ≡ 0
    pub matches : Matches after final

  -- In stage 1, at a location below 2 ^ 32, `parse_semicolon` ends well when the temporaries are on the
  -- stack and that has at most 1024 slots. On a machine that matches the globals its code takes the
  -- words of the temporaries from the stack and no more, and a word for every name is left.
  pub parse_semicolon-Discards :
      (g : Globals) (m : Machine)
      → g.temp_depth ≤ g.stack_depth
      → g.stack_depth ≤ 1024
      → g.stage ≡ 1
      → g.current_loc < 2 ^ 32
      → Matches g m
      → Discards g m (parse_semicolon g)
  parse_semicolon-Discards g m l d s b match =
      let deep : length m.stack ≡ g.stack_depth = match.deep in
      record {
        after = emitted (discard_code g.temp_depth) (popped g.temp_depth g);
        final = record (advance 6 m) {
          esp = word (m.esp + 4 * g.temp_depth);
          stack = drop g.temp_depth m.stack;
        };
        code = discard_code g.temp_depth;
        steps = 1;
        ends = semicolon-done g l b;
        written = rw s refl;
        runs = λ fuel t. discard-run functions g.temp_depth m fuel t (omega arith) (omega arith);
        dropped = refl;
        remembers = refl;
        points = refl;
        no_temps = omega arith;
        matches = record {
          here = ap (λ x. word (x + 6)) match.here;
          deep = let left = length-drop g.temp_depth m.stack in omega arith;
        };
      }
