-- ===== src/Compiler/Termination.antt =====
-- attic/gstaging.c: the declarations of a file end, and so does `compile2`.
use asmc.Prelude.{
  ℕ, zero, suc, ◌+◌, ◌<◌, Bool, [], ◌∷◌, ◌≢◌, arith, All, Bool-cases, inl, inr, length,
}
use asmc.Cstring.{Bytes}
use asmc.Run.{modify, Outcome, stop, done, out_of_fuel, ◌>>◌}
use asmc.Run.Keeps.{Ends, Ends-bind}
use asmc.Run.Ending.{Finished, Ends-Finished}
use asmc.Run.Invariant.{Leads, Triple-apply, staying, stays_bind, stays_if, stays_panic}
use asmc.Globals.{Globals}
use asmc.Compiler.Token.{nonempty}
use asmc.Compiler.Expr.{Libc}
use asmc.Compiler.Driver.{
  end_stages, parse_const, parse_sigil, parse_fun, parse_ifun, parse_declaration,
  parse_declarations, parse, begin_stage, compile_file, compile_stage, compile,
}
use asmc.Compiler.Kept.{preamble-Keeps}
use asmc.Compiler.Steady.{HasName, Named, steady-CompilerPrimitives}
use asmc.Compiler.Measure.{slots, Good, Good-begin, Held-Good, stays_steady}
use asmc.Compiler.Rounds.{Stays, token_first, less_rest, own_fuel, steps}
use asmc.Compiler.Nesting.{block-Stays}

const-Stays : {n : ℕ} → Stays n parse_const
unfolding parse_const
const-Stays = search steps depth 30

sigil-Stays : {n : ℕ} (s : Bytes) → Stays n (parse_sigil s)
unfolding parse_sigil
sigil-Stays [] = stays_panic
sigil-Stays (c ∷ s) = search steps depth 30

fun-Stays : (libc : Libc) {n : ℕ} → Stays n (parse_fun libc)
unfolding parse_fun
fun-Stays libc = search (steps, block-Stays) depth 30

ifun-Stays : (libc : Libc) {n : ℕ} → Stays n (parse_ifun libc)
unfolding parse_ifun
ifun-Stays libc = search steps depth 30

declaration-Stays : (libc : Libc) {n : ℕ} (s : Bytes) → Stays n (parse_declaration libc s)
unfolding parse_declaration
declaration-Stays libc s =
    search (stays_if, fun-Stays, ifun-Stays, const-Stays, sigil-Stays) depth 10

declarations-Stays : (libc : Libc) (fuel n : ℕ) → n < fuel → Stays n (parse_declarations libc fuel)
unfolding parse_declarations
declarations-Stays libc zero n l = absurd (omega arith)
declarations-Stays libc (suc fuel) n l = token_first _ λ h p.
    elim (Bool-cases (nonempty h.token_buf)) [
      | inr x ↦ rw x (Held-Good n h p, λ i l. l)
      | inl x ↦ rw x (
          less_rest n h (parse_declaration libc h.token_buf >> parse_declarations libc fuel) x p
            λ k q.
              stays_bind (declaration-Stays libc h.token_buf)
                (λ _. declarations-Stays libc fuel k (omega arith)))
    ]

parse-Stays : (libc : Libc) {n : ℕ} → Stays n (parse libc)
unfolding parse
parse-Stays libc = own_fuel (parse_declarations libc) (declarations-Stays libc)

compile_file-Stays : (libc : Libc) {n : ℕ} (b : Bool) → Stays n (compile_file libc b)
unfolding compile_file
compile_file-Stays libc b =
    search (staying, stays_steady, preamble-Keeps, steady-CompilerPrimitives, parse-Stays) depth 40

Leads-Named :
    {A : Type 0} (n : ℕ) (g : Globals) (r : Outcome Globals A)
    → Leads slots (Good n) g r
    → Ends Named Finished r
Leads-Named n g (done a h) (p, s) = p.named
Leads-Named n g (stop e) p = p

stage-Stays :
    (libc : Libc) (file : Bytes) (start_loc : ℕ) (b : Bool) (stage : ℕ) (g : Globals)
    → Named g
    → Ends Named Finished (compile_stage libc file start_loc b stage g)
unfolding compile_stage
stage-Stays libc file start_loc b stage g n =
    Leads-Named (length file + 1) (begin_stage file start_loc stage g)
      (compile_file libc b (begin_stage file start_loc stage g))
      (Triple-apply slots (compile_file-Stays libc b) (begin_stage file start_loc stage g)
        (Good-begin file start_loc stage g n))

-- `compile2` ends on every file, with or without the built-in functions, when it begins with a symbol
-- table in which every name has a character: the fuel of the loops over the tokens of expressions,
-- blocks and declarations is enough in both stages.
pub compile-terminates :
    (libc : Libc) (file : Bytes) (start_loc : ℕ) (with_preamble : Bool) (g : Globals)
    → All HasName g.symbols
    → compile libc file start_loc with_preamble g ≢ stop out_of_fuel
unfolding compile
compile-terminates libc file start_loc with_preamble g h =
    let fresh = record g { block_depth = 0; stack_depth = 0; temp_depth = 0 } in
    let named : Named fresh = record {
      symbols_named = h;
      vars_named = λ i l. absurd (omega arith);
    } in
    Ends-Finished Named (compile libc file start_loc with_preamble g) (
      Ends-bind Named Named Finished (compile_stage libc file start_loc with_preamble 0 fresh)
        (λ _. compile_stage libc file start_loc with_preamble 1 >> modify end_stages)
        (stage-Stays libc file start_loc with_preamble 0 fresh named)
        (λ _ k n.
          Ends-bind Named Named Finished (compile_stage libc file start_loc with_preamble 1 k)
            (λ _. modify end_stages) (stage-Stays libc file start_loc with_preamble 1 k n)
            (λ _ l q. record { symbols_named = q.symbols_named; vars_named = q.vars_named })))
