-- ===== src/Compiler/Postfix.antt =====
-- attic/gstaging.c: the operands in front of a brace, one behind the other, are a program in postfix.
use mathlib.Core.Path.{subst}
use asmc.Prelude.{
  ℕ, zero, suc, ◌^◌, ◌<◌, Bool, true, false, some, List, [], ◌∷◌, ◌++◌, ◌≡◌, refl, ap, sym, ◌∙◌,
  arith, ◌==◌, length, codes,
}
use asmc.Cstring.{Bytes, same}
use asmc.Globals.{Globals}
use asmc.Globals.Emit.{emitted}
use asmc.Compiler.Token.{give_back_token}
use asmc.Compiler.Expr.{Libc, push_expr, push_operand, push_token, until_brace}
use asmc.Compiler.Measure.{next, get_token-next, next-taken}
use asmc.Compiler.Sequence.{
  next-stage, next-output, next-current_loc, next-Matches, Translates, silent, prepend,
}
use asmc.Compiler.Machine.{Machine, Functions}
use asmc.Compiler.Operands.{Meaning, Means, Room, operand_code, pushed_operand, push_expr-done}
use asmc.Compiler.Execution.{
  Matches, Returns, Means-Within, operand-Effect, Effect-Matches, stack_after, memory_after,
  esp_after,
}

-- The name in a token, and whether its address is asked for.
pub data Reads : Bytes → Bytes → Bool → Type 0 where
  plain :
      (c : ℕ) (s : Bytes) → (c == b'"') ≡ false → (c == b'@') ≡ false → Reads (c ∷ s) (c ∷ s) false
  address_of : (s : Bytes) → Reads (b'@' ∷ s) s true

pub push_token-Reads :
    (libc : Libc) (tok name : Bytes) (want_addr : Bool) (g : Globals)
    → Reads tok name want_addr
    → push_token libc tok g ≡ push_expr name want_addr g
unfolding push_token push_operand
push_token-Reads libc tok name want_addr g (plain c s q a) = rw (q, a) refl
push_token-Reads libc tok name want_addr g (address_of s) = refl

-- The tokens in front of the brace stand for the operands, each with the names that are on the stack
-- when it is read.
abbrev pub Expression : List Meaning → Globals → Type 0
Expression [] g = same (next g).token_buf (codes "{") ≡ true
Expression (o ∷ os) g =
    (name : Bytes) × (want_addr : Bool) × Reads (next g).token_buf name want_addr
    × (same (next g).token_buf (codes "{") ≡ false)
    × Means name (next g) want_addr o
    × Room o (next g)
    × Expression os (emitted (operand_code o (next g)) (pushed_operand o (next g)))

module _ (functions : Functions) where
  -- A postfix program takes one machine to another.
  pub data Evaluates : List Meaning → Machine → Machine → Type 0 where
    finished : (m : Machine) → Evaluates [] m m
    operand :
        (o : Meaning) (os : List Meaning) (m n k : Machine)
        → stack_after functions o m ≡ some n.stack
        → n.memory ≡ memory_after functions o m
        → n.esp ≡ esp_after functions o m
        → Evaluates os n k
        → Evaluates (o ∷ os) m k

  -- In stage 1, at a location below 2 ^ 32, the loop of `push_expr_until_brace`, with fuel for its
  -- rounds, ends well when the tokens in front of the brace stand for operands and there is room for
  -- each. On a machine that matches the
  -- globals the code that is emitted runs to its end, evaluates the operands as a program in postfix,
  -- and leaves the machine at the next location with a word for every name. Functions are supposed to
  -- come back to behind their calls with the stack as deep as it was.
  pub until_brace-Translates :
      (libc : Libc) (os : List Meaning) (g : Globals) (m : Machine) (fuel : ℕ)
      → length os < fuel
      → Expression os g
      → g.stage ≡ 1
      → g.current_loc < 2 ^ 32
      → Returns functions
      → Matches g m
      → Translates functions (Evaluates os m) g m (until_brace libc fuel g)
  unfolding until_brace give_back_token
  until_brace-Translates libc os g m zero l x s b ret match = absurd (omega arith)
  until_brace-Translates libc [] g m (suc fuel) l x s b ret match =
      let h = next-Matches g m match in
      silent functions (Evaluates [] m) g (record (next g) { token_given_back = true }) m _
        (rw (get_token-next g, x, next-taken g) refl) (next-output g)
        (record { here = h.here; deep = h.deep }) (finished m)
  until_brace-Translates libc (o ∷ os) g m (suc fuel) l
        (name, want, reads, no_brace, means, room, x) s b ret match =
      let h = next g in
      let code = operand_code o h in
      let h2 = emitted code (pushed_operand o h) in
      let stage : h.stage ≡ 1 = next-stage g ∙ s in
      let bound : h.current_loc < 2 ^ 32 = subst (λ x. x < 2 ^ 32) (sym (next-current_loc g)) b in
      let match2 = next-Matches g m match in
      let first =
        operand-Effect functions o h m room (Means-Within name want o h means) ret match2 in
      let rest =
        until_brace-Translates libc os h2 first.final fuel (omega arith) x stage (omega arith) ret
          (Effect-Matches functions o h m first match2) in
      let emits : h2.output ≡ g.output ++ code = rw stage (ap (λ x. x ++ code) (next-output g)) in
      prepend functions (Evaluates (o ∷ os) m) (Evaluates os first.final) g h2 m first.final _
        (until_brace libc fuel h2) code first.steps
        (rw
          (
            get_token-next g,
            no_brace,
            push_token-Reads libc h.token_buf name want h reads,
            push_expr-done name want o h means room stage bound,
          )
          refl)
        emits first.runs
        (λ k. operand o os m first.final k first.computes first.remembers first.points) rest
