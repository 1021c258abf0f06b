-- ===== src/Compiler/Straight.antt =====
-- attic/gstaging.c: a block of expressions and ";", without variables of its own and nested blocks.
use mathlib.Core.Path.{subst}
use asmc.Prelude.{
  ℕ, zero, suc, ◌+◌, ◌-◌, ◌*◌, ◌^◌, ◌<◌, ◌≤◌, Bool, true, false, some, List, [], ◌∷◌, ◌++◌, ◌≡◌,
  refl, ap, sym, ◌∙◌, arith, Bool-cases, inl, inr, ◌==◌, length, codes, drop, length-drop,
}
use asmc.Cstring.{Bytes, same}
use asmc.Globals.{Globals, M, word}
use asmc.Globals.Emit.{emitted}
use asmc.Compiler.Token.{nonempty, char_at}
use asmc.Compiler.Expr.{Libc, push_token}
use asmc.Compiler.Block.{
  parse_semicolon, parse_token, parse_statement, parse_block_with, parse_statements,
}
use asmc.Compiler.Measure.{next, get_token-next}
use asmc.Compiler.Machine.{Machine, Functions, advance}
use asmc.Compiler.Codes.{discard_code, discard-run}
use asmc.Compiler.Operands.{
  Meaning, Means, Room, operand_code, depth_left, pushed_operand, push_expr-done,
}
use asmc.Compiler.Pushes.{popped}
use asmc.Compiler.Execution.{
  Matches, Returns, Means-Within, operand-Effect, Effect-Matches, stack_after, memory_after,
  esp_after,
}
use asmc.Compiler.Discard.{semicolon-done}
use asmc.Compiler.Sequence.{
  next-stage, next-output, next-current_loc, next-Matches, Translates, silent, prepend,
}
use asmc.Compiler.Postfix.{Reads, plain, address_of, push_token-Reads}

-- A token that is no statement of its own.
pub record Ordinary (tok : Bytes) : Type 0 where
  pub no_brace : same tok (codes "}") ≡ false
  pub no_semicolon : same tok (codes ";") ≡ false
  pub no_ret : same tok (codes "ret") ≡ false
  pub no_if : same tok (codes "if") ≡ false
  pub no_while : same tok (codes "while") ≡ false
  pub no_var : (char_at tok 0 == b'$') ≡ false
  pub no_indirect_call : (char_at tok 0 == b'\\') ≡ false

statement-Ordinary :
    (libc : Libc) (block : M (Unit {0})) (tok : Bytes) (g : Globals)
    → nonempty tok ≡ true
    → Ordinary tok
    → parse_statement libc block tok g ≡ push_token libc tok g
unfolding parse_statement parse_token
statement-Ordinary libc block [] g e o = absurd (ground arith)
statement-Ordinary libc block (c ∷ s) g e o =
    rw (o.no_semicolon, o.no_ret, o.no_if, o.no_while, o.no_var, o.no_indirect_call) refl

statement-semicolon :
    (libc : Libc) (block : M (Unit {0})) (tok : Bytes) (g : Globals)
    → same tok (codes ";") ≡ true
    → parse_statement libc block tok g ≡ parse_semicolon g
unfolding parse_statement
statement-semicolon libc block tok g e = rw e refl

-- A token of an expression, or the end of a statement.
pub data Item : Type 0 where
  value : Meaning → Item
  semicolon : Item

-- The tokens in front of the closing brace stand for the items.
abbrev pub Straight : List Item → Globals → Type 0
Straight [] g = (nonempty (next g).token_buf ≡ true) × (same (next g).token_buf (codes "}") ≡ true)
Straight (value o ∷ is) g =
    (name : Bytes) × (want_addr : Bool) × Reads (next g).token_buf name want_addr
    × Ordinary (next g).token_buf
    × Means name (next g) want_addr o
    × Room o (next g)
    × Straight is (emitted (operand_code o (next g)) (pushed_operand o (next g)))
Straight (semicolon ∷ is) g =
    (nonempty (next g).token_buf ≡ true)
    × (same (next g).token_buf (codes "}") ≡ false)
    × (same (next g).token_buf (codes ";") ≡ true)
    × ((next g).temp_depth ≤ (next g).stack_depth)
    × ((next g).stack_depth ≤ 1024)
    × Straight is (emitted (discard_code (next g).temp_depth) (popped (next g).temp_depth (next g)))

Reads-nonempty :
    (tok name : Bytes) (want_addr : Bool) → Reads tok name want_addr → nonempty tok ≡ true
Reads-nonempty tok name want_addr (plain c s q a) = refl
Reads-nonempty tok name want_addr (address_of s) = refl

next-temp_depth : (g : Globals) → (next g).temp_depth ≡ g.temp_depth
next-temp_depth g = elim (Bool-cases g.token_given_back) [ inl e ↦ rw e refl | inr e ↦ rw e refl ]

module _ (functions : Functions) where
  -- The items take one machine to another; the number is that of the temporaries on the stack. A value
  -- is pushed over its arguments, and ";" drops the temporaries.
  pub data Performs : List Item → ℕ → Machine → Machine → Type 0 where
    finished : (temps : ℕ) (m : Machine) → Performs [] temps m m
    pushes :
        (o : Meaning) (is : List Item) (temps : ℕ) (m n k : Machine)
        → stack_after functions o m ≡ some n.stack
        → n.memory ≡ memory_after functions o m
        → n.esp ≡ esp_after functions o m
        → Performs is (depth_left o temps + 1) n k
        → Performs (value o ∷ is) temps m k
    drops :
        (is : List Item) (temps : ℕ) (m n k : Machine)
        → n.stack ≡ drop temps m.stack
        → n.memory ≡ m.memory
        → n.esp ≡ word (m.esp + 4 * temps)
        → Performs is 0 n k
        → Performs (semicolon ∷ is) temps m k

  -- In stage 1, at a location below 2 ^ 32, the loop over the statements of a block, with fuel for its
  -- rounds, ends well when the tokens in front of the closing brace are operands, with room for each, and ";", with the temporaries
  -- on the stack. On a machine that matches the globals the code that is emitted runs to its end, does
  -- what the items do one after the other, and leaves the machine at the next location with a word for
  -- every name. Functions are supposed to come back to behind their calls with the stack as deep as it
  -- was.
  pub parse_statements-Translates :
      (libc : Libc) (is : List Item) (g : Globals) (m : Machine) (fuel : ℕ)
      → length is < fuel
      → Straight is g
      → g.stage ≡ 1
      → g.current_loc < 2 ^ 32
      → Returns functions
      → Matches g m
      → Translates functions (Performs is g.temp_depth m) g m (parse_statements libc fuel g)
  unfolding parse_statements
  parse_statements-Translates libc is g m zero l x s b ret match = absurd (omega arith)
  parse_statements-Translates libc [] g m (suc fuel) l (some_token, x) s b ret match =
      silent functions (Performs [] g.temp_depth m) g (next g) m _
        (rw (get_token-next g, some_token, x) refl) (next-output g) (next-Matches g m match)
        (finished g.temp_depth m)
  parse_statements-Translates libc (value o ∷ is) g m (suc fuel) l
        (name, want, reads, ordinary, means, room, x) s b ret match =
      let h = next g in
      let code = operand_code o h in
      let h2 = emitted code (pushed_operand o h) in
      let stage : h.stage ≡ 1 = next-stage g ∙ s in
      let bound : h.current_loc < 2 ^ 32 = subst (λ x. x < 2 ^ 32) (sym (next-current_loc g)) b in
      let match2 = next-Matches g m match in
      let first =
        operand-Effect functions o h m room (Means-Within name want o h means) ret match2 in
      let rest =
        parse_statements-Translates libc is h2 first.final fuel (omega arith) x stage (omega arith)
          ret (Effect-Matches functions o h m first match2) in
      let some_token = Reads-nonempty h.token_buf name want reads in
      prepend functions (Performs (value o ∷ is) g.temp_depth m)
        (Performs is h2.temp_depth first.final) g h2 m first.final _ (parse_statements libc fuel h2)
        code first.steps
        (rw
          (
            get_token-next g,
            some_token,
            ordinary.no_brace,
            statement-Ordinary libc (parse_block_with (parse_statements libc fuel)) h.token_buf h
                some_token ordinary,
            push_token-Reads libc h.token_buf name want h reads,
            push_expr-done name want o h means room stage bound,
          )
          refl)
        (rw stage (ap (λ x. x ++ code) (next-output g))) first.runs
        (λ k p.
          pushes o is g.temp_depth m first.final k first.computes first.remembers first.points
            (subst (λ t. Performs is (depth_left o t + 1) first.final k) (next-temp_depth g) p))
        rest
  parse_statements-Translates libc (semicolon ∷ is) g m (suc fuel) l
        (some_token, no_brace, is_semicolon, d, c, x) s b ret match =
      let h = next g in
      let code = discard_code h.temp_depth in
      let h2 = emitted code (popped h.temp_depth h) in
      let stage : h.stage ≡ 1 = next-stage g ∙ s in
      let bound : h.current_loc < 2 ^ 32 = subst (λ x. x < 2 ^ 32) (sym (next-current_loc g)) b in
      let match2 = next-Matches g m match in
      let n = record (advance 6 m) {
        esp = word (m.esp + 4 * h.temp_depth);
        stack = drop h.temp_depth m.stack;
      } in
      let deep : length n.stack ≡ h2.stack_depth =
        omega (arith, length-drop h.temp_depth m.stack, match2.deep) in
      let rest =
        parse_statements-Translates libc is h2 n fuel (omega arith) x stage (omega arith) ret
          (record { here = ap (λ x. word (x + 6)) match2.here; deep = deep }) in
      let same_temps = next-temp_depth g in
      let no_temps : h.temp_depth - h.temp_depth ≡ 0 = omega arith in
      prepend functions (Performs (semicolon ∷ is) g.temp_depth m) (Performs is h2.temp_depth n) g
        h2 m n _ (parse_statements libc fuel h2) code 1
        (rw
          (
            get_token-next g,
            some_token,
            no_brace,
            statement-semicolon libc (parse_block_with (parse_statements libc fuel)) h.token_buf h
                is_semicolon,
            semicolon-done h d bound,
          )
          refl)
        (rw stage (ap (λ x. x ++ code) (next-output g)))
        (λ fuel t.
          discard-run functions h.temp_depth m fuel t (omega arith) (omega (arith, match2.deep)))
        (λ k p.
          drops is g.temp_depth m n k (ap (λ t. drop t m.stack) same_temps) refl
            (ap (λ t. word (m.esp + 4 * t)) same_temps) (subst (λ t. Performs is t n k) no_temps p))
        rest
