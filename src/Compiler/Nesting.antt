-- ===== src/Compiler/Nesting.antt =====
-- attic/gstaging.c: blocks in blocks, which share the rest of the file, end.
use asmc.Prelude.{
  ℕ, zero, suc, ◌+◌, ◌-◌, ◌<◌, [], ◌∷◌, arith, Bool-cases, inl, inr, codes, ◌*◌, leb,
}
use asmc.Cstring.{same, strlen}
use asmc.Run.{Outcome, stop, done, ◌>>=◌, ◌>>◌, gets, assert, modify}
use asmc.Run.Ending.{panic-Finished}
use asmc.Run.Invariant.{Leads, Triple, triple, Triple-apply, Leads-weaken, staying, stays_bind}
use asmc.Globals.{Globals, M, word, emit32, emit_str}
use asmc.Compiler.Token.{get_token, nonempty}
use asmc.Compiler.Expr.{Libc}
use asmc.Compiler.Block.{parse_statement, parse_block_with, parse_statements, parse_block}
use asmc.Compiler.Kept.{emit_rule, emit32_rule, emit_str_rule}
use asmc.Compiler.Steady.{steady-CompilerPrimitives}
use asmc.Compiler.Measure.{slots, Good, Held-Good, stays_token, stays_steady}
use asmc.Compiler.Rounds.{Stays, token_first, less_rest, own_fuel, statement-Stays}

-- The slots below `saved` have names, so that a block may cut the stack back to there.
record Below (n saved : ℕ) (g : Globals) : Type 0 where
  good : Good n g
  named_below : (i : ℕ) → i < saved → 0 < strlen (g.stack_vars i)

still_below :
    {A : Type 0} (n saved : ℕ) (g : Globals) (r : Outcome Globals A)
    → ((i : ℕ) → i < saved → 0 < strlen (g.stack_vars i))
    → Leads slots (Good n) g r
    → Leads slots (Below n saved) g r
still_below n saved g (done a h) b (p, s) =
    (record { good = p; named_below = λ i l. s i (b i l) }, s)
still_below n saved g (stop e) b p = p

stays_below :
    {A : Type 0} {n saved : ℕ} {m : M A}
    → Stays n m
    → Triple slots (Below n saved) (Below n saved) m
stays_below {n} {saved} {m} h =
    triple λ g p. still_below n saved g (m g) p.named_below (Triple-apply slots h g p.good)

cut-Below :
    {n : ℕ} (saved : ℕ)
    → Triple slots
        (Below n saved)
        (Below n saved)
        (modify (λ g. record g { stack_depth = saved; block_depth = g.block_depth - 1 }))
cut-Below saved = triple λ g p. (
  record {
    good = record {
      named = record { symbols_named = p.good.named.symbols_named; vars_named = p.named_below };
      light = p.good.light;
    };
    named_below = p.named_below;
  },
  λ i l. l,
)

inside :
    (m : M (Unit {0})) {n : ℕ} (saved : ℕ)
    → Stays n m
    → Triple slots (Below n saved) (Below n saved) (do
      tok ← get_token
      assert (same tok (codes "{"))
      m
      emit_str (0x81 ∷ 0xc4 ∷ [])
      stack_depth ← gets (λ g. g.stack_depth)
      assert (leb saved stack_depth)
      emit32 (word (4 * (stack_depth - saved)))
      modify (λ g. record g { stack_depth = saved; block_depth = g.block_depth - 1 }))
inside m saved h =
    search
      (
        staying, cut-Below, stays_below, stays_token, stays_steady, emit_rule, emit32_rule,
        emit_str_rule, steady-CompilerPrimitives,
      )
      depth 30

block_with-Stays : (m : M (Unit {0})) {n : ℕ} → Stays n m → Stays n (parse_block_with m)
unfolding parse_block_with
block_with-Stays m {n} h = triple λ g p.
    Leads-weaken slots (Below n g.stack_depth) (Good n) g _ (λ k b. b.good)
      (Triple-apply slots (inside m g.stack_depth h) (record g { block_depth = g.block_depth + 1 })
        (record {
          good = record {
            named = record {
              symbols_named = p.named.symbols_named;
              vars_named = p.named.vars_named;
            };
            light = p.light;
          };
          named_below = p.named.vars_named;
        }))

statements-Stays : (libc : Libc) (fuel n : ℕ) → n < fuel → Stays n (parse_statements libc fuel)
unfolding parse_statements
statements-Stays libc zero n l = absurd (omega arith)
statements-Stays libc (suc fuel) n l = token_first _ λ h p.
    elim (Bool-cases (nonempty h.token_buf)) [
      | inr x ↦ rw x panic-Finished
      | inl x ↦ elim (Bool-cases (same h.token_buf (codes "}"))) [
        | inl e ↦ rw (x, e) (Held-Good n h p, λ i l. l)
        | inr e ↦
            rw (x, e)
              (less_rest n h
                (parse_statement libc (parse_block_with (parse_statements libc fuel)) h.token_buf
                  >> parse_statements libc fuel)
                x p
                λ k q.
                  let rest = statements-Stays libc fuel k (omega arith) in
                  stays_bind
                    (statement-Stays libc (parse_block_with (parse_statements libc fuel))
                      h.token_buf (block_with-Stays (parse_statements libc fuel) rest))
                    (λ _. rest))
      ]
    ]

pub block-Stays : (libc : Libc) {n : ℕ} → Stays n (parse_block libc)
unfolding parse_block
block-Stays libc =
    own_fuel (λ fuel. parse_block_with (parse_statements libc fuel))
      λ fuel k l. block_with-Stays (parse_statements libc fuel) (statements-Stays libc fuel k l)
