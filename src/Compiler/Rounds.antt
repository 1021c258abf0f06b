-- ===== src/Compiler/Rounds.antt =====
-- attic/gstaging.c: a loop over tokens has fewer rounds than there is left of the file, in an expression
-- and in the statements of a block.
use asmc.Prelude.{
  ℕ, zero, suc, ◌+◌, ◌<◌, true, ◌≡◌, arith, Bool-cases, inl, inr, length, codes, if◌then◌else◌, ltb,
}
use asmc.Cstring.{Bytes, same}
use asmc.Run.{◌>>=◌, ◌>>◌, gets, assert}
use asmc.Run.Ending.{panic-Finished}
use asmc.Run.Invariant.{
  Leads, Triple, triple, Triple-apply, Triple-bind, Leads-weaken, Leads-after, staying, stays_bind,
  stays_if, stays_panic,
}
use asmc.Globals.{Globals, M, emit}
use asmc.Compiler.Token.{get_token, give_back_token, nonempty}
use asmc.Compiler.Expr.{
  place_label, gen_label, emit_label_rel, Libc, push_token, until_brace, push_expr_until_brace,
}
use asmc.Compiler.Block.{parse_if, parse_while, parse_statement}
use asmc.Compiler.Kept.{
  parsing, emit_rule, emit32_rule, emit_str_rule, place_label-Keeps, push_token-Keeps,
  preamble-Keeps,
}
use asmc.Compiler.Steady.{HasName, Named, steady-CompilerPrimitives}
use asmc.Compiler.Nameless.{empty-panics}
use asmc.Compiler.Measure.{
  slots, Good, Good-own, Good-begin, Held, next, get_token-next, next-Slots, next-Held, Held-Good,
  Held-less, Good-mono, give_back-Triple, get_token-Triple, stays_token, stays_steady, holds_steady,
}

-- A run that leaves what is left of the file at most `n`, when it was.
abbrev pub Stays : ℕ → {A : Type 0} → M A → Type 0
Stays n m = Triple slots (Good n) (Good n) m

-- One token, and what follows it.
pub token_first :
    {A : Type 0} {n : ℕ} (f : Bytes → M A)
    → ((h : Globals) → Held n h → Leads slots (Good n) h (f h.token_buf h))
    → Stays n (get_token >>= f)
token_first {n} f k = triple λ g p. rw (get_token-next g) (
    Leads-after slots (Good n) g (next g) (f (next g).token_buf (next g)) (next-Slots g)
      (k (next g) (next-Held n g p)))

-- A token that is not empty leaves less for the rest.
pub less_rest :
    {A : Type 0} (n : ℕ) (h : Globals) (m : M A)
    → nonempty h.token_buf ≡ true
    → Held n h
    → ((k : ℕ) → n ≡ suc k → Stays k m)
    → Leads slots (Good n) h (m h)
less_rest n h m e p f =
    let (k, q, good) = Held-less n h e p in
    Leads-weaken slots (Good k) (Good n) h (m h) (λ x. Good-mono k n x (omega arith))
      (Triple-apply slots (f k q) h good)

until_brace-Stays : (libc : Libc) (fuel n : ℕ) → n < fuel → Stays n (until_brace libc fuel)
unfolding until_brace
until_brace-Stays libc zero n l = absurd (omega arith)
until_brace-Stays libc (suc fuel) n l = token_first _ λ h p.
    elim (Bool-cases (same h.token_buf (codes "{"))) [
      | inl e ↦ rw e (Triple-apply slots (give_back-Triple n) h p)
      | inr e ↦ elim (Bool-cases (nonempty h.token_buf)) [
        | inr x ↦ rw (e, empty-panics libc h.token_buf h x p.named) panic-Finished
        | inl x ↦ rw e (
            less_rest n h (push_token libc h.token_buf >> until_brace libc fuel) x p λ k q.
              stays_bind
                (stays_steady (push_token-Keeps steady-CompilerPrimitives libc h.token_buf))
                (λ _. until_brace-Stays libc fuel k (omega arith)))
      ]
    ]

-- The fuel is taken from the length of what is left.
pub own_fuel :
    {A : Type 0} (m : ℕ → M A)
    → ((fuel k : ℕ) → k < fuel → Stays k (m fuel))
    → {n : ℕ} → Stays n (gets (λ g. length g.input) >>= λ left. m (left + 3))
own_fuel m f {n} = triple λ g p.
    let (k, l, less, own) = Good-own n g p in
    Leads-weaken slots (Good k) (Good n) g (m (length g.input + 3) g) (λ h. Good-mono k n h l)
      (Triple-apply slots (f (length g.input + 3) k less) g own)

pub push_expr_until_brace-Stays : (libc : Libc) {n : ℕ} → Stays n (push_expr_until_brace libc)
unfolding push_expr_until_brace
push_expr_until_brace-Stays libc {n} =
    own_fuel
      (λ fuel. do
        until_brace libc fuel
        temp_depth ← gets (λ g. g.temp_depth)
        assert (ltb 0 temp_depth))
      λ fuel k l. let body = until_brace-Stays libc fuel k l in search (staying, body) depth 30

pub ruleset steps = (
  staying, stays_token, stays_steady, parsing, steady-CompilerPrimitives,
  push_expr_until_brace-Stays,
)

taken_back : {A : Type 0} {n : ℕ} {m : M A} → Stays n m → Triple slots (Held n) (Good n) m
taken_back {n} h = triple λ g p. Triple-apply slots h g (Held-Good n g p)

-- The token behind the block of an "if".
else-Stays :
    (libc : Libc) {n : ℕ} (lab : ℕ) (block : M (Unit {0}))
    → Stays n block
    → Stays n (do
      else_tok ← get_token
      if same else_tok (codes "else")
          then (do
            fi_lab ← gen_label
            emit 0xe9
            emit_label_rel libc fi_lab
            place_label libc lab
            block
            place_label libc fi_lab)
          else (do place_label libc lab; give_back_token))
else-Stays libc {n} lab block h = Triple-bind slots (get_token-Triple n) λ tok.
    stays_if (same tok (codes "else")) (taken_back (search steps depth 30)) (
      Triple-bind slots (holds_steady (place_label-Keeps steady-CompilerPrimitives libc lab))
        (λ _. give_back-Triple n))

if-Stays :
    (libc : Libc) {n : ℕ} (block : M (Unit {0})) → Stays n block → Stays n (parse_if libc block)
unfolding parse_if
if-Stays libc block h = search (else-Stays, steps) depth 40

while-Stays :
    (libc : Libc) {n : ℕ} (block : M (Unit {0})) → Stays n block → Stays n (parse_while libc block)
unfolding parse_while
while-Stays libc block h = search steps depth 40

pub statement-Stays :
    (libc : Libc) {n : ℕ} (block : M (Unit {0})) (s : Bytes)
    → Stays n block
    → Stays n (parse_statement libc block s)
unfolding parse_statement
statement-Stays libc block s h = search (steps, if-Stays, while-Stays) depth 12
