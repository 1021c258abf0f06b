-- ===== src/Compiler/Nameless.antt =====
-- attic/gstaging.c: the empty token, which `get_token2` returns at the end of the file, is no operand.
use asmc.Prelude.{
  ℕ, zero, suc, ◌<◌, true, false, none, List, [], ◌∷◌, ◌≡◌, refl, arith, All, Bool-cases, inl, inr,
  length, ◌==◌,
}
use asmc.Cstring.{Bytes, strlen, same, strcmp}
use asmc.Run.{stop, panic}
use asmc.Globals.{Globals, Symbol}
use asmc.Symbols.{find_symbol, get_symbol_idx}
use asmc.Numbers.{decode_number}
use asmc.Compiler.Stack.{find_from, find_in_stack}
use asmc.Compiler.Token.{decode_number_or_char, nonempty}
use asmc.Compiler.Expr.{Libc, get_symbol, push_symbol, push_token}
use asmc.Compiler.Steady.{HasName, Named}

unlike_name : (name : Bytes) → 0 < strlen name → same [] name ≡ false
unfolding strcmp
unlike_name [] h = absurd (omega arith)
unlike_name (c ∷ s) h = ground arith

no_symbol : (t : List Symbol) → All HasName t → get_symbol_idx [] t ≡ length t
unfolding get_symbol_idx
no_symbol [] h = refl
no_symbol (s ∷ t) (p, h) = rw (unlike_name s.name p, no_symbol t h) refl

no_var :
    (vars : ℕ → Bytes) (depth : ℕ)
    → ((i : ℕ) → i < depth → 0 < strlen (vars i))
    → find_from vars [] depth ≡ none
unfolding find_from
no_var vars zero h = refl
no_var vars (suc depth) h =
    let rest = no_var vars depth (λ i l. h i (omega arith)) in
    rw (unlike_name (vars depth) (h depth (omega arith)), rest) refl

abbrev nowhere : (g : Globals) → Named g → find_in_stack [] g ≡ none
nowhere g n = unfold find_in_stack in no_var g.stack_vars g.stack_depth n.vars_named

missing : (t : List Symbol) → All HasName t → find_symbol [] t ≡ none
unfolding find_symbol
missing t h = rw (no_symbol t h) (ground arith)

unknown : (g : Globals) → Named g → get_symbol [] true g ≡ stop panic
unfolding get_symbol
unknown g n = elim (Bool-cases (g.stage == 1)) [
  | inl e ↦ rw (e, missing g.symbols n.symbols_named) refl
  | inr e ↦ rw (e, missing g.symbols n.symbols_named) refl
]

no_operand : (libc : Libc) (g : Globals) → Named g → push_token libc [] g ≡ stop panic
unfolding push_token decode_number_or_char decode_number push_symbol
no_operand libc g n = rw (nowhere g n, unknown g n) refl

pub empty-panics :
    (libc : Libc) (s : Bytes) (g : Globals)
    → nonempty s ≡ false
    → Named g
    → push_token libc s g ≡ stop panic
empty-panics libc [] g e n = no_operand libc g n
empty-panics libc (c ∷ s) g e n = absurd (ground arith)
