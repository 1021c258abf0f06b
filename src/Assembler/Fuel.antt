-- ===== src/Assembler/Fuel.antt =====
-- attic/staging.c: the loop over the lines ends. Each round of `assemble_lines` reads a byte, but for
-- the last two, so that the fuel of a pass is enough.
use mathlib.Core.Path.{subst}
use asmc.Prelude.{
  ℕ, zero, suc, ◌+◌, ◌<◌, Bool, true, false, ◌&&◌, none, some, List, [], ◌∷◌, ◌≡◌, ◌≢◌, refl, ap,
  ◌∙◌, ◌⊎◌, inl, inr, arith, ◌==◌, if◌then◌else◌, length, Bool-cases, Option-cases,
}
use asmc.Cstring.{Bytes, strlen, trimstr, find_char}
use asmc.Run.{Stop, panic, out_of_fuel, stop, pure, modify, ◌>>◌}
use asmc.Globals.{Globals, Result, M, emit}
use asmc.Run.Keeps.{StepRelation, Ends, keeps, Keeps-apply, Ends-bind}
use asmc.Symbols.Outcomes.{
  Primitives, add_symbol_wrapper-Ends, add_symbol_placeholder-Ends, fix_symbol_placeholder-Ends,
}
use asmc.Assembler.Opcodes.{Row}
use asmc.Assembler.Driver.{
  end_passes, Line, readline, input_buf_len, strip_line, begin_pass, assemble_line, assemble_lines,
  assemble_pass, assemble,
}
use asmc.Assembler.Image.{assemble_line-Keeps}

abbrev Fuelled : Stop → Type 0
Fuelled out_of_fuel = ⊥
Fuelled _ = Unit

-- The input is left where it is, and the fuel does not run out.
abbrev same_input : StepRelation Globals
same_input = record {
  Rel = λ g h. h.input ≡ g.input;
  rel_refl = λ g. refl;
  rel_trans = λ g h k p q. q ∙ p;
  Allowed = Fuelled;
  panic_allowed = tt;
}

same_input-Primitives : Primitives same_input
same_input-Primitives = record {
  fault_allowed = tt;
  emit_kept = λ c. keeps λ g. unfold emit in refl;
  wrapper_kept = λ name loc arity. keeps λ g.
      add_symbol_wrapper-Ends (same_input.Rel g) Fuelled tt name loc arity g refl (λ z c. refl);
  placeholder_kept = λ name arity. keeps λ g.
      add_symbol_placeholder-Ends (same_input.Rel g) Fuelled tt name arity g refl (λ z c. refl);
  fix_kept = λ name loc arity. keeps λ g.
      fix_symbol_placeholder-Ends (same_input.Rel g) Fuelled tt name loc arity g (λ z c. refl)
        (λ l e w. refl);
}

-- What is left after a line: less than before, or nothing at the end of the file.
abbrev Consumes : Bytes → Line → Type 0
Consumes input r =
    ((r.finished ≡ false) × (length r.rest < length input))
    ⊎ ((r.finished ≡ true) × (r.rest ≡ []) × ((r.text ≡ []) ⊎ (0 < length input)))

readline-Consumes :
    (input : Bytes) (len : ℕ) (r : Line) → readline input len ≡ some r → Consumes input r
unfolding readline
readline-Consumes input zero r e = absurd (ground arith)
readline-Consumes [] (suc len) r e = ground arith
readline-Consumes (c ∷ input) (suc len) r e = elim (Option-cases (readline input len)) [
  | inl n ↦ ground arith
  | inr (q, p) ↦ ground (arith, readline-Consumes input len q p)
]

strip_line-nil : strip_line [] ≡ []
unfolding strip_line trimstr find_char
strip_line-nil = refl

strlen-strip_line : (r : Line) → r.text ≡ [] → strlen (strip_line r.text) ≡ 0
strlen-strip_line r e = ap (λ t. strlen (strip_line t)) e ∙ ap strlen strip_line-nil

abbrev HasFuel : {A : Type 0} → Result A → Type 0
HasFuel = Ends (λ h. Unit) Fuelled

-- The rest of a round, once a line is read.
after_read : List Row → ℕ → Line → M (Unit {0})
after_read table fuel read =
    if read.finished && strlen (strip_line read.text) == 0 then pure tt else (do
      if strlen (strip_line read.text) == 0
          then pure tt
          else assemble_line table (strip_line read.text)
      modify (λ g. record g { line = g.line + 1 })
      assemble_lines table fuel)

assemble_lines-suc :
    (table : List Row) (fuel : ℕ) (g : Globals) (r : Line)
    → readline g.input input_buf_len ≡ some r
    → assemble_lines table (suc fuel) g ≡ after_read table fuel r (record g { input = r.rest })
unfolding assemble_lines after_read
assemble_lines-suc table fuel g r e = rw e

assemble_lines_full :
    (table : List Row) (fuel : ℕ) (g : Globals)
    → readline g.input input_buf_len ≡ none
    → assemble_lines table (suc fuel) g ≡ stop panic
unfolding assemble_lines
assemble_lines_full table fuel g e = rw e

line-Ends :
    (table : List Row) (s : Bytes) (b : Bool) (g : Globals)
    → Ends (λ h. h.input ≡ g.input) Fuelled ((if b then pure tt else assemble_line table s) g)
line-Ends table s true g = refl
line-Ends table s false g =
    Keeps-apply same_input (assemble_line-Keeps same_input same_input-Primitives table s) g

after_read-HasFuel :
    (table : List Row) (fuel : ℕ) (r : Line) (g : Globals)
    → ((r.finished && strlen (strip_line r.text) == 0) ≡ false
        → (h : Globals) → h.input ≡ g.input
        → HasFuel (assemble_lines table fuel h))
    → HasFuel (after_read table fuel r g)
unfolding after_read
after_read-HasFuel table fuel r g next =
    elim (Bool-cases (r.finished && strlen (strip_line r.text) == 0)) [
      | inl b ↦ rw b tt
      | inr b ↦ rw b (
          Ends-bind (λ h. h.input ≡ g.input) (λ h. Unit) Fuelled _ _ (line-Ends table _ _ g)
            (λ _ h p. next b (record h { line = h.line + 1 }) p))
    ]

enough :
    (input : Bytes) (r : Line)
    → Consumes input r
    → (r.finished && strlen (strip_line r.text) == 0) ≡ false
    → length r.rest < length input
enough input r (inl (f, h)) b = h
enough input r (inr (f, h, inr k)) b = rw h k
enough input r (inr (f, h, inl k)) b = absurd (ground (arith, strlen-strip_line r k))

assemble_lines-HasFuel :
    (table : List Row) (fuel : ℕ) (g : Globals)
    → length g.input < fuel
    → HasFuel (assemble_lines table fuel g)
assemble_lines-HasFuel table zero g h = absurd (omega arith)
assemble_lines-HasFuel table (suc fuel) g h = elim (Option-cases (readline g.input input_buf_len)) [
  | inl e ↦ rw (assemble_lines_full table fuel g e) tt
  | inr (r, e) ↦ rw (assemble_lines-suc table fuel g r e) (
      after_read-HasFuel table fuel r (record g { input = r.rest })
        (λ b k p. assemble_lines-HasFuel table fuel k (
          omega (
            arith,
            ap (length {A = ℕ}) p,
            enough g.input r (readline-Consumes g.input input_buf_len r e) b,
          ))))
]

-- A run of `assemble` never runs out of fuel, whatever the file holds: both passes end.
pub assemble-terminates :
    (table : List Row) (file : Bytes) (start_loc : ℕ) (g : Globals)
    → assemble table file start_loc g ≢ stop out_of_fuel
unfolding assemble assemble_pass
assemble-terminates table file start_loc g e = subst HasFuel e (
    Ends-bind (λ h. Unit) (λ h. Unit) Fuelled _ _
      (assemble_lines-HasFuel table (length file + 2) (begin_pass file start_loc 0 g) (omega arith))
      (λ _ h p.
        Ends-bind (λ k. Unit) (λ k. Unit) Fuelled _ (λ _. modify end_passes)
          (assemble_lines-HasFuel table (length file + 2) (begin_pass file start_loc 1 h)
            (omega arith))
          (λ _ k q. tt)))
