-- ===== src/Globals/Layout.antt =====
-- How a step moves through the output: the location counts the bytes of a chunk, which stage 1 also
-- writes, and stage 1 leaves the symbol table alone.
use mathlib.Core.List.{append-nil, append_assoc}
use asmc.Prelude.{
  ℕ, ◌+◌, [], ◌∷◌, ◌++◌, ◌≡◌, refl, ◌∙◌, arith, length, if◌then◌else◌, ◌==◌, length-append,
}
use asmc.Cstring.{Bytes}
use asmc.Globals.{Globals, word, emit, emit32, emit_str}
use asmc.Run.Keeps.{StepRelation, Keeps, keeps, Keeps-pure, Keeps-bind}

pub record Lays (g h : Globals) : Type 0 where
  pub chunk : Bytes
  pub same_stage : h.stage ≡ g.stage
  pub counted : word h.current_loc ≡ word (g.current_loc + length chunk)
  pub written : h.output ≡ (if g.stage == 1 then g.output ++ chunk else g.output)
  pub same_symbols : g.stage ≡ 1 → h.symbols ≡ g.symbols

pub Lays_refl : (g : Globals) → Lays g g
Lays_refl g = record {
  chunk = [];
  same_stage = refl;
  counted = omega arith;
  written = ground (arith, append-nil g.output);
  same_symbols = λ _. refl;
}

pub Lays_quiet :
    (g h : Globals)
    → h.stage ≡ g.stage
    → h.current_loc ≡ g.current_loc
    → h.output ≡ g.output
    → (g.stage ≡ 1 → h.symbols ≡ g.symbols)
    → Lays g h
unfolding Lays_refl
Lays_quiet g h s l o t = record {
  chunk = [];
  same_stage = s;
  counted = rw l (omega arith);
  written = o ∙ (Lays_refl g).written;
  same_symbols = t;
}

pub Lays_trans : (g h k : Globals) → Lays g h → Lays h k → Lays g k
Lays_trans g h k p q = record {
  chunk = p.chunk ++ q.chunk;
  same_stage = q.same_stage ∙ p.same_stage;
  counted = omega (arith, length-append {0} p.chunk q.chunk, p.counted, q.counted);
  written = ground (arith, append_assoc g.output p.chunk q.chunk);
  same_symbols = λ e. q.same_symbols (p.same_stage ∙ e) ∙ p.same_symbols e;
}

abbrev pub layout : StepRelation Globals
layout = record {
  Rel = Lays;
  rel_refl = Lays_refl;
  rel_trans = Lays_trans;
  Allowed = λ e. Unit;
  panic_allowed = tt;
}

pub layout-emit : (c : ℕ) → Keeps layout (emit c)
unfolding emit
layout-emit c = keeps λ g. record {
  chunk = c ∷ [];
  same_stage = refl;
  counted = omega arith;
  written = refl;
  same_symbols = λ _. refl;
}

pub layout-emit_str : (s : Bytes) → Keeps layout (emit_str s)
unfolding emit_str
layout-emit_str [] = Keeps-pure layout tt
layout-emit_str (c ∷ s) = Keeps-bind layout (layout-emit c) (λ _. layout-emit_str s)

pub layout-emit32 : (x : ℕ) → Keeps layout (emit32 x)
unfolding emit32
layout-emit32 x = search (layout-emit, Keeps-bind layout)
