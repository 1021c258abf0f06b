-- ===== src/Compiler/Sequence.antt =====
-- attic/gstaging.c: code that is emitted piece by piece runs piece by piece.
use mathlib.Core.List.{append-nil, append_assoc}
use asmc.Prelude.{ℕ, zero, suc, [], ◌++◌, ◌≡◌, refl, ap, sym, ◌∙◌, Bool-cases, inl, inr}
use asmc.Cstring.{Bytes}
use asmc.Run.{done}
use asmc.Globals.{Globals, Result}
use asmc.Compiler.Measure.{next}
use asmc.Compiler.Machine.{Machine, Functions, further, run}
use asmc.Compiler.Execution.{Matches}

pub next-stage : (g : Globals) → (next g).stage ≡ g.stage
next-stage g = elim (Bool-cases g.token_given_back) [ inl e ↦ rw e refl | inr e ↦ rw e refl ]

pub next-output : (g : Globals) → (next g).output ≡ g.output
next-output g = elim (Bool-cases g.token_given_back) [ inl e ↦ rw e refl | inr e ↦ rw e refl ]

pub next-current_loc : (g : Globals) → (next g).current_loc ≡ g.current_loc
next-current_loc g = elim (Bool-cases g.token_given_back) [ inl e ↦ rw e refl | inr e ↦ rw e refl ]

next-stack_depth : (g : Globals) → (next g).stack_depth ≡ g.stack_depth
next-stack_depth g = elim (Bool-cases g.token_given_back) [ inl e ↦ rw e refl | inr e ↦ rw e refl ]

pub next-Matches : (g : Globals) (m : Machine) → Matches g m → Matches (next g) m
next-Matches g m s = record {
  here = s.here ∙ sym (next-current_loc g);
  deep = s.deep ∙ sym (next-stack_depth g);
}

further-further : (a b fuel : ℕ) → further (further a b) fuel ≡ further a (further b fuel)
further-further zero b fuel = refl
further-further (suc a) b fuel = ap suc (further-further a b fuel)

module _ (functions : Functions) where
  -- A run of the compiler that ends well, and what becomes of the machine when the code runs: whatever
  -- stands behind the code, it is reached after `steps` instructions, in a machine that matches the
  -- globals and satisfies `Ending`.
  pub record Translates (Ending : Machine → Type 0) (g : Globals) (m : Machine)
      (r : Result (Unit {0})) : Type 0 where
    pub after : Globals
    pub final : Machine
    pub code : Bytes
    pub steps : ℕ
    pub ends : r ≡ done tt after
    pub written : after.output ≡ g.output ++ code
    pub runs :
        (fuel : ℕ) (t : Bytes)
        → run functions (further steps fuel) (code ++ t) m ≡ run functions fuel t final
    pub reaches : Ending final
    pub matches : Matches after final

  -- A run that emits nothing.
  pub silent :
      (Ending : Machine → Type 0) (g h : Globals) (m : Machine) (r : Result (Unit {0}))
      → r ≡ done tt h
      → h.output ≡ g.output
      → Matches h m
      → Ending m
      → Translates Ending g m r
  silent Ending g h m r e o s p = record {
    after = h;
    final = m;
    code = [];
    steps = 0;
    ends = e;
    written = o ∙ sym (append-nil g.output);
    runs = λ fuel t. refl;
    reaches = p;
    matches = s;
  }

  -- A piece of code, and the rest behind it.
  pub prepend :
      (Ending Rest : Machine → Type 0) (g h : Globals) (m n : Machine) (r q : Result (Unit {0}))
      (code : Bytes) (steps : ℕ)
      → r ≡ q
      → h.output ≡ g.output ++ code
      → ((fuel : ℕ) (t : Bytes)
          → run functions (further steps fuel) (code ++ t) m ≡ run functions fuel t n)
      → ((k : Machine) → Rest k → Ending k)
      → Translates Rest h n q
      → Translates Ending g m r
  prepend Ending Rest g h m n r q code steps e o first w rest = record {
    after = rest.after;
    final = rest.final;
    code = code ++ rest.code;
    steps = further steps rest.steps;
    ends = e ∙ rest.ends;
    written = rest.written ∙ ap (λ x. x ++ rest.code) o ∙ append_assoc g.output code rest.code;
    runs = λ fuel t.
        rw (further-further steps rest.steps fuel, append_assoc code rest.code t)
          (first (further rest.steps fuel) (rest.code ++ t) ∙ rest.runs fuel t);
    reaches = w rest.final rest.reaches;
    matches = rest.matches;
  }
