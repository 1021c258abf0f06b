-- ===== src/Compiler/Steady.antt =====
-- attic/gstaging.c: the names in the symbol table and on the stack of variables are never empty, and what
-- reads no tokens leaves the input and the token that is given back alone.
use mathlib.Core.Path.{subst}
use asmc.Prelude.{
  ℕ, zero, suc, ◌+◌, ◌-◌, ◌<◌, Bool, List, [], ◌∷◌, ◌≡◌, refl, sym, ◌∙◌, arith, Bool-cases, inl,
  inr, All, All-append, ltb, ◌==◌,
}
use asmc.Cstring.{Bytes, strlen}
use asmc.Run.{modify}
use asmc.Run.Keeps.{StepRelation, Keeps, keeps}
use asmc.Run.Flow.{flow}
use asmc.Run.Ending.{Finished, panic-Finished, fault-Finished}
use asmc.Globals.{Globals, Symbol, emit}
use asmc.Symbols.{set_loc, append_symbol}
use asmc.Symbols.Update.{CanAdd}
use asmc.Symbols.Outcomes.{
  Primitives, add_symbol_wrapper-Ends, add_symbol_placeholder-Ends, fix_symbol_placeholder-Ends,
}
use asmc.Compiler.Stack.{set_slot, push_var, pop_var}
use asmc.Compiler.Expr.{gen_label}
use asmc.Compiler.Kept.{CompilerPrimitives}

abbrev pub HasName : Symbol → Type 0
HasName s = 0 < strlen s.name

pub record Named (g : Globals) : Type 0 where
  pub symbols_named : All HasName g.symbols
  pub vars_named : (i : ℕ) → i < g.stack_depth → 0 < strlen (g.stack_vars i)

-- A slot that has a name has one from then on.
abbrev pub Slots : Globals → Globals → Type 0
Slots g h = (i : ℕ) → 0 < strlen (g.stack_vars i) → 0 < strlen (h.stack_vars i)

pub record Steady (g h : Globals) : Type 0 where
  pub same_input : h.input ≡ g.input
  pub same_back : h.token_given_back ≡ g.token_given_back
  pub same_buf : h.token_buf ≡ g.token_buf
  pub keeps_named : Named g → Named h
  pub keeps_slots : Slots g h

pub Steady-trans : (g h k : Globals) → Steady g h → Steady h k → Steady g k
Steady-trans g h k p q = record {
  same_input = q.same_input ∙ p.same_input;
  same_back = q.same_back ∙ p.same_back;
  same_buf = q.same_buf ∙ p.same_buf;
  keeps_named = λ n. q.keeps_named (p.keeps_named n);
  keeps_slots = λ i l. q.keeps_slots i (p.keeps_slots i l);
}

abbrev pub steady : StepRelation Globals
steady = record {
  Rel = Steady;
  rel_refl = λ g. record {
    same_input = refl;
    same_back = refl;
    same_buf = refl;
    keeps_named = λ n. n;
    keeps_slots = λ i l. l;
  };
  rel_trans = Steady-trans;
  Allowed = Finished;
  panic_allowed = panic-Finished;
}

Steady-append :
    (name : Bytes) (loc arity : ℕ) (g : Globals)
    → CanAdd name g.symbols
    → Steady g (append_symbol name loc arity g)
Steady-append name loc arity g c = record {
  same_input = refl;
  same_back = refl;
  same_buf = refl;
  keeps_named = λ n. record {
    symbols_named = All-append HasName g.symbols _ n.symbols_named (c.nonempty, tt);
    vars_named = n.vars_named;
  };
  keeps_slots = λ i l. l;
}

set_loc-All : (t : List Symbol) (i loc : ℕ) → All HasName t → All HasName (set_loc t i loc)
unfolding set_loc
set_loc-All [] i loc h = h
set_loc-All (s ∷ t) zero loc h = h
set_loc-All (s ∷ t) (suc i) loc (p, h) = (p, set_loc-All t i loc h)

steady-Primitives : Primitives steady
steady-Primitives = record {
  fault_allowed = fault-Finished;
  emit_kept = λ c. keeps λ g.
      unfold emit in
      record {
        same_input = refl;
        same_back = refl;
        same_buf = refl;
        keeps_named = λ n. record { symbols_named = n.symbols_named; vars_named = n.vars_named };
        keeps_slots = λ i l. l;
      };
  wrapper_kept = λ name loc arity. keeps λ g.
      add_symbol_wrapper-Ends (Steady g) Finished panic-Finished name loc arity g
        (steady.rel_refl g) (λ z c. Steady-append name loc arity g c);
  placeholder_kept = λ name arity. keeps λ g.
      add_symbol_placeholder-Ends (Steady g) Finished panic-Finished name arity g
        (steady.rel_refl g) (λ z c. Steady-append name _ arity g c);
  fix_kept = λ name loc arity. keeps λ g.
      fix_symbol_placeholder-Ends (Steady g) Finished panic-Finished name loc arity g
        (λ z c. Steady-append name loc arity g c)
        (λ l e w. record {
          same_input = refl;
          same_back = refl;
          same_buf = refl;
          keeps_named = λ n. record {
            symbols_named = set_loc-All g.symbols _ loc n.symbols_named;
            vars_named = n.vars_named;
          };
          keeps_slots = λ i l. l;
        });
}

-- A step that changes neither the tokens nor the names.
Steady-quiet :
    (g h : Globals)
    → h.input ≡ g.input
    → h.token_given_back ≡ g.token_given_back
    → h.token_buf ≡ g.token_buf
    → h.symbols ≡ g.symbols
    → ((i : ℕ) → i < h.stack_depth → i < g.stack_depth)
    → h.stack_vars ≡ g.stack_vars
    → Steady g h
Steady-quiet g h a b c d e f = record {
  same_input = a;
  same_back = b;
  same_buf = c;
  keeps_named = λ n. record {
    symbols_named = subst (All HasName) (sym d) n.symbols_named;
    vars_named =
        λ i l. subst (λ (v : ℕ → Bytes). 0 < strlen (v i)) (sym f) (n.vars_named i (e i l));
  };
  keeps_slots = λ i l. subst (λ (v : ℕ → Bytes). 0 < strlen (v i)) (sym f) l;
}

modify_rule :
    (f : Globals → Globals)
    → ((g : Globals) → (f g).input ≡ g.input)
    → ((g : Globals) → (f g).token_given_back ≡ g.token_given_back)
    → ((g : Globals) → (f g).token_buf ≡ g.token_buf)
    → ((g : Globals) → (f g).symbols ≡ g.symbols)
    → ((g : Globals) (i : ℕ) → i < (f g).stack_depth → i < g.stack_depth)
    → ((g : Globals) → (f g).stack_vars ≡ g.stack_vars)
    → Keeps steady (modify f)
modify_rule f a b c d e v = keeps (λ g. Steady-quiet g (f g) (a g) (b g) (c g) (d g) (e g) (v g))

same_depth : (g : Globals) (i : ℕ) → i < g.stack_depth → i < g.stack_depth
same_depth g i l = l

less_depth : (g : Globals) (i : ℕ) → i < g.stack_depth - 1 → i < g.stack_depth
less_depth g i l = omega arith

pop_var-Steady : (temp : Bool) → Keeps steady (pop_var temp)
unfolding pop_var
pop_var-Steady temp = search (flow, modify_rule, refl, same_depth, less_depth) depth 30

gen_label-Steady : Keeps steady gen_label
unfolding gen_label
gen_label-Steady = search (flow, modify_rule, refl, same_depth) depth 30

pushed :
    (name : Bytes) (g : Globals)
    → 0 < strlen name
    → Named g
    → (i : ℕ) → i < g.stack_depth + 1
    → 0 < strlen (set_slot g.stack_vars g.stack_depth name i)
pushed name g l n i k = elim (Bool-cases (i == g.stack_depth)) [
  | inl e ↦ rw e l
  | inr e ↦ rw e (n.vars_named i (ground arith))
]

still_named :
    (name : Bytes) (g : Globals)
    → 0 < strlen name
    → (i : ℕ) → 0 < strlen (g.stack_vars i)
    → 0 < strlen (set_slot g.stack_vars g.stack_depth name i)
still_named name g l i k = elim (Bool-cases (i == g.stack_depth)) [
  | inl e ↦ rw e l
  | inr e ↦ rw e k
]

push_var-Steady : (name : Bytes) (temp : Bool) → Keeps steady (push_var name temp)
unfolding push_var
push_var-Steady name temp = keeps λ g. elim (Bool-cases (ltb 0 (strlen name))) [
  | inr p ↦ rw p panic-Finished
  | inl p ↦ elim (Bool-cases (ltb (strlen name) 128)) [
    | inr q ↦ rw (p, q) panic-Finished
    | inl q ↦ elim (Bool-cases (ltb g.stack_depth 1024)) [
      | inr r ↦ rw (p, q, r) panic-Finished
      | inl r ↦
          let named = λ (n : Named g). pushed name g (ground arith) n in
          let slots = still_named name g (ground arith) in
          elim (Bool-cases temp) [
            | inl t ↦
                rw (p, q, r, t)
                  (record {
                    same_input = refl;
                    same_back = refl;
                    same_buf = refl;
                    keeps_named =
                        λ n. record { symbols_named = n.symbols_named; vars_named = named n };
                    keeps_slots = slots;
                  })
            | inr t ↦ elim (Bool-cases (g.temp_depth == 0)) [
              | inr u ↦ rw (p, q, r, t, u) panic-Finished
              | inl u ↦
                  rw (p, q, r, t, u)
                    (record {
                      same_input = refl;
                      same_back = refl;
                      same_buf = refl;
                      keeps_named =
                          λ n. record { symbols_named = n.symbols_named; vars_named = named n };
                      keeps_slots = slots;
                    })
            ]
          ]
    ]
  ]
]

pub steady-CompilerPrimitives : CompilerPrimitives steady
steady-CompilerPrimitives = record {
  primitives = steady-Primitives;
  push_kept = push_var-Steady;
  pop_kept = pop_var-Steady;
  label_kept = gen_label-Steady;
}
