-- ===== src/Cc/Table.antt =====
-- cc/cc.c: the table of symbols after a run of `main`.
use mathlib.Core.Path.{subst}
use asmc.Prelude.{
  ℕ, ◌≤◌, ◌<◌, some, List, [], ◌∷◌, ◌≡◌, refl, sym, ◌∙◌, inl, inr, arith, length, get_elem?, All,
  All-append, length-append, Bool-cases, ◌==◌,
}
use asmc.Cstring.{Bytes, strlen}
use asmc.Run.{modify, ◌>>◌, Outcome, done, stop}
use asmc.Run.Keeps.{modify-eq-done, Ends, StepRelation, keeps, Ends-done, bind-eq-done}
use asmc.Cc.Names.{equal, equal_refl}
use asmc.Cc.Tables.{max_id_len, max_symbols, Label, CcGlobals, label_idx, add_symbol, emit}
use asmc.Cc.Labels.{
  label_idx-append, add_symbol-done, elem-append, label_idx-append_old, add_symbol-labels,
}
use asmc.Cc.Driver.{end_stages, begin_stage, compile_stage, main}
use asmc.Cc.Kept.{CcPrimitives}
use asmc.Cc.Layout.{stage_kept, fresh}

abbrev FitsLabel : Label → Type 0
FitsLabel s = (0 < strlen s.name) × (strlen s.name < max_id_len)

-- The table has room, every name fits its slot, and a search for the name of a symbol finds that
-- symbol.
pub record CcTable (t : List Label) : Type 0 where
  pub bounded : length t ≤ max_symbols
  pub names_fit : All FitsLabel t
  pub indexed : (i : ℕ) (s : Label) → get_elem? t i ≡ some s → label_idx (equal s.name) t ≡ i

CcTable-nil : CcTable []
CcTable-nil = record {
  bounded = omega arith;
  names_fit = tt;
  indexed = λ i s e. absurd (ground arith);
}

CcTable-append :
    (name : Bytes) (loc : ℕ) (g h : CcGlobals)
    → g.stage ≡ 0
    → add_symbol name loc g ≡ done tt h
    → CcTable g.labels
    → CcTable h.labels
CcTable-append name loc g h z e v =
    let (some_name, short, room, missing, p) = add_symbol-done name loc g h z e in
    let new : Label = record { name = name; loc = loc } in
    subst (λ k. CcTable k.labels) (sym p)
      (record {
        bounded = omega (arith, length-append {0} g.labels (new ∷ []), room);
        names_fit = All-append FitsLabel g.labels (new ∷ []) v.names_fit ((some_name, short), tt);
        indexed = λ i s q. elim (elem-append g.labels new s i q) [
          | inl (old, l) ↦
              label_idx-append_old s.name g.labels (new ∷ []) (omega (arith, v.indexed i s old, l))
              ∙ v.indexed i s old
          | inr (same, last) ↦
              rw (same, last) (label_idx-append (equal name) g.labels new missing (equal_refl name))
        ];
      })

-- Well-formedness of the table, carried from before a step to after it.
abbrev table_kept : StepRelation CcGlobals
table_kept = record {
  Rel = λ g h. CcTable g.labels → CcTable h.labels;
  rel_refl = λ g v. v;
  rel_trans = λ g h k p q v. q (p v);
  Allowed = λ e. Unit;
  panic_allowed = tt;
}

Ends-of :
    (Q : CcGlobals → Type 0) (r : Outcome CcGlobals (Unit {0}))
    → ((h : CcGlobals) → r ≡ done tt h → Q h)
    → Ends Q (λ e. Unit) r
Ends-of Q (done tt h) k = k h refl
Ends-of Q (stop e) k = tt

add_symbol-CcTable :
    (name : Bytes) (loc : ℕ) (g h : CcGlobals)
    → add_symbol name loc g ≡ done tt h
    → CcTable g.labels
    → CcTable h.labels
add_symbol-CcTable name loc g h e v = elim (Bool-cases (g.stage == 0)) [
  | inl z ↦ CcTable-append name loc g h (ground arith) e v
  | inr z ↦ subst CcTable (sym (add_symbol-labels name loc g h (ground arith) e)) v
]

table_kept-CcPrimitives : CcPrimitives table_kept
table_kept-CcPrimitives = record {
  fault_allowed = tt;
  emit_kept = λ x. keeps λ g. unfold emit in λ v. v;
  add_kept = λ name loc. keeps λ g.
      Ends-of (table_kept.Rel g) (add_symbol name loc g) (λ h e. add_symbol-CcTable name loc g h e);
  quiet = λ g h s l o t v. subst CcTable (sym t) v;
}

-- After a run of `main` that ends well the symbols are a `CcTable`: there are at most 1024, every name
-- has between 1 and 127 bytes, and a search for the name of a symbol finds that symbol.
pub main-CcTable :
    (label_text : ℕ → Bytes) (file : Bytes) (g h : CcGlobals)
    → main label_text file g ≡ done tt h
    → CcTable h.labels
unfolding main
main-CcTable label_text file g h e =
    let (_, mid, first, more) =
      bind-eq-done (compile_stage label_text file 0 (fresh label_text file g))
        (λ _. compile_stage label_text file 1 >> modify end_stages) e in
    let (last, second, ended) =
      modify-eq-done (compile_stage label_text file 1 mid) end_stages more in
    let after =
      λ (stage : ℕ) (before end : CcGlobals)
          (q : compile_stage label_text file stage before ≡ done tt end).
        Ends-done (table_kept.Rel (begin_stage stage before)) (λ x. Unit) _ tt end
          (stage_kept label_text file table_kept table_kept-CcPrimitives stage before) q in
    subst (λ k. CcTable k.labels) ended
      (after 1 mid last second (after 0 (fresh label_text file g) mid first CcTable-nil))
