-- ===== src/Cc/Layout.antt =====
-- cc/cc.c: how a run moves through the output, as for the other compiler, and that no loop of it runs
-- out of fuel.
use mathlib.Core.List.{append-nil, append_assoc}
use mathlib.Core.Path.{subst}
use asmc.Prelude.{
  ℕ, Bool, true, false, Option, none, some, ◌+◌, [], ◌∷◌, ◌++◌, ◌≡◌, ◌≢◌, inl, inr, refl, ap, ◌∙◌,
  arith, length, if◌then◌else◌, ◌==◌, length-append, ltb, Bool-cases, get_elem?, option,
}
use asmc.Cstring.{Bytes, strlen}
use asmc.Run.{fault, out_of_fuel, done, stop, modify, halt, ◌>>◌, ◌>>=◌, assert, gets}
use asmc.Run.Keeps.{
  modify-eq-done, Ends, StepRelation, Keeps, keeps, Keeps-apply, Ends-done, Ends-bind, bind-eq-done,
}
use asmc.Run.Flow.{flow}
use asmc.Run.Ending.{Finished, ending, modify-ending, fault-ending, fault-Finished, Ends-Finished}
use asmc.Globals.{word}
use asmc.Cc.Tables.{CcGlobals, C, add_symbol, append_label, find_symbol, emit, Label}
use asmc.Cc.Driver.{end_stages, start_loc, begin_stage, compile_stage, main}
use asmc.Cc.Kept.{CcPrimitives}
use asmc.Cc.Kept.Programs.{stage_body-Keeps}

add_symbol_ends : (name : Bytes) (loc : ℕ) → Keeps ending (add_symbol name loc)
unfolding add_symbol
add_symbol_ends name loc = search (flow, modify-ending, fault-ending) depth 30

emit_ends : (x : ℕ) → Keeps ending (emit x)
unfolding emit
emit_ends x = keeps (λ g. tt)

ending-CcPrimitives : CcPrimitives ending
ending-CcPrimitives = record {
  fault_allowed = fault-Finished;
  emit_kept = emit_ends;
  add_kept = add_symbol_ends;
  quiet = λ g h s l o t. tt;
}

pub record CcLays (g h : CcGlobals) : Type 0 where
  pub chunk : Bytes
  pub same_stage : h.stage ≡ g.stage
  pub counted : word h.current_loc ≡ word (g.current_loc + length chunk)
  pub written : h.output ≡ (if g.stage == 1 then g.output ++ chunk else g.output)
  pub same_labels : g.stage ≡ 1 → h.labels ≡ g.labels

CcLays-refl : (g : CcGlobals) → CcLays g g
CcLays-refl g = record {
  chunk = [];
  same_stage = refl;
  counted = omega arith;
  written = ground (arith, append-nil g.output);
  same_labels = λ _. refl;
}

CcLays_quiet :
    (g h : CcGlobals)
    → h.stage ≡ g.stage
    → h.current_loc ≡ g.current_loc
    → h.output ≡ g.output
    → (g.stage ≡ 1 → h.labels ≡ g.labels)
    → CcLays g h
unfolding CcLays-refl
CcLays_quiet g h s l o t = record {
  chunk = [];
  same_stage = s;
  counted = rw l (omega arith);
  written = o ∙ (CcLays-refl g).written;
  same_labels = t;
}

CcLays-trans : (g h k : CcGlobals) → CcLays g h → CcLays h k → CcLays g k
CcLays-trans g h k p q = record {
  chunk = p.chunk ++ q.chunk;
  same_stage = q.same_stage ∙ p.same_stage;
  counted = omega (arith, length-append {0} p.chunk q.chunk, p.counted, q.counted);
  written = ground (arith, append_assoc g.output p.chunk q.chunk);
  same_labels = λ e. q.same_labels (p.same_stage ∙ e) ∙ p.same_labels e;
}

abbrev cc_layout : StepRelation CcGlobals
cc_layout = record {
  Rel = CcLays;
  rel_refl = CcLays-refl;
  rel_trans = CcLays-trans;
  Allowed = λ e. Unit;
  panic_allowed = tt;
}

emit_lays : (x : ℕ) → Keeps cc_layout (emit x)
unfolding emit
emit_lays x = keeps λ g. record {
  chunk = x ∷ [];
  same_stage = refl;
  counted = omega arith;
  written = refl;
  same_labels = λ _. refl;
}

-- In stage 0 the symbol may be appended; in stage 1 nothing changes.
assert_Ends :
    (Q : CcGlobals → Type 0) (b : Bool) (m : C (Unit {0})) (g : CcGlobals)
    → Ends Q (λ e. Unit) (m g)
    → Ends Q (λ e. Unit) ((assert b >> m) g)
assert_Ends Q true m g h = h
assert_Ends Q false m g h = tt

last_Ends :
    (Q : CcGlobals → Type 0) (b : Bool) (g : CcGlobals) → Q g → Ends Q (λ e. Unit) (assert b g)
last_Ends Q true g h = h
last_Ends Q false g h = tt

found_Ends :
    (Q : CcGlobals → Type 0) (loc : ℕ) (label : Option Label) (g : CcGlobals)
    → Q g
    → Ends Q (λ e. Unit) (option label (halt fault) (λ s. assert (s.loc == loc)) g)
found_Ends Q loc none g h = tt
found_Ends Q loc (some s) g h = last_Ends Q (s.loc == loc) g h

abbrev check_loc : Bytes → ℕ → CcGlobals → C (Unit {0})
check_loc name loc g = do
  label ← gets (λ k. get_elem? k.labels (find_symbol name g))
  option label (halt fault) (λ s. assert (s.loc == loc))

add_symbol_lays : (name : Bytes) (loc : ℕ) → Keeps cc_layout (add_symbol name loc)
unfolding add_symbol
add_symbol_lays name loc = keeps λ g. assert_Ends (CcLays g) (ltb 0 (strlen name)) _ g (
    assert_Ends (CcLays g) (ltb (strlen name) 128) _ g (elim (Bool-cases (g.stage == 0)) [
      | inl z ↦ rw z (
          assert_Ends (CcLays g) (find_symbol name g == 1024)
            (assert (ltb (length g.labels) 1024) >> modify (append_label name loc)) g
            (assert_Ends (CcLays g) (ltb (length g.labels) 1024) (modify (append_label name loc)) g
              (CcLays_quiet g (append_label name loc g) refl refl refl
                (λ o. absurd (ground arith)))))
      | inr z ↦ elim (Bool-cases (g.stage == 1)) [
        | inl o ↦
            rw (z, o)
              (assert_Ends (CcLays g) (ltb (find_symbol name g) (length g.labels))
                (check_loc name loc g) g
                (found_Ends (CcLays g) loc (get_elem? g.labels (find_symbol name g)) g
                  (CcLays-refl g)))
        | inr o ↦ rw (z, o) tt
      ]
    ]))

cc_layout-CcPrimitives : CcPrimitives cc_layout
cc_layout-CcPrimitives = record {
  fault_allowed = tt;
  emit_kept = emit_lays;
  add_kept = add_symbol_lays;
  quiet = λ g h s l o t. CcLays_quiet g h s l o (λ _. t);
}

module _ (label_text : ℕ → Bytes) (file : Bytes) where
  pub stage_kept :
      (S : StepRelation CcGlobals) (P : CcPrimitives S) (stage : ℕ) (g : CcGlobals)
      → Ends (S.Rel (begin_stage stage g)) S.Allowed (compile_stage label_text file stage g)
  unfolding compile_stage
  stage_kept S P stage g = Keeps-apply S (stage_body-Keeps P label_text file) (begin_stage stage g)

  abbrev pub fresh : CcGlobals → CcGlobals
  fresh g = record g { labels = [] }

  -- `main` ends on every file: it never runs out of fuel.
  pub main-terminates : (g : CcGlobals) → main label_text file g ≢ stop out_of_fuel
  unfolding main
  main-terminates g e =
      Ends-Finished (λ _. Unit) (main label_text file g)
        (Ends-bind (λ h. Unit) (λ h. Unit) Finished (compile_stage label_text file 0 (fresh g))
          (λ _. compile_stage label_text file 1 >> modify end_stages)
          (stage_kept ending ending-CcPrimitives 0 (fresh g))
          (λ _ h p.
            Ends-bind (λ k. Unit) (λ k. Unit) Finished (compile_stage label_text file 1 h)
              (λ _. modify end_stages) (stage_kept ending ending-CcPrimitives 1 h) (λ _ k q. tt)))
        e

  -- The result of a run of `main` that ends well. `mid` is the state between the stages, `image` the
  -- output.
  pub record CcImage (g h : CcGlobals) : Type 0 where
    pub mid : CcGlobals
    pub image : Bytes
    pub first_stage : compile_stage label_text file 0 (record g { labels = [] }) ≡ done tt mid
    pub first_silent : mid.output ≡ g.output
    pub written : h.output ≡ g.output ++ image
    pub located : word h.current_loc ≡ word (start_loc + length image)
    pub settled : h.labels ≡ mid.labels

  -- A run of `main` that ends well is a `CcImage`: the first stage writes nothing, the second leaves
  -- the symbols as the first made them, and the location has moved by the length of the output.
  pub main-CcImage : (g h : CcGlobals) → main label_text file g ≡ done tt h → CcImage g h
  unfolding main
  main-CcImage g h e =
      let (_, mid, first, more) =
        bind-eq-done (compile_stage label_text file 0 (fresh g))
          (λ _. compile_stage label_text file 1 >> modify end_stages) e in
      let (last, second, ended) =
        modify-eq-done (compile_stage label_text file 1 mid) end_stages more in
      let p =
        Ends-done (CcLays (begin_stage 0 (fresh g))) (λ x. Unit) _ tt mid
          (stage_kept cc_layout cc_layout-CcPrimitives 0 (fresh g)) first in
      let q =
        Ends-done (CcLays (begin_stage 1 mid)) (λ x. Unit) _ tt last
          (stage_kept cc_layout cc_layout-CcPrimitives 1 mid) second in
      subst (CcImage g) ended (record {
        mid = mid;
        image = q.chunk;
        first_stage = first;
        first_silent = p.written;
        written = q.written ∙ ap (λ t. t ++ q.chunk) p.written;
        located = q.counted;
        settled = q.same_labels refl;
      })
