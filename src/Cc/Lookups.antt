-- ===== src/Cc/Lookups.antt =====
-- cc/cc.c: what the searches of the two tables find.
use asmc.Prelude.{
  ℕ, zero, suc, ◌+◌, ◌^◌, ◌<◌, Bool, Option, none, some, [], ◌∷◌, ◌≡◌, refl, sym, ap, ◌∙◌, arith,
  Bool-cases, inl, inr, ◌==◌, if◌then◌else◌, option, length, get_elem?, All, length-append,
}
use asmc.Cstring.{Bytes, IsCstring, strlen}
use asmc.Globals.{loop_count, sub_word}
use asmc.Cc.Names.{equal, strncmp2, strncmp2-equal, equal_refl}
use asmc.Run.{done, stop, panic}
use asmc.Cc.Labels.{label_idx-strncmp2, label_idx-append, get_elem?-last, add_symbol-done}
use asmc.Cc.Tables.{
  max_symbols, put_var, Label, CcGlobals, label_idx, search_labels, find_symbol, find_symbol2,
  loc_at, get_symbol, get_symbol2, append_label, add_symbol, push_var, pop_var, slot_from,
  find_in_stack, find_in_stack2,
}

slot_from-strncmp2 :
    (piece : Bytes) (vars : ℕ → Bytes) (depth : ℕ)
    → ((i : ℕ) → IsCstring (vars i))
    → slot_from (strncmp2 piece) vars depth ≡ slot_from (equal piece) vars depth
unfolding slot_from
slot_from-strncmp2 piece vars zero h = refl
slot_from-strncmp2 piece vars (suc depth) h =
    rw (strncmp2-equal piece (vars depth) (h depth), slot_from-strncmp2 piece vars depth h) refl

get_loc-same :
    (piece : Bytes) (g : CcGlobals)
    → search_labels (strncmp2 piece) g ≡ search_labels (equal piece) g
    → get_symbol2 piece g ≡ get_symbol piece g
unfolding get_symbol get_symbol2
get_loc-same piece g q = elim (Bool-cases (g.stage == 0)) [
  | inl z ↦ rw z refl
  | inr z ↦ elim (Bool-cases (g.stage == 1)) [
    | inl o ↦ rw (z, o) (ap (λ i. loc_at i g) q)
    | inr o ↦ rw (z, o) refl
  ]
]

-- The searches for a piece of the text give what the searches for the same name as a string give,
-- when the names in the tables are C strings.
pub searches-agree :
    (piece : Bytes) (g : CcGlobals)
    → All (λ s. IsCstring s.name) g.labels
    → ((i : ℕ) → IsCstring (g.stack_vars i))
    → (find_symbol2 piece g ≡ find_symbol piece g)
      × (get_symbol2 piece g ≡ get_symbol piece g)
      × (find_in_stack2 piece g ≡ find_in_stack piece g)
unfolding find_symbol find_symbol2 get_symbol get_symbol2 find_in_stack find_in_stack2
searches-agree piece g h k =
    let p = label_idx-strncmp2 piece g.labels h in
    let q : search_labels (strncmp2 piece) g ≡ search_labels (equal piece) g =
      ap (λ i. if i == length g.labels then max_symbols else i) p in
    (q, get_loc-same piece g q, slot_from-strncmp2 piece g.stack_vars (loop_count g.stack_depth) k)

slot_from-same :
    (test : Bytes → Bool) (vars vars' : ℕ → Bytes) (depth : ℕ)
    → ((i : ℕ) → i < depth → vars i ≡ vars' i)
    → slot_from test vars depth ≡ slot_from test vars' depth
unfolding slot_from
slot_from-same test vars vars' zero h = refl
slot_from-same test vars vars' (suc depth) h =
    rw (h depth (omega arith), slot_from-same test vars vars' depth (λ i k. h i (omega (arith, k))))
      refl

abbrev popped_var : CcGlobals → CcGlobals
popped_var g = record g { stack_depth = sub_word g.stack_depth 1 }

push_var-done :
    (var_name : Bytes) (g h : CcGlobals)
    → push_var var_name g ≡ done tt h
    → (g.stack_depth < 1024) × (h ≡ put_var var_name g)
unfolding push_var
push_var-done var_name g h e = ground arith

slot_from-suc :
    (test : Bytes → Bool) (vars : ℕ → Bytes) (depth : ℕ) (v : Bytes) (o : Option ℕ)
    → vars depth ≡ v
    → slot_from test vars depth ≡ o
    → slot_from test vars (suc depth)
      ≡ (if test v then some 0 else option o none (λ i. some (suc i)))
unfolding slot_from
slot_from-suc test vars depth v o e e' = rw (e, e') refl

slots_below :
    (var_name : Bytes) (g : CcGlobals) (i : ℕ)
    → i < g.stack_depth
    → (put_var var_name g).stack_vars i ≡ g.stack_vars i
slots_below var_name g i h = ground arith

slot_on_top :
    (var_name : Bytes) (g : CcGlobals) → (put_var var_name g).stack_vars g.stack_depth ≡ var_name
slot_on_top var_name g = ground arith

rounds_below : (depth : ℕ) → depth < 2 ^ 31 → loop_count depth ≡ depth
rounds_below depth h = ground arith

below_top :
    (var_name name : Bytes) (g : CcGlobals)
    → slot_from (equal name) (put_var var_name g).stack_vars g.stack_depth
      ≡ slot_from (equal name) g.stack_vars g.stack_depth
below_top var_name name g = slot_from-same (equal name) _ _ g.stack_depth (slots_below var_name g)

find_in_stack_lem :
    (name : Bytes) (g : CcGlobals)
    → g.stack_depth < 2 ^ 31
    → find_in_stack name g ≡ slot_from (equal name) g.stack_vars g.stack_depth
unfolding find_in_stack
find_in_stack_lem name g h = ap (slot_from (equal name) g.stack_vars) (rounds_below g.stack_depth h)

-- After `push_var` a search finds the new variable at 0 and every other name one place further from
-- the top, and after the `pop_var` that follows it finds what it found before.
pub find_in_stack-push_var :
    (var_name name : Bytes) (g h : CcGlobals)
    → push_var var_name g ≡ done tt h
    → (find_in_stack name h ≡ (
        if equal name var_name
        then some 0
        else option (find_in_stack name g) none (λ i. some (suc i))))
      × ((k : CcGlobals) × (pop_var h ≡ done tt k) × (find_in_stack name k ≡ find_in_stack name g))
unfolding pop_var
find_in_stack-push_var var_name name g h e =
    let (room, p) = push_var-done var_name g h e in
    let old = find_in_stack_lem name g (omega arith) in
    let depth : g.stack_depth + 1 ≡ suc g.stack_depth = omega arith in
    let popped : sub_word (g.stack_depth + 1) 1 ≡ g.stack_depth = omega arith in
    (
      ap (find_in_stack name) p
          ∙ find_in_stack_lem name (put_var var_name g) (omega arith)
          ∙ ap (slot_from (equal name) (put_var var_name g).stack_vars) depth
          ∙ slot_from-suc (equal name) (put_var var_name g).stack_vars g.stack_depth var_name _
              (slot_on_top var_name g) (below_top var_name name g ∙ sym old),
      (
        popped_var h,
        refl,
        ap (λ k. find_in_stack name (popped_var k)) p
            ∙ find_in_stack_lem name (popped_var (put_var var_name g)) (omega arith)
            ∙ ap (slot_from (equal name) (put_var var_name g).stack_vars) popped
            ∙ below_top var_name name g
            ∙ sym old,
      ),
    )

abbrev pub in_stage_one : CcGlobals → CcGlobals
in_stage_one g = record g { stage = 1 }

added_at :
    (name : Bytes) (loc : ℕ) (g : CcGlobals)
    → length g.labels < 1024
    → label_idx (equal name) g.labels ≡ length g.labels
    → find_symbol name (in_stage_one (append_label name loc g)) ≡ length g.labels
unfolding find_symbol
added_at name loc g room missing =
    let new : Label = record { name = name; loc = loc } in
    let p = label_idx-append (equal name) g.labels new missing (equal_refl name) in
    let l = length-append g.labels (new ∷ []) in ground (arith, p, l)

get_symbol_lem :
    (name : Bytes) (g : CcGlobals) (i loc : ℕ) (s : Label)
    → g.stage ≡ 1
    → find_symbol name g ≡ i
    → i < 1024
    → get_elem? g.labels i ≡ some s
    → s.loc ≡ loc
    → get_symbol name g ≡ done loc g
unfolding get_symbol
get_symbol_lem name g i loc s e f h k l = ground arith

add_symbol_again :
    (name : Bytes) (g : CcGlobals) (i loc : ℕ) (s : Label)
    → g.stage ≡ 1
    → (0 < strlen name) × (strlen name < 128)
    → find_symbol name g ≡ i
    → i < length g.labels
    → get_elem? g.labels i ≡ some s
    → add_symbol name loc g ≡ (if s.loc == loc then done tt g else stop panic)
unfolding add_symbol
add_symbol_again name g i loc s e h f l k = ground arith

-- When stage 0 has added a symbol, in stage 1 a search gives its location, and adding it again is
-- accepted, without a change, exactly at that location.
pub get_symbol-add_symbol :
    (name : Bytes) (loc loc' : ℕ) (g h : CcGlobals)
    → g.stage ≡ 0
    → add_symbol name loc g ≡ done tt h
    → (get_symbol name (in_stage_one h) ≡ done loc (in_stage_one h))
      × (add_symbol name loc' (in_stage_one h)
          ≡ (if loc == loc' then done tt (in_stage_one h) else stop panic))
get_symbol-add_symbol name loc loc' g h s e =
    let (some_name, short, room, missing, p) = add_symbol-done name loc g h s e in
    let new : Label = record { name = name; loc = loc } in
    let f = added_at name loc g room missing in
    let last = get_elem?-last g.labels new in
    let l = length-append g.labels (new ∷ []) in
    let k = in_stage_one (append_label name loc g) in
    (
      ap (λ m. get_symbol name (in_stage_one m)) p
          ∙ get_symbol_lem name k (length g.labels) loc new refl f room last refl
          ∙ ap (λ m. done loc (in_stage_one m)) (sym p),
      ap (λ m. add_symbol name loc' (in_stage_one m)) p
          ∙ add_symbol_again name k (length g.labels) loc' new refl (some_name, short) f
              (omega (arith, l)) last
          ∙ ap (λ m. if loc == loc' then done tt (in_stage_one m) else stop panic) (sym p),
    )
