-- ===== src/Compiler/Pushes.antt =====
-- attic/gstaging.c: the code that is emitted for each kind of operand, and the globals behind it.
use asmc.Prelude.{
  ℕ, zero, suc, ◌+◌, ◌-◌, ◌*◌, ◌^◌, ◌<◌, ◌≤◌, Bool, true, false, [], ◌∷◌, ◌++◌, ◌≡◌, refl, ap, sym,
  ◌∙◌, arith, ltb, if◌then◌else◌,
}
use asmc.Cstring.{Bytes}
use asmc.Run.{done, ◌>>◌, repeat}
use asmc.Globals.{Globals, word, sub_word, loop_count, emit, emit32, emit_str}
use asmc.Globals.Emit.{emitted, le_bytes, emit_str_lem, emit_lem, emit32-le_bytes, emitted-append}
use asmc.Compiler.Stack.{set_slot, push_var, pop_var}
use asmc.Compiler.Expr.{temp_var, compute_rel, push_immediate, push_call, push_stack_var}
use asmc.Compiler.Codes.{immediate_code, slot_code, address_code, load_code, call_code}

-- The globals after a temporary is pushed.
abbrev pub with_temp : Globals → Globals
with_temp g = record g {
  stack_vars = set_slot g.stack_vars g.stack_depth temp_var;
  stack_depth = g.stack_depth + 1;
  temp_depth = g.temp_depth + 1;
}

push_temp : (g : Globals) → g.stack_depth < 1024 → push_var temp_var true g ≡ done tt (with_temp g)
unfolding push_var
push_temp g l = let room : ltb g.stack_depth 1024 ≡ true = ground arith in rw room refl

-- The globals after pops of temporaries.
abbrev pub popped : ℕ → Globals → Globals
popped n g = record g { stack_depth = g.stack_depth - n; temp_depth = g.temp_depth - n }

pub pop_temp :
    (g : Globals) → 0 < g.temp_depth → 0 < g.stack_depth → pop_var true g ≡ done tt (popped 1 g)
unfolding pop_var
pop_temp g t d =
    let has_temp : ltb 0 g.temp_depth ≡ true = ground arith in
    let has_slot : ltb 0 g.stack_depth ≡ true = ground arith in rw (has_slot, has_temp) refl

pub popped_zero : (g : Globals) → popped 0 g ≡ g
popped_zero g =
    let same_temps : g.temp_depth - 0 ≡ g.temp_depth = omega arith in
    let same_depth : g.stack_depth - 0 ≡ g.stack_depth = omega arith in
    rw (same_temps, same_depth) refl

pub popped-popped : (n : ℕ) (g : Globals) → popped n (popped 1 g) ≡ popped (suc n) g
popped-popped n g =
    let temps : g.temp_depth - 1 - n ≡ g.temp_depth - suc n = omega arith in
    let depth : g.stack_depth - 1 - n ≡ g.stack_depth - suc n = omega arith in
    rw (temps, depth) refl

pop_all :
    (n : ℕ) (g : Globals)
    → n ≤ g.temp_depth
    → n ≤ g.stack_depth
    → repeat n (pop_var true) g ≡ done tt (popped n g)
unfolding repeat
pop_all zero g t d = ap (done tt) (sym (popped_zero g))
pop_all (suc n) g t d =
    rw (pop_temp g (omega arith) (omega arith), pop_all n (popped 1 g) (omega arith) (omega arith))
      (ap (done tt) (popped-popped n g))

pub push_immediate-done :
    (val : ℕ) (g : Globals)
    → g.stack_depth < 1024
    → g.current_loc < 2 ^ 32
    → push_immediate val g ≡ done tt (emitted (immediate_code val) (with_temp g))
unfolding push_immediate emit emit32 emit_str
push_immediate-done val g l b =
    rw (push_temp g l) (emit_str_lem (immediate_code val) (with_temp g) b)

pub push_stack_var-done :
    (pos : ℕ) (want_addr : Bool) (g : Globals)
    → g.stack_depth < 1024
    → g.current_loc < 2 ^ 32
    → push_stack_var pos want_addr g
      ≡ done tt (emitted (if want_addr then address_code pos else slot_code pos) (with_temp g))
unfolding push_stack_var emit emit32 emit_str
push_stack_var-done pos true g l b =
    rw (push_temp g l) (emit_str_lem (address_code pos) (with_temp g) b)
push_stack_var-done pos false g l b =
    rw (push_temp g l) (emit_str_lem (slot_code pos) (with_temp g) b)

-- The relative address in the call of a function at `loc`.
abbrev pub call_rel : ℕ → Globals → ℕ
call_rel loc g = sub_word (sub_word loc (word (g.current_loc + 1))) 4

joined :
    (s t u v w : Bytes) (g : Globals)
    → emitted w (emitted v (emitted u (emitted t (emitted s g))))
      ≡ emitted ((((s ++ t) ++ u) ++ v) ++ w) g
joined s t u v w g =
    ap (λ x. emitted w (emitted v (emitted u x))) (emitted-append s t g)
    ∙ ap (λ x. emitted w (emitted v x)) (emitted-append (s ++ t) u g)
    ∙ ap (emitted w) (emitted-append ((s ++ t) ++ u) v g)
    ∙ emitted-append (((s ++ t) ++ u) ++ v) w g

pub push_call-done :
    (loc arity : ℕ) (g : Globals)
    → arity < 1024
    → arity ≤ g.temp_depth
    → arity ≤ g.stack_depth
    → g.stack_depth - arity < 1024
    → g.current_loc < 2 ^ 32
    → push_call loc arity g
      ≡ done tt (emitted (call_code (call_rel loc g) arity) (with_temp (popped arity g)))
unfolding push_call compute_rel
push_call-done loc arity g a t d l b =
    let rounds : loop_count arity ≡ arity = ground arith in
    let rel = call_rel loc g in
    let g1 = emitted (0xe8 ∷ []) g in
    let g2 = emitted (le_bytes rel) g1 in
    let g3 = emitted (0x81 ∷ 0xc4 ∷ []) g2 in
    let g4 = emitted (le_bytes (word (4 * arity))) g3 in
    rw
      (
        rounds,
        emit_lem 0xe8 g,
        emit32-le_bytes rel g1 (omega arith),
        emit_str_lem (0x81 ∷ 0xc4 ∷ []) g2 (omega arith),
        emit32-le_bytes (word (4 * arity)) g3 (omega arith),
        pop_all arity g4 t d,
        push_temp (popped arity g4) l,
        emit_lem 0x50 (with_temp (popped arity g4)),
      )
      (ap (done tt) (
        joined (0xe8 ∷ []) (le_bytes rel) (0x81 ∷ 0xc4 ∷ []) (le_bytes (word (4 * arity)))
          (0x50 ∷ []) (with_temp (popped arity g))))

pub load-done :
    (loc : ℕ) (g : Globals)
    → g.stack_depth < 1024
    → g.current_loc < 2 ^ 32
    → (do push_var temp_var true; emit 0xb8; emit32 loc; emit_str (0xff ∷ 0x30 ∷ [])) g
      ≡ done tt (emitted (load_code loc) (with_temp g))
unfolding emit emit32 emit_str
load-done loc g l b = rw (push_temp g l) (emit_str_lem (load_code loc) (with_temp g) b)
