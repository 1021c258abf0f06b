-- ===== src/Compiler/Stack/View.antt =====
-- attic/gstaging.c: the stack of variables as a list of names, the top first, and the abstract stack
-- that its operations implement.
use asmc.Prelude.{
  ℕ, zero, suc, ◌+◌, ◌-◌, ◌≤◌, Bool, true, false, ◌&&◌, ◌||◌, Option, none, some, List, [], ◌∷◌,
  ◌≡◌, refl, ap, arith, ltb, ◌==◌, if◌then◌else◌, option, length, Bool-cases, inl, inr,
}
use asmc.Cstring.{Bytes, same, strlen}
use asmc.Run.{done, stop, panic}
use asmc.Globals.{Globals, M, Result}
use asmc.Compiler.Stack.{
  max_token_len, stack_len, set_slot, push_var, pop_var, find_from, find_in_stack,
}

-- The names, and how many of them are temporaries.
pub record Stack : Type 0 where
  pub names : List Bytes
  pub temps : ℕ

abbrev names_of : (ℕ → Bytes) → ℕ → List Bytes
names_of vars zero = []
names_of vars (suc depth) = vars depth ∷ names_of vars depth

abbrev pub view : Globals → Stack
view g = record { names = names_of g.stack_vars g.stack_depth; temps = g.temp_depth }

-- A push is refused for a name that does not fit, for want of room, and for a variable above a
-- temporary.
abbrev pub push : Bytes → Bool → Stack → Option Stack
push name temp s =
    if (ltb 0 (strlen name) && ltb (strlen name) max_token_len)
      && (ltb (length s.names) stack_len && (temp || s.temps == 0))
    then some (record { names = name ∷ s.names; temps = if temp then s.temps + 1 else s.temps })
    else none

abbrev pop_from : Bool → List Bytes → ℕ → Option Stack
pop_from temp [] temps = none
pop_from temp (name ∷ names) temps =
    if temp
    then (if temps == 0 then none else some (record { names = names; temps = temps - 1 }))
    else some (record { names = names; temps = temps })

abbrev pub pop : Bool → Stack → Option Stack
pop temp s = pop_from temp s.names s.temps

-- The first place of a name, from the top.
abbrev pub position : Bytes → List Bytes → Option ℕ
position name [] = none
position name (x ∷ names) =
    if same name x then some 0 else option (position name names) none (λ i. some (suc i))

-- A run does what an operation of the abstract stack does: it panics where that is refused, and ends
-- in globals with that stack otherwise.
abbrev Follows : Option Stack → Result (Unit {0}) → Type 0
Follows none r = r ≡ stop panic
Follows (some s) r = (h : Globals) × (r ≡ done tt h) × (view h ≡ s)

abbrev pub Implements : M (Unit {0}) → (Stack → Option Stack) → Type 0
Implements m f = (g : Globals) → Follows (f (view g)) (m g)

names_of-set_slot :
    (vars : ℕ → Bytes) (slot depth : ℕ) (name : Bytes)
    → depth ≤ slot
    → names_of (set_slot vars slot name) depth ≡ names_of vars depth
names_of-set_slot vars slot zero name l = refl
names_of-set_slot vars slot (suc depth) name l =
    let e : (depth == slot) ≡ false = ground arith in
    rw (e, names_of-set_slot vars slot depth name (omega arith)) refl

length-names_of : (vars : ℕ → Bytes) (depth : ℕ) → length (names_of vars depth) ≡ depth
length-names_of vars zero = refl
length-names_of vars (suc depth) = ap suc (length-names_of vars depth)

position-names_of :
    (vars : ℕ → Bytes) (name : Bytes) (depth : ℕ)
    → find_from vars name depth ≡ position name (names_of vars depth)
unfolding find_from
position-names_of vars name zero = refl
position-names_of vars name (suc depth) = rw (position-names_of vars name depth) refl

pushed :
    (vars : ℕ → Bytes) (depth : ℕ) (name : Bytes)
    → names_of (set_slot vars depth name) (depth + 1) ≡ name ∷ names_of vars depth
pushed vars depth name =
    let n : depth + 1 ≡ suc depth = omega arith in
    let top : (depth == depth) ≡ true = ground arith in
    rw (n, top, names_of-set_slot vars depth depth name (omega arith)) refl

push_var-push : (name : Bytes) (temp : Bool) → Implements (push_var name temp) (push name temp)
unfolding push_var
push_var-push name temp g = elim (Bool-cases (ltb 0 (strlen name))) [
  | inr p ↦ rw p refl
  | inl p ↦ elim (Bool-cases (ltb (strlen name) max_token_len)) [
    | inr q ↦ rw (p, q) refl
    | inl q ↦
        let n = length-names_of g.stack_vars g.stack_depth in
        elim (Bool-cases (ltb g.stack_depth stack_len)) [
          | inr r ↦ rw (p, q, n, r) refl
          | inl r ↦
              let e = pushed g.stack_vars g.stack_depth name in
              elim (Bool-cases temp) [
                | inl t ↦
                    rw (p, q, n, r, t)
                      (_, refl, ap (λ x. record { names = x; temps = g.temp_depth + 1 }) e)
                | inr t ↦ elim (Bool-cases (g.temp_depth == 0)) [
                  | inr u ↦ rw (p, q, n, r, t, u) refl
                  | inl u ↦
                      rw (p, q, n, r, t, u)
                        (_, refl, ap (λ x. record { names = x; temps = g.temp_depth }) e)
                ]
              ]
        ]
  ]
]

popped :
    (temp : Bool) (depth : ℕ) (g : Globals)
    → g.stack_depth ≡ depth
    → Follows (pop_from temp (names_of g.stack_vars depth) g.temp_depth) (pop_var temp g)
unfolding pop_var
popped temp zero g e = rw e refl
popped temp (suc depth) g e =
    let some_left : ltb 0 g.stack_depth ≡ true = ground arith in
    let n : g.stack_depth - 1 ≡ depth = omega arith in
    elim (Bool-cases temp) [
      | inr t ↦
          rw (some_left, t)
            (_, refl, ap (λ d. record { names = names_of g.stack_vars d; temps = g.temp_depth }) n)
      | inl t ↦ elim (Bool-cases (g.temp_depth == 0)) [
        | inl u ↦
            let none_left : ltb 0 g.temp_depth ≡ false = ground arith in
            rw (some_left, t, u, none_left) refl
        | inr u ↦
            let temp_left : ltb 0 g.temp_depth ≡ true = ground arith in
            rw (some_left, t, u, temp_left)
              (
                _,
                refl,
                ap (λ d. record { names = names_of g.stack_vars d; temps = g.temp_depth - 1 }) n,
              )
      ]
    ]

-- The operations on the array of slots implement those of the abstract stack: a push and a pop panic
-- where that refuses them, and end with its stack otherwise, and a search gives the first place of the
-- name from the top.
pub stack-Implements :
    (name : Bytes) (temp : Bool)
    → Implements (push_var name temp) (push name temp)
      × Implements (pop_var temp) (pop temp)
      × ((g : Globals) → find_in_stack name g ≡ position name (view g).names)
unfolding find_in_stack
stack-Implements name temp = (
  push_var-push name temp,
  λ g. popped temp g.stack_depth g refl,
  λ g. position-names_of g.stack_vars name g.stack_depth,
)
