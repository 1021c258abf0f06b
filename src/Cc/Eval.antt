-- ===== src/Cc/Eval.antt =====
-- cc/cc.c: the search for the operator of an expression, and `eval_expr` with its leaves.
use asmc.Prelude.{
  ℕ, zero, suc, ◌+◌, ◌-◌, ◌*◌, Bool, false, not, ◌&&◌, List, [], ◌∷◌, leb, ltb, ◌==◌, ◌++◌,
  if◌then◌else◌, option, codes, length,
}
use asmc.Cstring.{Bytes}
use asmc.Run.{pure, ◌>>=◌, ◌>>◌, halt, panic, fault, out_of_fuel, assert, expect, gets, modify}
use asmc.Globals.{word}
use asmc.Cc.Text.{
  find_matching_rev, remove_spaces, escaped, byte_of, RevMatch, missing, at, outside,
}
use asmc.Cc.Numbers.{decode_number}
use asmc.Cc.Operations.{fix_operations, fix_operations2}
use asmc.Cc.Tables.{C, get_symbol, get_symbol2, push_var, find_in_stack2, emit, emit32, emits}
use asmc.Cc.Expressions.{
  slice, is_in, temp_name, max_string_num, unmark, gen_id, match_at, run_eval_expr,
}

-- `push eax`, and its entry of the stack.
abbrev pub push_eax : C (Unit {0})
push_eax = do emit 0x50; push_var temp_name

-- `push val`, and its entry of the stack.
abbrev pub push_value : ℕ → C (Unit {0})
push_value val = do emit 0x68; emit32 val; push_var temp_name

unfoldable pub eval_number : Bytes → Bool → C (Unit {0})
eval_number piece addr = do assert (not addr); val ← expect (decode_number piece); push_value val

-- A character constant; `begin` and `end` are its quotes.
unfoldable pub eval_char : Bytes → ℕ → ℕ → C (Unit {0})
eval_char text begin end = do
  assert (byte_of text (end - 1) == b'\'')
  push_var temp_name
  if end - begin == 3
      then (do emit 0x68; emit32 (unmark (byte_of text (begin + 1))))
      else if end - begin == 4
      then (do
        assert (byte_of text (begin + 1) == 0xdc)
        emit 0x68
        emit32 (escaped (unmark (byte_of text (begin + 2)))))
      else halt panic

unfoldable pub eval_name : Bytes → Bool → C (Unit {0})
eval_name piece addr = do
  pos ← gets (find_in_stack2 piece)
  option pos
      (do
        var_addr ← get_symbol2 piece
        if addr
            then push_value var_addr
            else (do emit 0xb8; emit32 var_addr; emits (0xff ∷ 0x30 ∷ []); push_var temp_name))
      (λ i.
        if addr
        then (do emits (0x89 ∷ 0xe0 ∷ 0x05 ∷ []); emit32 (word (4 * i)); push_eax)
        else (do emits (0x8b ∷ 0x84 ∷ 0x24 ∷ []); emit32 (word (4 * i)); push_eax))

-- The operators from the loosest to the tightest, with the direction of the search.
abbrev pub pivots : List (Bytes × ℕ)
pivots =
    (codes "=", 0)
    ∷ (0x89 ∷ [], 1)
    ∷ (0x88 ∷ [], 1)
    ∷ (codes "|", 1)
    ∷ (codes "&", 1)
    ∷ (0x86 ∷ 0x87 ∷ [], 1)
    ∷ (0x84 ∷ 0x85 ∷ codes "<>", 1)
    ∷ (0x82 ∷ 0x83 ∷ [], 1)
    ∷ (codes "+-", 1)
    ∷ (codes "*/%", 1)
    ∷ (b'!' ∷ b'~' ∷ 0x8a ∷ 0x8b ∷ [], 0)
    ∷ (0x80 ∷ [], 1)
    ∷ []

module _ (label_text : ℕ → Bytes) (text : Bytes) where
  -- A string literal: the store into the arrays comes before the assert.
  unfoldable pub eval_string : ℕ → ℕ → Bool → C (Unit {0})
  eval_string begin end addr = do
    id ← gen_id
    var_addr ← get_symbol (label_text id)
    string_num ← gets (λ g. length g.literals)
    if ltb string_num max_string_num
        then modify (λ g. record g {
          literals = g.literals ++ (record { id = id; piece = slice text begin end }) ∷ [];
        })
        else halt fault
    assert (not addr)
    push_value var_addr

  unfoldable pub eval_leaf : ℕ → ℕ → Bool → C (Unit {0})
  unfolding eval_number eval_char eval_string eval_name
  eval_leaf begin end addr =
      let c = byte_of text begin in
      if leb b'0' c && leb c b'9'
      then eval_number (slice text begin end) addr
      else if c == b'\''
      then eval_char text begin end
      else if c == b'"'
      then eval_string begin end addr
      else eval_name (slice text begin end) addr

-- `assert(p != 0)` on the result of `find_matching_rev`, and the end of the loop: the place that is
-- found does not lie behind `begin`, so that `p--` passes it. In front of the expression's own text the
-- C code searches on in the file, and the model stops with a fault.
unfoldable pub after_rev : RevMatch → C Bool
after_rev missing = halt panic
after_rev (at i) = pure false
after_rev outside = halt fault

module _ (text : Bytes) (eval : ℕ → ℕ → Bool → C (Unit {0})) (begin end : ℕ) (addr : Bool) where
  -- The loop from the front: `p` grows in each round, so there are no more rounds than bytes.
  unfoldable pub scan_up : Bytes → ℕ → ℕ → C Bool
  scan_up set zero p = pure false
  scan_up set (suc rounds) p =
      let again = scan_up set rounds in
      let c = byte_of text p in
      if ltb p end
      then (if is_in c set
          then run_eval_expr text eval begin p end addr
          else if c == b'('
          then (do q ← expect (match_at b'(' b')' text p end); again (q + 1))
          else if c == b'['
          then (do q ← expect (match_at b'[' b']' text p end); again (q + 1))
          else again (p + 1))
      else pure false

  -- The loop from the back, with `p` at `begin + k` in a round.
  unfoldable pub scan_down : Bytes → ℕ → C Bool
  unfolding after_rev
  scan_down set zero = pure false
  scan_down set (suc k) =
      let again = scan_down set k in
      let p = begin + k in
      let c = byte_of text p in
      if is_in c set
      then run_eval_expr text eval begin p end addr
      else if c == b')'
      then after_rev (find_matching_rev b'(' b')' text begin (p + 1))
      else if c == b']'
      then after_rev (find_matching_rev b'[' b']' text begin (p + 1))
      else again

  unfoldable pub parse_expr : Bytes → ℕ → C Bool
  unfolding scan_up scan_down
  parse_expr set dir =
      if dir == 0 then scan_up set (end - begin) begin else scan_down set (end - begin)

  -- The chain of `else if`, and the leaves in its last branch.
  unfoldable pub try_pivots : (ℕ → Bytes) → List (Bytes × ℕ) → C (Unit {0})
  unfolding parse_expr eval_leaf
  try_pivots label_text [] = eval_leaf label_text text begin end addr
  try_pivots label_text ((set, dir) ∷ rest) =
      let next = try_pivots label_text rest in
      do found ← parse_expr set dir; if found then pure tt else next

module _ (label_text : ℕ → Bytes) where
  -- The pieces of the recursive calls are shorter, so that the length of the piece bounds their nesting.
  unfoldable pub eval_expr : Bytes → ℕ → ℕ → ℕ → Bool → C (Unit {0})
  eval_expr text zero begin end addr = halt out_of_fuel
  eval_expr text (suc fuel) begin end addr =
      let eval = eval_expr text fuel in
      if byte_of text begin == b'('
      then option (match_at b'(' b')' text begin end) (pure tt)
          (λ i. if i == end - 1 then eval (begin + 1) (end - 1) addr else pure tt)
      else try_pivots text eval begin end addr label_text pivots

  unfoldable pub compile_expression : Bytes → C (Unit {0})
  unfolding eval_expr
  compile_expression exp = do
    fixed ← expect (fix_operations2 (remove_spaces (fix_operations exp)))
    eval_expr fixed (length fixed + 1) 0 (length fixed) false
