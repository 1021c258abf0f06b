-- ===== src/Cc/Tables.antt =====
-- cc/cc.c: the globals, the table of symbols, the stack of local variables and the emitters. An `int`
-- is its 32-bit pattern, below 2 ^ 32. A write outside of an array is a fault.
use asmc.Prelude.{
  ℕ, zero, suc, ◌+◌, ◌^◌, Bool, not, Option, none, some, List, [], ◌∷◌, ◌++◌, ltb, ◌==◌,
  if◌then◌else◌, option, length, get_elem?,
}
use asmc.Cstring.{Bytes, strlen}
use asmc.Run.{Run, done, pure, ◌>>=◌, ◌>>◌, halt, panic, fault, assert, gets, modify}
use asmc.Globals.{word, sub_word, loop_count, byte_at}
use asmc.Cc.Names.{equal, strncmp2}

abbrev pub max_id_len : ℕ
max_id_len = 128

abbrev pub max_depth : ℕ
max_depth = 1024

abbrev pub max_symbols : ℕ
max_symbols = 1024

pub record Label : Type 0 where
  pub name : Bytes
  pub loc : ℕ

-- A string literal of the program: its label, and the piece of the text with its quotes.
pub record Literal : Type 0 where
  pub id : ℕ
  pub piece : Bytes

-- The arrays `symbol_names` and `symbol_locs` are one list, and so are the three arrays of strings.
pub record CcGlobals : Type 0 where
  pub stage : ℕ
  pub current_loc : ℕ
  pub output : Bytes
  pub labels : List Label
  pub stack_depth : ℕ
  pub stack_vars : ℕ → Bytes
  pub block_depth : ℕ
  pub ret_depth : ℕ
  pub char_op : Bool
  pub literals : List Literal
  pub lab_id : ℕ

abbrev pub C : Type 0 → Type 0
C A = Run CcGlobals A

-- The loop of both searches.
unfoldable pub label_idx : (Bytes → Bool) → List Label → ℕ
label_idx test [] = 0
label_idx test (s ∷ t) = let rest = label_idx test t in if test s.name then 0 else suc rest

abbrev pub search_labels : (Bytes → Bool) → CcGlobals → ℕ
search_labels test g =
    let i = label_idx test g.labels in if i == length g.labels then max_symbols else i

unfoldable pub find_symbol : Bytes → CcGlobals → ℕ
unfolding label_idx
find_symbol name g = search_labels (equal name) g

unfoldable pub find_symbol2 : Bytes → CcGlobals → ℕ
unfolding label_idx
find_symbol2 piece g = search_labels (strncmp2 piece) g

-- `assert(pos != SYMBOL_TABLE_LEN); return symbol_locs[pos];`
abbrev pub loc_at : ℕ → C ℕ
loc_at pos = do
  assert (not (pos == max_symbols))
  label ← gets (λ g. get_elem? g.labels pos)
  option label (halt fault) (λ s. pure s.loc)

-- Both searches for a location, by the search for its position.
abbrev pub get_loc : (CcGlobals → ℕ) → C ℕ
get_loc find = do
  stage ← gets (λ g. g.stage)
  if stage == 0 then pure 0 else if stage == 1 then (do pos ← gets find; loc_at pos) else halt panic

unfoldable pub get_symbol : Bytes → C ℕ
unfolding find_symbol
get_symbol name = get_loc (find_symbol name)

unfoldable pub get_symbol2 : Bytes → C ℕ
unfolding find_symbol2
get_symbol2 piece = get_loc (find_symbol2 piece)

abbrev pub append_label : Bytes → ℕ → CcGlobals → CcGlobals
append_label name loc g = record g { labels = g.labels ++ (record { name = name; loc = loc }) ∷ [] }

unfoldable pub add_symbol : Bytes → ℕ → C (Unit {0})
unfolding find_symbol
add_symbol name loc = do
  assert (ltb 0 (strlen name))
  assert (ltb (strlen name) max_id_len)
  stage ← gets (λ g. g.stage)
  idx ← gets (find_symbol name)
  symbol_num ← gets (λ g. length g.labels)
  if stage == 0
      then (do
        assert (idx == max_symbols)
        assert (ltb symbol_num max_symbols)
        modify (append_label name loc))
      else if stage == 1
      then (do
        assert (ltb idx symbol_num)
        label ← gets (λ g. get_elem? g.labels idx)
        option label (halt fault) (λ s. assert (s.loc == loc)))
      else halt panic

abbrev pub put_var : Bytes → CcGlobals → CcGlobals
put_var var_name g = record g {
  stack_vars = λ i. if i == g.stack_depth then var_name else g.stack_vars i;
  stack_depth = g.stack_depth + 1;
}

-- A negative depth passes the last assert.
unfoldable pub push_var : Bytes → C (Unit {0})
push_var var_name = do
  assert (ltb 0 (strlen var_name))
  assert (ltb (strlen var_name) max_id_len)
  stack_depth ← gets (λ g. g.stack_depth)
  if ltb stack_depth max_depth
      then modify (put_var var_name)
      else if ltb stack_depth (2 ^ 31)
      then halt panic
      else halt fault

unfoldable pub pop_var : C (Unit {0})
pop_var = modify (λ g. record g { stack_depth = sub_word g.stack_depth 1 })

unfoldable pub pop_to_depth : ℕ → C (Unit {0})
pop_to_depth depth = modify (λ g. record g { stack_depth = depth })

-- The loop of both searches from the top slot down; `none` for -1.
unfoldable pub slot_from : (Bytes → Bool) → (ℕ → Bytes) → ℕ → Option ℕ
slot_from test vars zero = none
slot_from test vars (suc depth) =
    let rest = slot_from test vars depth in
    if test (vars depth) then some 0 else option rest none (λ i. some (suc i))

unfoldable pub find_in_stack : Bytes → CcGlobals → Option ℕ
unfolding slot_from
find_in_stack var_name g = slot_from (equal var_name) g.stack_vars (loop_count g.stack_depth)

unfoldable pub find_in_stack2 : Bytes → CcGlobals → Option ℕ
unfolding slot_from
find_in_stack2 piece g = slot_from (strncmp2 piece) g.stack_vars (loop_count g.stack_depth)

unfoldable pub emit : ℕ → C (Unit {0})
emit x g = done tt (record g {
  output = if g.stage == 1 then g.output ++ x ∷ [] else g.output;
  current_loc = word (g.current_loc + 1);
})

unfoldable pub emit32 : ℕ → C (Unit {0})
emit32 x = do emit (byte_at x 0); emit (byte_at x 8); emit (byte_at x 16); emit (byte_at x 24)

-- A run of `emit` calls.
unfoldable pub emits : Bytes → C (Unit {0})
emits [] = pure tt
emits (x ∷ s) = do emit x; emits s
