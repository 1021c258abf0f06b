-- ===== src/Globals.antt =====
-- attic/staging.c and attic/gstaging.c: the globals that the two programs reach through `get_…()`,
-- and the byte emitters. An `int` is its 32-bit pattern, below 2 ^ 32.
pub mod Emit
pub mod Layout
use asmc.Prelude.{
  ℕ, zero, suc, ◌+◌, ◌/◌, ◌%◌, ◌^◌, Bool, true, false, Option, none, some, List, [], ◌∷◌, ◌++◌, ◌-◌,
  ltb, ◌==◌, if◌then◌else◌,
}
use asmc.Cstring.{Bytes}
use asmc.Run.{Outcome, Run, done, pure, ◌>>=◌, ◌>>◌}

pub record Symbol : Type 0 where
  pub name : Bytes
  pub loc : ℕ
  pub arity : ℕ

-- The three symbol arrays are one list of `symbol_num` records. The stack of variables is the array
-- `stack_vars`, a function from slots, with its depth.
pub record Globals : Type 0 where
  pub stage : ℕ
  pub current_loc : ℕ
  pub output : Bytes
  pub symbols : List Symbol
  pub input : Bytes
  pub label_num : ℕ
  pub block_depth : ℕ
  pub temp_depth : ℕ
  pub stack_depth : ℕ
  pub stack_vars : ℕ → Bytes
  pub token_given_back : Bool
  pub token_buf : Bytes
  pub line : ℕ

abbrev pub Result : Type 0 → Type 0
Result A = Outcome Globals A

abbrev pub M : Type 0 → Type 0
M A = Run Globals A

-- int arithmetic
abbrev pub word : ℕ → ℕ
word x = x % 2 ^ 32

abbrev pub sub_word : ℕ → ℕ → ℕ
sub_word x y = word (x + (2 ^ 32 - word y))

-- The rounds of `for (i = 0; i < n; i++)` for an `int` n.
abbrev pub loop_count : ℕ → ℕ
loop_count n = if ltb n (2 ^ 31) then n else 0

-- The low byte of `x >> k`.
abbrev pub byte_at : ℕ → ℕ → ℕ
byte_at x k = x / 2 ^ k % 256

-- `emit2` of both programs; `c` is the byte that `platform_write_char` writes.
unfoldable pub emit : ℕ → M (Unit {0})
emit c g = done tt (record g {
  output = if g.stage == 1 then g.output ++ c ∷ [] else g.output;
  current_loc = word (g.current_loc + 1);
})

unfoldable pub emit32 : ℕ → M (Unit {0})
emit32 x = do emit (byte_at x 0); emit (byte_at x 8); emit (byte_at x 16); emit (byte_at x 24)

-- `emit_str2`: the loop over the bytes of a literal.
unfoldable pub emit_str : Bytes → M (Unit {0})
emit_str [] = pure tt
emit_str (c ∷ s) = do emit c; emit_str s
