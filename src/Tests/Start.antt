-- ===== src/Tests/Start.antt =====
-- Globals as they are before a run, and a small C library.
use asmc.Prelude.{ℕ, ◌+◌, ◌-◌, false, [], ◌∷◌}
use asmc.Cstring.{Bytes}
use asmc.Globals.{Globals}
use asmc.Compiler.Expr.{Libc}

abbrev pub start : Globals
start = record {
  stage = 0;
  current_loc = 0;
  output = [];
  symbols = [];
  input = [];
  label_num = 0;
  block_depth = 0;
  temp_depth = 0;
  stack_depth = 0;
  stack_vars = λ i. [];
  token_given_back = false;
  token_buf = [];
  line = 0;
}

abbrev one_digit : Bytes → ℕ
one_digit [] = 0
one_digit (c ∷ s) = c - b'0'

-- Numbers below 10.
abbrev pub libc : Libc
libc = record { atoi = one_digit; label_text = λ n. b'.' ∷ (b'0' + n) ∷ [] }
