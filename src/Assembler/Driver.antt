-- ===== src/Assembler/Driver.antt =====
-- attic/staging.c: reading lines, and the two passes of `assemble2`. The messages that it logs are
-- left out.
use asmc.Prelude.{
  ℕ, zero, suc, ◌+◌, ◌-◌, Bool, true, false, ◌&&◌, Option, none, some, List, [], ◌∷◌, ◌==◌,
  if◌then◌else◌, length, take,
}
use asmc.Cstring.{Bytes, minus_one, strlen, find_char, trimstr}
use asmc.Run.{pure, ◌>>=◌, ◌>>◌, halt, out_of_fuel, expect, gets, modify}
use asmc.Globals.{Globals, M}
use asmc.Symbols.{add_symbol_wrapper}
use asmc.Assembler.Opcodes.{Row}
use asmc.Assembler.Lines.{last_is, process_line}

abbrev pub input_buf_len : ℕ
input_buf_len = 1024

pub record Line : Type 0 where
  pub text : Bytes
  pub finished : Bool
  pub rest : Bytes

abbrev pub add_byte : ℕ → Option Line → Option Line
add_byte c none = none
add_byte c (some l) = some (record l { text = c ∷ l.text })

-- `none` where the buffer is full before the line ends.
unfoldable pub readline : Bytes → ℕ → Option Line
readline input zero = none
readline [] (suc len) = some (record { text = []; finished = true; rest = [] })
readline (c ∷ input) (suc len) =
    if c == b'\n'
    then some (record { text = []; finished = false; rest = input })
    else add_byte c (readline input len)

-- A buffer as a string: it ends at the first NUL.
unfoldable pub as_string : Bytes → Bytes
as_string [] = []
as_string (c ∷ s) = if c == 0 then [] else c ∷ as_string s

-- The text of a line without its comment and outer blanks.
unfoldable pub strip_line : Bytes → Bytes
unfolding as_string
strip_line buf =
    let line = as_string buf in
    trimstr
      (elim (find_char line b';') [ none ↦ line | some semicolon_pos ↦ take semicolon_pos line ])

-- `platform_reset_file`, and the globals that a pass sets.
abbrev pub begin_pass : Bytes → ℕ → ℕ → Globals → Globals
begin_pass file start_loc stage g = record g {
  stage = stage;
  input = file;
  line = 0;
  current_loc = start_loc;
}

-- The loop over the passes leaves the stage behind the last.
abbrev pub end_passes : Globals → Globals
end_passes g = record g { stage = 2 }

module _ (table : List Row) where
  -- A label, or a line of code.
  unfoldable pub assemble_line : Bytes → M (Unit {0})
  assemble_line text =
      if last_is b':' text
      then (do
        current_loc ← gets (λ g. g.current_loc)
        add_symbol_wrapper (take (strlen text - 1) text) current_loc minus_one)
      else process_line table text

  -- The loop over the lines of one pass. Each round reads a byte or is the last but one.
  unfoldable pub assemble_lines : ℕ → M (Unit {0})
  assemble_lines zero = halt out_of_fuel
  assemble_lines (suc fuel) =
      let next_lines = assemble_lines fuel in
      do
        input ← gets (λ g. g.input)
        read ← expect (readline input input_buf_len)
        modify (λ g. record g { input = read.rest })
        let text = strip_line read.text
        if read.finished && strlen text == 0 then pure tt else (do
          if strlen text == 0 then pure tt else assemble_line text
          modify (λ g. record g { line = g.line + 1 })
          next_lines)

  unfoldable pub assemble_pass : Bytes → ℕ → ℕ → M (Unit {0})
  assemble_pass file start_loc stage = do
    modify (begin_pass file start_loc stage)
    assemble_lines (length file + 2)

  unfoldable pub assemble : Bytes → ℕ → M (Unit {0})
  unfolding assemble_pass
  assemble file start_loc = do
    assemble_pass file start_loc 0
    assemble_pass file start_loc 1
    modify end_passes
