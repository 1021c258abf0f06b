-- ===== src/Compiler/Machine.antt =====
-- attic/gstaging.c: the instructions of the processor that the code of an expression is made of, on a stack
-- of words with the top first.
use mathlib.Core.Option
use asmc.Prelude.{
  ℕ, zero, suc, ◌+◌, ◌/◌, ◌%◌, Bool, true, false, Option, none, some, List, [], ◌∷◌, leb, ◌&&◌,
  ◌==◌, if◌then◌else◌, option, length, get_elem?, drop,
}
use asmc.Cstring.{Bytes}
use asmc.Globals.{word, sub_word}
use asmc.Globals.Emit.{from_le}

-- The words on the stack below the frame of the program are not in `stack`; `memory` is the memory
-- outside of the stack.
pub record Machine : Type 0 where
  pub eip : ℕ
  pub eax : ℕ
  pub esp : ℕ
  pub stack : List ℕ
  pub memory : ℕ → ℕ

abbrev pub push_word : ℕ → Machine → Machine
push_word x m = record m { esp = sub_word m.esp 4; stack = x ∷ m.stack }

-- `push [esp + disp]`
abbrev pub push_slot : ℕ → Machine → Option Machine
push_slot disp m =
    if disp % 4 == 0 then Option.map (λ x. push_word x m) (get_elem? m.stack (disp / 4)) else none

-- `add esp, size`
abbrev pub drop_words : ℕ → Machine → Option Machine
drop_words size m =
    if size % 4 == 0 && leb (size / 4) (length m.stack)
    then some (record m { esp = word (m.esp + size); stack = drop (size / 4) m.stack })
    else none

-- An instruction: its first bytes, whether four bytes of an immediate value follow, and what it does,
-- when `eip` stands behind it.
pub record Instruction : Type 0 where
  pub opcode : Bytes
  pub has_immediate : Bool
  pub effect : ℕ → Machine → Option Machine

-- A function at an address: what the processor is in when it has come back.
abbrev pub Functions : Type 0
Functions = ℕ → Machine → Machine

abbrev pub behind : Bytes → Bytes → Option Bytes
behind [] code = some code
behind (c ∷ s) [] = none
behind (c ∷ s) (d ∷ code) = if c == d then behind s code else none

-- The immediate value in front of the rest of the code.
abbrev pub immediate : Bytes → Option (ℕ × Bytes)
immediate (a ∷ b ∷ c ∷ d ∷ code) = some (from_le (a ∷ b ∷ c ∷ d ∷ []), code)
immediate code = none

abbrev pub advance : ℕ → Machine → Machine
advance n m = record m { eip = word (m.eip + n) }

abbrev pub apply : Instruction → Bytes → Machine → Option (Bytes × Machine)
apply i code m =
    if i.has_immediate
    then option (immediate code) none
        (λ (x, rest). Option.map (λ k. (rest, k)) (i.effect x (advance (length i.opcode + 4) m)))
    else Option.map (λ k. (code, k)) (i.effect 0 (advance (length i.opcode) m))

-- Fuel for more instructions.
abbrev pub further : ℕ → ℕ → ℕ
further zero fuel = fuel
further (suc n) fuel = suc (further n fuel)

module _ (functions : Functions) where
  abbrev pub instructions : List Instruction
  instructions =
      record { opcode = 0x68 ∷ []; has_immediate = true; effect = λ x m. some (push_word x m) }
      ∷ record { opcode = 0xff ∷ 0xb4 ∷ 0x24 ∷ []; has_immediate = true; effect = push_slot }
      ∷ record {
        opcode = 0x8d ∷ 0x84 ∷ 0x24 ∷ [];
        has_immediate = true;
        effect = λ x m. some (record m { eax = word (m.esp + x) });
      }
      ∷ record {
        opcode = 0x50 ∷ [];
        has_immediate = false;
        effect = λ x m. some (push_word m.eax m);
      }
      ∷ record {
        opcode = 0xb8 ∷ [];
        has_immediate = true;
        effect = λ x m. some (record m { eax = x });
      }
      ∷ record {
        opcode = 0xff ∷ 0x30 ∷ [];
        has_immediate = false;
        effect = λ x m. some (push_word (m.memory m.eax) m);
      }
      ∷ record {
        opcode = 0xe8 ∷ [];
        has_immediate = true;
        effect = λ x m. some (functions (word (m.eip + x)) m);
      }
      ∷ record { opcode = 0x81 ∷ 0xc4 ∷ []; has_immediate = true; effect = drop_words }
      ∷ []

  abbrev first : List Instruction → Bytes → Machine → Option (Bytes × Machine)
  first [] code m = none
  first (i ∷ is) code m = option (behind i.opcode code) (first is code m) (λ rest. apply i rest m)

  -- Every instruction takes one of the fuel.
  unfoldable pub run : ℕ → Bytes → Machine → Option Machine
  run fuel [] m = some m
  run zero (c ∷ code) m = none
  run (suc fuel) (c ∷ code) m =
      option (first instructions (c ∷ code) m) none (λ (rest, k). run fuel rest k)
