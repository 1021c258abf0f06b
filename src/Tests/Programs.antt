-- ===== src/Tests/Programs.antt =====
-- The assembler and the G compiler at small files.
use asmc.Prelude.{[], ◌∷◌, ◌≡◌, ◌≢◌, refl, codes}
use asmc.Cstring.{Bytes, strcmp, isstrpref, find_char, remove_spaces, trimstr}
use asmc.Run.{done, stop, out_of_fuel, repeat}
use asmc.Globals.{Globals, Result, emit, emit32, emit_str}
use asmc.Symbols.{find_symbol, add_symbol, add_symbol_wrapper}
use asmc.Symbols.Table.{IsTable, IsTable-nil}
use asmc.Numbers.{decode_number, decode_number_or_symbol}
use asmc.Assembler.Operand.{decode_operand, decode_reg32, decode_reg8}
use asmc.Assembler.Encode.{emit_modrm, emit_helper}
use asmc.Assembler.Opcodes.{opcodes}
use asmc.Assembler.Instruction.{process_instruction, process_text_line}
use asmc.Assembler.Lines.{
  process_bss_line, process_data_line, process_directive_line, process_equ_line, process_line,
}
use asmc.Assembler.Driver.{readline, strip_line, assemble_line, assemble_lines, assemble}
use asmc.Assembler.Fuel.{assemble-terminates}
use asmc.Assembler.Image.{Image, assemble-Image, assemble-IsTable}
use asmc.Tests.Start.{start}

abbrev source : Bytes
source = codes "start:\n push eax ; save\n mov DWORD [ebp+8], 0x10\n jmp start\n"

run : Result (Unit {0})
unfolding assemble assemble_lines assemble_line process_line process_directive_line process_bss_line
    process_text_line process_data_line process_equ_line process_instruction emit_helper emit_modrm
    decode_operand decode_reg32 decode_reg8 decode_number decode_number_or_symbol find_symbol
    add_symbol add_symbol_wrapper emit emit32 emit_str repeat strcmp isstrpref find_char
    remove_spaces trimstr readline strip_line opcodes
run = assemble opcodes source 0x100000 start

-- The globals in which a run ends, or `start`.
abbrev final : Result (Unit {0}) → Globals
final (done a h) = h
final (stop e) = start

code_of :
    (final run).output
    ≡ 0xff ∷ 0xf0 ∷ 0xc7 ∷ 0x85 ∷ 0x08 ∷ 0x00 ∷ 0x00 ∷ 0x00 ∷ 0x10 ∷ 0x00 ∷ 0x00 ∷ 0x00 ∷ 0xe9
      ∷ 0xef ∷ 0xff ∷ 0xff ∷ 0xff ∷ []
unfolding run
code_of = refl

run-done : assemble opcodes source 0x100000 start ≡ done tt (final run)
unfolding run
run-done = refl

assemble-Image_example : Image opcodes source 0x100000 start (final run)
assemble-Image_example = assemble-Image opcodes source 0x100000 start (final run) run-done

assemble-IsTable_example : IsTable (final run).symbols
assemble-IsTable_example =
    assemble-IsTable opcodes source 0x100000 start (final run) IsTable-nil run-done

assemble-terminates_example : assemble opcodes source 0x100000 start ≢ stop out_of_fuel
assemble-terminates_example = assemble-terminates opcodes source 0x100000 start
