-- ===== src/Assembler/Encode.antt =====
-- attic/staging.c: the encoding of one instruction.
use Prim.Native.Nat.{bit_and}
use asmc.Prelude.{ℕ, ◌+◌, ◌*◌, ◌/◌, ◌%◌, Bool, not, ◌&&◌, ◌||◌, ◌==◌, if◌then◌else◌}
use asmc.Cstring.{minus_one}
use asmc.Run.{pure, ◌>>◌, assert}
use asmc.Globals.{M, emit, emit32}

-- `x == x & m` of C, where `==` binds tighter than `&`.
abbrev pub eq_then_and : ℕ → ℕ → ℕ → ℕ
eq_then_and x y m = bit_and (if x == y then 1 else 0) m

unfoldable pub emit_modrm : ℕ → ℕ → ℕ → M (Unit {0})
emit_modrm mod' reg rm = do
  assert (not (eq_then_and mod' mod' 0x3 == 0))
  assert (not (eq_then_and reg reg 0x7 == 0))
  assert (not (eq_then_and rm rm 0x7 == 0))
  assert (mod' == 2 || mod' == 3)
  emit ((mod' * 64 + reg * 8 + rm) % 256)
  if mod' == 2 && rm == 4 then emit 0x24 else pure tt

-- `reg` and `rm` may be -1.
unfoldable pub emit_helper : ℕ → Bool → ℕ → ℕ → ℕ → M (Unit {0})
emit_helper opcode_data is_direct reg rm disp = do
  let opcode = opcode_data % 256
  let opcode2 = opcode_data / 256 % 256
  let has_opcode2 = not (opcode_data / 65536 % 256 == 0)
  let reg' = if reg == minus_one then opcode2 else reg
  let mod' = if is_direct then 3 else 2
  let has_modrm = not (rm == minus_one)
  assert (not (opcode == 0xf0))
  emit opcode
  if has_opcode2 then emit opcode2 else pure tt
  if has_modrm then emit_modrm mod' reg' rm else pure tt
  if not is_direct then emit32 disp else pure tt
