-- ===== src/Tests/Encodings.antt =====
-- Encodings at inputs that meet the hypotheses.
use asmc.Prelude.{ℕ, ◌+◌, ◌/◌, ◌%◌, ◌≡◌, inl, refl, arith}
use asmc.Run.{done}
use asmc.Globals.{word}
use asmc.Globals.Emit.{emitted}
use asmc.Assembler.Encode.{emit_modrm}
use asmc.Assembler.ModRm.{sib, emit_modrm-fields}
use asmc.Compiler.Expr.{compute_rel}
use asmc.Compiler.Relative.{compute_rel-target}
use asmc.Tests.Start.{start}

emit_modrm-fields_example :
    (c : ℕ) × (emit_modrm 2 1 4 start ≡ done tt (emitted (sib 2 4 c) start))
    × (c / 64 ≡ 2)
    × (c / 8 % 8 ≡ 1)
    × (c % 8 ≡ 4)
emit_modrm-fields_example =
    emit_modrm-fields 2 1 4 start (omega arith) (inl refl) (omega arith) (omega arith)

compute_rel-target_example :
    (rel : ℕ) × (compute_rel 16 start ≡ done rel start) × (word (0 + 4 + rel) ≡ word 16)
compute_rel-target_example = compute_rel-target 16 start
