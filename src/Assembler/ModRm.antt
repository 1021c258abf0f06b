-- ===== src/Assembler/ModRm.antt =====
-- attic/staging.c: the bytes of `emit_modrm2` hold its arguments.
use asmc.Prelude.{
  ℕ, ◌+◌, ◌*◌, ◌/◌, ◌%◌, ◌<◌, ◌^◌, ◌&&◌, ◌||◌, [], List, ◌∷◌, ◌≡◌, ◌⊎◌, inl, inr, refl, ◌∙◌, arith,
  ◌==◌, if◌then◌else◌, ==_refl, Bool-cases, true,
}
use asmc.Run.{done}
use asmc.Globals.{Globals, emit, emit_str}
use asmc.Globals.Emit.{emitted, emit_str_lem}
use asmc.Assembler.Encode.{emit_modrm}

-- A byte, with the SIB byte where there is one.
abbrev pub sib : ℕ → ℕ → ℕ → List ℕ
sib mod' rm c = if mod' == 2 && rm == 4 then c ∷ 0x24 ∷ [] else c ∷ []

emit_modrm-bytes :
    (mod' reg rm : ℕ) (g : Globals)
    → (mod' ≡ 2) ⊎ (mod' ≡ 3)
    → emit_modrm mod' reg rm g ≡ emit_str (sib mod' rm ((mod' * 64 + reg * 8 + rm) % 256)) g
unfolding emit_modrm emit_str emit
emit_modrm-bytes mod' reg rm g h =
    let mode : (mod' == 2 || mod' == 3) ≡ true = ground arith in
    elim (Bool-cases (mod' == 2 && rm == 4)) [
      | inl p ↦ rw (==_refl mod', ==_refl reg, ==_refl rm, mode, p) refl
      | inr p ↦ rw (==_refl mod', ==_refl reg, ==_refl rm, mode, p) refl
    ]

-- For the modes 2 and 3 and for registers below 8, `emit_modrm` emits a byte whose three fields are
-- its arguments, and behind it the SIB byte exactly for mode 2 with base 4.
pub emit_modrm-fields :
    (mod' reg rm : ℕ) (g : Globals)
    → g.current_loc < 2 ^ 32
    → (mod' ≡ 2) ⊎ (mod' ≡ 3)
    → reg < 8
    → rm < 8
    → (c : ℕ) × (emit_modrm mod' reg rm g ≡ done tt (emitted (sib mod' rm c) g))
      × (c / 64 ≡ mod')
      × (c / 8 % 8 ≡ reg)
      × (c % 8 ≡ rm)
emit_modrm-fields mod' reg rm g l m r b = (
  (mod' * 64 + reg * 8 + rm) % 256,
  emit_modrm-bytes mod' reg rm g m ∙ emit_str_lem _ g l,
  fields.0,
  fields.1,
  fields.2,
)
  where
    fields :
        ((mod' * 64 + reg * 8 + rm) % 256 / 64 ≡ mod')
        × ((mod' * 64 + reg * 8 + rm) % 256 / 8 % 8 ≡ reg)
        × ((mod' * 64 + reg * 8 + rm) % 256 % 8 ≡ rm)
    fields = (omega arith, omega arith, omega arith)
