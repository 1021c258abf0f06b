-- ===== src/Globals/Emit.antt =====
-- What the emitters of attic/staging.c and attic/gstaging.c write, in each stage.
use mathlib.Core.List.{append-nil, append_assoc}
use asmc.Prelude.{
  ℕ, ◌+◌, ◌*◌, ◌<◌, ◌^◌, [], ◌∷◌, ◌++◌, ◌≡◌, refl, ap, ◌∙◌, arith, length, length-append,
  if◌then◌else◌, ◌==◌,
}
use asmc.Cstring.{Bytes}
use asmc.Run.{done}
use asmc.Globals.{Globals, word, byte_at, emit, emit32, emit_str}

-- The globals after `s` is emitted.
abbrev pub emitted : Bytes → Globals → Globals
emitted s g = record g {
  output = if g.stage == 1 then g.output ++ s else g.output;
  current_loc = word (g.current_loc + length s);
}

emitted-emitted :
    (c : ℕ) (s : Bytes) (g : Globals) → emitted s (emitted (c ∷ []) g) ≡ emitted (c ∷ s) g
emitted-emitted c s g = ground (arith, append_assoc g.output (c ∷ []) s)

pub emitted-append : (s t : Bytes) (g : Globals) → emitted t (emitted s g) ≡ emitted (s ++ t) g
emitted-append s t g = ground (arith, append_assoc g.output s t, length-append s t)

emitted-nil : (g : Globals) → g.current_loc < 2 ^ 32 → g ≡ emitted [] g
emitted-nil g h = ground (arith, append-nil g.output)

-- The bytes of `s` are appended in stage 1, and only counted in stage 0.
pub emit_str_lem :
    (s : Bytes) (g : Globals) → g.current_loc < 2 ^ 32 → emit_str s g ≡ done tt (emitted s g)
unfolding emit_str emit
emit_str_lem [] g h = ap (done tt) (emitted-nil g h)
emit_str_lem (c ∷ s) g h =
    emit_str_lem s (emitted (c ∷ []) g) (omega arith) ∙ ap (done tt) (emitted-emitted c s g)

-- The four bytes of a word, the lowest first.
abbrev pub le_bytes : ℕ → Bytes
le_bytes x = byte_at x 0 ∷ byte_at x 8 ∷ byte_at x 16 ∷ byte_at x 24 ∷ []

abbrev pub from_le : Bytes → ℕ
from_le [] = 0
from_le (c ∷ s) = c + 256 * from_le s

pub from_le-le_bytes : (x : ℕ) → from_le (le_bytes x) ≡ word x
from_le-le_bytes x = omega arith

pub emit_lem : (c : ℕ) (g : Globals) → emit c g ≡ done tt (emitted (c ∷ []) g)
unfolding emit
emit_lem c g = refl

pub emit32-le_bytes :
    (x : ℕ) (g : Globals) → g.current_loc < 2 ^ 32 → emit32 x g ≡ done tt (emitted (le_bytes x) g)
unfolding emit32 emit_str emit
emit32-le_bytes x g h = emit_str_lem (le_bytes x) g h

-- `emit32` emits four bytes, which read back, the lowest first, as its argument modulo 2 ^ 32.
pub emit32_lem :
    (x : ℕ) (g : Globals)
    → g.current_loc < 2 ^ 32
    → (s : Bytes) × (emit32 x g ≡ done tt (emitted s g)) × (length s ≡ 4) × (from_le s ≡ word x)
unfolding emit32 emit_str emit
emit32_lem x g h = (le_bytes x, emit_str_lem (le_bytes x) g h, refl, from_le-le_bytes x)
