-- ===== src/Cc2/Image.antt =====
-- cc/cc2.c: how a run of `main` moves through the output. Every step appends to it what it adds to the
-- location.
use mathlib.Core.List.{append-nil, append_assoc}
use asmc.Prelude.{
  ℕ, zero, suc, ◌+◌, Option, none, some, [], ◌∷◌, ◌++◌, ◌≡◌, refl, sym, ◌∙◌, arith, length,
  length-append, All,
}
use asmc.Cstring.{Bytes}
use asmc.Run.{done, ◌>>=◌, ◌>>◌, expect, modify}
use asmc.Run.Keeps.{StepRelation, Keeps, keeps, Keeps-halt, Keeps-apply, Ends-done}
use asmc.Run.Flow.{flow}
use asmc.Globals.{word}
use asmc.Cc.Literals.{fix_strings}
use asmc.Cc2.Tables.{Cc2Globals, emit}
use asmc.Cc2.Types.{interpret_from, interpret_type}
use asmc.Cc2.Blocks.{compile_block, start_loc, begin, compile_text, main}
use asmc.Cc2.Kept.{Cc2Primitives}
use asmc.Cc2.Kept.Programs.{compile_block-Keeps}

pub record Writes (g h : Cc2Globals) : Type 0 where
  pub chunk : Bytes
  pub counted : word h.current_loc ≡ word (g.current_loc + length chunk)
  pub written : h.output ≡ g.output ++ chunk

Writes-none : (g h : Cc2Globals) → h.current_loc ≡ g.current_loc → h.output ≡ g.output → Writes g h
Writes-none g h l o = record {
  chunk = [];
  counted = rw l (omega arith);
  written = o ∙ sym (append-nil g.output);
}

Writes-trans : (g h k : Cc2Globals) → Writes g h → Writes h k → Writes g k
Writes-trans g h k p q = record {
  chunk = p.chunk ++ q.chunk;
  counted = omega (arith, length-append {0} p.chunk q.chunk, p.counted, q.counted);
  written = ground (arith, append_assoc g.output p.chunk q.chunk);
}

abbrev writing : StepRelation Cc2Globals
writing = record {
  Rel = Writes;
  rel_refl = λ g. Writes-none g g refl refl;
  rel_trans = Writes-trans;
  Allowed = λ e. Unit;
  panic_allowed = tt;
}

writing-Cc2Primitives : Cc2Primitives writing
writing-Cc2Primitives = record {
  fault_allowed = tt;
  emit_kept = λ x.
      keeps λ g. unfold emit in record { chunk = x ∷ []; counted = omega arith; written = refl };
  quiet = Writes-none;
}

from-Keeps :
    (fuel state : ℕ) (name decl : Bytes) → Keeps writing (interpret_from fuel state name decl)
unfolding interpret_from
from-Keeps zero state name decl = Keeps-halt writing _ tt
from-Keeps (suc fuel) state name [] = search flow
from-Keeps (suc fuel) state name (c ∷ s) =
    let again = from-Keeps fuel in search (flow, again) depth 30

-- Any byte will do.
abbrev AnyByte : ℕ → Type 0
AnyByte c = Unit

All-any : (s : Bytes) → All AnyByte s
All-any [] = tt
All-any (c ∷ s) = (tt, All-any s)

type-Keeps : (decl : Bytes) → All AnyByte decl → Keeps writing (interpret_type decl)
unfolding interpret_type
type-Keeps decl h = from-Keeps (length decl + 1) 0 [] decl

block-Keeps : (text : Bytes) → Keeps writing (compile_block text)
block-Keeps text = compile_block-Keeps writing-Cc2Primitives AnyByte type-Keeps text (All-any text)

-- What a run of `main` has written, and where it has got to.
pub record Image (g h : Cc2Globals) : Type 0 where
  pub image : Bytes
  pub written : h.output ≡ g.output ++ image
  pub located : word h.current_loc ≡ word (start_loc + length image)

text-Keeps : (src : Bytes) → Keeps writing (compile_text src)
unfolding compile_text
text-Keeps src = search (flow, block-Keeps)

image_of :
    (o : Option Bytes) (g h : Cc2Globals)
    → (do src ← expect o; modify begin; compile_text src) g ≡ done tt h
    → Writes (begin g) h
image_of none g h e = absurd (ground arith)
image_of (some src) g h e =
    Ends-done (Writes (begin g)) (λ x. Unit) (compile_text src (begin g)) tt h
      (Keeps-apply writing (text-Keeps src) (begin g)) e

-- A run of `main` that ends well appends an image to the output, and the location has moved from the
-- beginning of the image by its length.
pub main-Image : (file : Bytes) (g h : Cc2Globals) → main file g ≡ done tt h → Image g h
unfolding main compile_text
main-Image file g h e =
    let w = image_of (fix_strings file) g h e in
    record { image = w.chunk; written = w.written; located = w.counted }
