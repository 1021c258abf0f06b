-- ===== src/Cc2/Termination.antt =====
-- cc/cc2.c: `main` ends on every file that has no brackets outside of its literals and comments.
use asmc.Prelude.{ℕ, some, [], ◌∷◌, ◌≡◌, ◌≢◌, arith, inl, inr, Option-cases, All}
use asmc.Cstring.{Bytes}
use asmc.Run.{stop, out_of_fuel}
use asmc.Run.Keeps.{Keeps, keeps, Keeps-apply}
use asmc.Run.Flow.{flow}
use asmc.Run.Ending.{ending, Ends-Finished, fault-Finished}
use asmc.Cc.Literals.{fix_strings}
use asmc.Cc.Operations.{pair_token}
use asmc.Cc2.Tables.{Cc2Globals, emit}
use asmc.Cc2.Blocks.{fix_operands, begin, compile_text, main}
use asmc.Cc2.Declarations.{NotBracket, interpret_type-ending}
use asmc.Cc2.Kept.{Cc2Primitives}
use asmc.Cc2.Kept.Programs.{compile_block-Keeps}

ending-Cc2Primitives : Cc2Primitives ending
ending-Cc2Primitives = record {
  fault_allowed = fault-Finished;
  emit_kept = λ x. keeps λ g. unfold emit in tt;
  quiet = λ g h l o. tt;
}

token-NotBracket : (x y t : ℕ) → pair_token x y ≡ some t → NotBracket t
unfolding pair_token
token-NotBracket x y t e = ground arith

fix_operands-All : (s : Bytes) → All NotBracket s → All NotBracket (fix_operands s)
unfolding fix_operands
fix_operands-All [] h = tt
fix_operands-All (x ∷ []) h = h
fix_operands-All (x ∷ y ∷ s) (p, (q, h)) = elim (Option-cases (pair_token x y)) [
  | inl e ↦ rw e (p, fix_operands-All (y ∷ s) (q, h))
  | inr (t, e) ↦ rw e (token-NotBracket x y t e, (omega arith, fix_operands-All s h))
]

text-ending : (src : Bytes) → All NotBracket src → Keeps ending (compile_text src)
unfolding compile_text
text-ending src h =
    let block =
      compile_block-Keeps ending-Cc2Primitives NotBracket interpret_type-ending (fix_operands src)
        (fix_operands-All src h) in
    search (flow, block)

-- When what `fix_strings` makes of the file has no brackets, `main` ends: the fuel of its blocks,
-- expressions, parameters and declarations is enough.
pub main-ends :
    (file src : Bytes) (g : Cc2Globals)
    → fix_strings file ≡ some src
    → All NotBracket src
    → main file g ≢ stop out_of_fuel
unfolding main
main-ends file src g e h = rw e (
    Ends-Finished (λ _. Unit) (compile_text src (begin g))
      (Keeps-apply ending (text-ending src h) (begin g)))
