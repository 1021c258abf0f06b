-- ===== src/Cc/Parentheses.antt =====
-- cc/cc.c: an expression that begins with a pair of parentheses and goes on behind it.
use asmc.Prelude.{
  ℕ, suc, ◌-◌, ◌<◌, ◌^◌, Bool, false, some, ◌∷◌, ◌++◌, ◌≡◌, ap, ◌∙◌, arith, length, take,
  length-append, take-length, ◌==◌,
}
use asmc.Cstring.{Bytes}
use asmc.Run.{done}
use asmc.Cc.Text.{find_matching}
use asmc.Cc.Matching.{Balanced, find_matching-Balanced}
use asmc.Cc.Tables.{CcGlobals}
use asmc.Cc.Expressions.{slice, match_at}
use asmc.Cc.Eval.{eval_expr}

-- The search in the whole text.
match_at-whole :
    (opening closing : ℕ) (text : Bytes) (i : ℕ)
    → find_matching opening closing text ≡ some i
    → match_at opening closing text 0 (length text) ≡ some i
match_at-whole opening closing text i e =
    let all : slice text 0 (length text) ≡ text =
      let n : length text - 0 ≡ length text = omega arith in
      ap (λ k. take k text) n ∙ take-length {0} text in
    let found : find_matching opening closing (slice text 0 (length text)) ≡ some i =
      ap (find_matching opening closing) all ∙ e in
    ground (arith, found)

-- An expression that begins with a pair of parentheses around balanced text, and does not end with it,
-- gets no code: `eval_expr` leaves the globals as they are, and succeeds.
pub eval_expr-group_first :
    (label_text : ℕ → Bytes) (inner : Bytes) (x : ℕ) (rest : Bytes) (fuel : ℕ) (addr : Bool)
    (g : CcGlobals)
    → Balanced b'(' b')' inner
    → length inner < 2 ^ 31
    → eval_expr label_text
        (b'(' ∷ inner ++ b')' ∷ x ∷ rest)
        (suc fuel)
        0
        (length (b'(' ∷ inner ++ b')' ∷ x ∷ rest))
        addr
        g
      ≡ done tt g
unfolding eval_expr
eval_expr-group_first label_text inner x rest fuel addr g b l =
    let m = find_matching-Balanced b'(' b')' (omega arith) inner (x ∷ rest) b l in
    let n = length-append {0} inner (b')' ∷ x ∷ rest) in
    let w = match_at-whole b'(' b')' (b'(' ∷ inner ++ b')' ∷ x ∷ rest) (suc (length inner)) m in
    let t : (suc (length inner) == length (b'(' ∷ inner ++ b')' ∷ x ∷ rest) - 1) ≡ false =
      ground (arith, n) in
    rw (w, t)
