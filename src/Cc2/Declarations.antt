-- ===== src/Cc2/Declarations.antt =====
-- cc/cc2.c: `interpret_type` on declarations, and in front of the brackets of an array.
use mathlib.Core.Path.{subst}
use mathlib.Core.List.{append-nil}
use asmc.Prelude.{
  All-drop, ℕ, zero, suc, ◌+◌, ◌<◌, true, false, [], ◌∷◌, ◌++◌, ◌≡◌, ◌≢◌, refl, ap, ◌∙◌, arith,
  length, drop, All, ◌||◌, take-append, drop-append, length-drop, length-append, sym, Bool-cases,
  inl, inr, ◌==◌, if◌then◌else◌,
}
use asmc.Cstring.{Bytes}
use asmc.Run.{done, stop, out_of_fuel, panic, halt}
use asmc.Run.Keeps.{Keeps}
use asmc.Run.Flow.{flow}
use asmc.Run.Ending.{ending}
use asmc.Cc.Text.{is_id, is_whitespace}
use asmc.Cc2.Tables.{Cc2Globals, C2}
use asmc.Cc2.Types.{find_id, is_type, interpret_from, interpret_type}

-- Text without brackets.
abbrev pub NotBracket : ℕ → Type 0
NotBracket c = c ≢ b'['

from-ending :
    (fuel state : ℕ) (name decl : Bytes)
    → length decl < fuel
    → All NotBracket decl
    → Keeps ending (interpret_from fuel state name decl)
unfolding interpret_from find_id
from-ending zero state name decl l h = absurd (omega arith)
from-ending (suc fuel) state name [] l h = search flow
from-ending (suc fuel) state name (c ∷ s) l (p, h) =
    let again = λ (st : ℕ) (n : Bytes). from-ending fuel st n s (omega arith) h in
    let behind = λ (st : ℕ) (n : Bytes).
      from-ending fuel st n (drop (find_id s) s) (omega (arith, length-drop {0} (find_id s) s))
        (All-drop NotBracket (find_id s) s h) in
    let bracket : (c == b'[') ≡ false = ground arith in
    elim (Bool-cases (is_id c)) [
      | inl i ↦ rw (bracket, i) (search (flow, again, behind) depth 30)
      | inr i ↦ rw (bracket, i) (search (flow, again) depth 30)
    ]

-- On text without brackets `interpret_type` ends: the fuel is enough.
pub interpret_type-ending :
    (decl : Bytes) → All NotBracket decl → Keeps ending (interpret_type decl)
unfolding interpret_type
interpret_type-ending decl h = from-ending (length decl + 1) 0 [] decl (omega arith) h

-- A byte of a name.
abbrev pub IsIdByte : ℕ → Type 0
IsIdByte c = is_id c ≡ true

find_id-append :
    (id rest : Bytes) → All IsIdByte id → find_id rest ≡ 0 → find_id (id ++ rest) ≡ length id
unfolding find_id
find_id-append [] rest h e = e
find_id-append (c ∷ id) rest (p, h) e = rw p (ap suc (find_id-append id rest h e))

-- A round at a word.
word_round :
    (fuel state : ℕ) (name : Bytes) (c : ℕ) (id rest : Bytes)
    → All IsIdByte (c ∷ id)
    → find_id rest ≡ 0
    → interpret_from (suc fuel) state name (c ∷ id ++ rest) ≡ (
        if is_type (c ∷ id)
        then (if state == 0 || state == 1 then interpret_from fuel 1 name rest else halt panic)
        else if state == 1 || state == 2
        then interpret_from fuel 3 (c ∷ id ++ rest) rest
        else halt panic)
unfolding interpret_from
word_round fuel state name c id rest (p, h) e =
    let n : find_id (c ∷ id ++ rest) ≡ suc (length id) = find_id-append (c ∷ id) rest (p, h) e in
    let zero_byte : (c == 0) ≡ false = ground arith in
    let white : is_whitespace c ≡ false = ground arith in
    let star : (c == b'*') ≡ false = ground arith in
    let bracket : (c == b'[') ≡ false = ground arith in
    rw (zero_byte, white, star, bracket, p, n, take-append {0} id rest, drop-append {0} id rest)
      refl

-- A type, a blank and a name, in front of what does not belong to the name.
declared :
    (fuel : ℕ) (c : ℕ) (id : Bytes) (d : ℕ) (name rest : Bytes)
    → All IsIdByte (c ∷ id)
    → All IsIdByte (d ∷ name)
    → is_type (c ∷ id) ≡ true
    → is_type (d ∷ name) ≡ false
    → find_id rest ≡ 0
    → interpret_from (suc (suc (suc fuel))) 0 [] (c ∷ id ++ (b' ' ∷ d ∷ (name ++ rest)))
      ≡ interpret_from fuel 3 (d ∷ name ++ rest) rest
declared fuel c id d name rest h k t u e =
    word_round (suc (suc fuel)) 0 [] c id (b' ' ∷ d ∷ (name ++ rest)) h (unfold find_id in refl)
    ∙ rw t (unfold interpret_from in refl)
    ∙ word_round fuel 1 [] d name rest k e
    ∙ rw u refl

-- In front of a bracket the loop never ends.
starves :
    (fuel : ℕ) (name s : Bytes) (g : Cc2Globals)
    → interpret_from fuel 3 name (b'[' ∷ s) g ≡ stop out_of_fuel
unfolding interpret_from
starves zero name s g = refl
starves (suc fuel) name s g = starves fuel name s g

module _ (c : ℕ) (id : Bytes) (d : ℕ) (name : Bytes) (h : All IsIdByte (c ∷ id))
    (k : All IsIdByte (d ∷ name)) (t : is_type (c ∷ id) ≡ true)
    (u : is_type (d ∷ name) ≡ false) where
  array_starves :
      (rest : Bytes) (fuel : ℕ) (g : Cc2Globals)
      → interpret_from fuel 0 [] (c ∷ id ++ (b' ' ∷ d ∷ (name ++ b'[' ∷ rest))) g ≡ stop out_of_fuel
  unfolding interpret_from find_id
  array_starves rest zero g = refl
  array_starves rest (suc zero) g =
      let after_type = b' ' ∷ d ∷ (name ++ b'[' ∷ rest) in
      let e : interpret_from (suc zero) 0 [] (c ∷ id ++ after_type) ≡ halt out_of_fuel =
        word_round zero 0 [] c id after_type h refl ∙ rw t refl in
      ap (λ (m : C2 Bytes). m g) e
  array_starves rest (suc (suc zero)) g =
      let after_type = b' ' ∷ d ∷ (name ++ b'[' ∷ rest) in
      let e : interpret_from (suc (suc zero)) 0 [] (c ∷ id ++ after_type) ≡ halt out_of_fuel =
        word_round (suc zero) 0 [] c id after_type h refl ∙ rw t refl in
      ap (λ (m : C2 Bytes). m g) e
  array_starves rest (suc (suc (suc fuel))) g =
      ap (λ (m : C2 Bytes). m g) (declared fuel c id d name (b'[' ∷ rest) h k t u refl)
      ∙ starves fuel (d ∷ name ++ b'[' ∷ rest) rest g

  enough :
      suc (suc (suc (suc (length id + length name)))) ≡ length (c ∷ id ++ (b' ' ∷ d ∷ name)) + 1
  enough = omega (arith, length-append {0} id (b' ' ∷ d ∷ name))

  declared_name :
      (g : Cc2Globals)
      → interpret_from
          (suc (suc (suc (suc (length id + length name)))))
          0
          []
          (c ∷ id ++ (b' ' ∷ d ∷ (name ++ [])))
          g
        ≡ done (d ∷ name ++ []) g
  declared_name g =
      ap (λ (m : C2 Bytes). m g)
        (declared (suc (length id + length name)) c id d name [] h k t u (unfold find_id in refl))
      ∙ unfold interpret_from in refl

-- On a type, a blank and a name the result is the name. With a bracket behind the name the loop does
-- not end: it starves on every fuel.
pub interpret_type-declaration :
    (c : ℕ) (id : Bytes) (d : ℕ) (name : Bytes) (g : Cc2Globals)
    → All IsIdByte (c ∷ id)
    → All IsIdByte (d ∷ name)
    → is_type (c ∷ id) ≡ true
    → is_type (d ∷ name) ≡ false
    → (interpret_type (c ∷ id ++ (b' ' ∷ d ∷ name)) g ≡ done (d ∷ name) g)
      × ((fuel : ℕ) (rest : Bytes)
          → interpret_from fuel 0 [] (c ∷ id ++ (b' ' ∷ d ∷ (name ++ b'[' ∷ rest))) g
            ≡ stop out_of_fuel)
unfolding interpret_type
interpret_type-declaration c id d name g h k t u =
    let named = declared_name c id d name h k t u g in
    let e =
      subst
        (λ (s : Bytes).
          interpret_from (suc (suc (suc (suc (length id + length name))))) 0 []
            (c ∷ id ++ (b' ' ∷ d ∷ s)) g
          ≡ done (d ∷ s) g)
        (append-nil name) named in
    (
      ap (λ n. interpret_from n 0 [] (c ∷ id ++ (b' ' ∷ d ∷ name)) g)
            (sym (enough c id d name h k t u))
          ∙ e,
      λ fuel rest. array_starves c id d name h k t u rest fuel g,
    )
