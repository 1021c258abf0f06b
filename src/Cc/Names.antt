-- ===== src/Cc/Names.antt =====
-- cc/cc.c: comparing a name with a string, and with a piece of the text.
use asmc.Prelude.{
  ℕ, zero, suc, Bool, true, false, ◌&&◌, [], ◌∷◌, ◌≡◌, refl, arith, ◌==◌, if◌then◌else◌, length,
}
use asmc.Cstring.{Bytes, IsCstring, strlen}

-- `strncmp(s1, s2, n) == 0`
unfoldable pub agree : ℕ → Bytes → Bytes → Bool
agree zero s1 s2 = true
agree (suc n) [] [] = true
agree (suc n) [] (y ∷ s2) = y == 0
agree (suc n) (x ∷ s1) [] = x == 0
agree (suc n) (x ∷ s1) (y ∷ s2) =
    let rest = agree n s1 s2 in if x == y then (if x == 0 then true else rest) else false

-- `strcmp(s1, s2) == 0`
unfoldable pub equal : Bytes → Bytes → Bool
equal [] [] = true
equal [] (y ∷ s2) = false
equal (x ∷ s1) [] = false
equal (x ∷ s1) (y ∷ s2) = let rest = equal s1 s2 in if x == y then rest else false

-- The piece of the text is `piece`, and `b2` a string.
unfoldable pub strncmp2 : Bytes → Bytes → Bool
unfolding agree
strncmp2 piece b2 = let len = strlen b2 in length piece == len && agree len piece b2

-- On a C string `strncmp2` gives what `strcmp` would give for the piece as a string.
pub strncmp2-equal : (piece name : Bytes) → IsCstring name → strncmp2 piece name ≡ equal piece name
unfolding strncmp2 agree equal
strncmp2-equal [] [] h = refl
strncmp2-equal [] (y ∷ name) h = ground arith
strncmp2-equal (x ∷ piece) [] h = ground arith
strncmp2-equal (x ∷ piece) (y ∷ name) (hy, h) = ground (arith, strncmp2-equal piece name h)

pub equal_refl : (s : Bytes) → equal s s ≡ true
unfolding equal
equal_refl [] = refl
equal_refl (x ∷ s) = ground (arith, equal_refl s)

pub equal→same : (s t : Bytes) → equal s t ≡ true → s ≡ t
unfolding equal
equal→same [] [] e = refl
equal→same [] (y ∷ t) e = absurd (ground arith)
equal→same (x ∷ s) [] e = absurd (ground arith)
equal→same (x ∷ s) (y ∷ t) e =
    let p : x ≡ y = ground arith in let q = equal→same s t (ground arith) in rw (p, q)
