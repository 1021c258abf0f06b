-- ===== src/Cc2/Types.antt =====
-- cc/cc2.c: `find_id`, and `interpret_type` on the text of a declaration.
use asmc.Prelude.{
  ℕ, zero, suc, ◌+◌, Bool, ◌||◌, [], ◌∷◌, ◌==◌, if◌then◌else◌, codes, length, take, drop,
}
use asmc.Cstring.{Bytes}
use asmc.Run.{pure, ◌>>◌, halt, panic, out_of_fuel, assert}
use asmc.Cc2.Shared.{is_whitespace, is_id, strncmp2}
use asmc.Cc2.Tables.{C2}

-- The number of bytes in front of the result.
unfoldable pub find_id : Bytes → ℕ
find_id [] = 0
find_id (c ∷ s) = let rest = find_id s in if is_id c then suc rest else 0

-- The words that are types.
abbrev pub is_type : Bytes → Bool
is_type id =
    strncmp2 id (codes "unsigned")
    || (strncmp2 id (codes "char") || (strncmp2 id (codes "int") || strncmp2 id (codes "void")))

-- The loop, with the `state`, and the text from `name_begin` on. The result is the string at
-- `name_begin`. In front of a "[" behind the name the loop does not move.
unfoldable pub interpret_from : ℕ → ℕ → Bytes → Bytes → C2 Bytes
interpret_from zero state name decl = halt out_of_fuel
interpret_from (suc fuel) state name [] = do assert (state == 3); pure name
interpret_from (suc fuel) state name (c ∷ s) =
    let decl = c ∷ s in
    let again = interpret_from fuel in
    let id = take (find_id decl) decl in
    let behind_id = drop (find_id decl) decl in
    if c == 0
    then (do assert (state == 3); pure name)
    else if is_whitespace c
    then again state name s
    else if c == b'*'
    then (if state == 1 then again 2 name s else halt panic)
    else if c == b'['
    then (if state == 3 then again state name decl else halt panic)
    else if is_id c
    then (if is_type id
        then (if state == 0 || state == 1 then again 1 name behind_id else halt panic)
        else if state == 1 || state == 2
        then again 3 decl behind_id
        else halt panic)
    else halt panic

-- Every round but those in front of a "[" takes a byte.
unfoldable pub interpret_type : Bytes → C2 Bytes
unfolding interpret_from
interpret_type decl = interpret_from (length decl + 1) 0 [] decl
