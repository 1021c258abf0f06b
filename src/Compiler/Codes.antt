-- ===== src/Compiler/Codes.antt =====
-- attic/gstaging.c: the code that `push_expr2` writes for an operand, and what it does when it runs.
use asmc.Prelude.{
  ℕ, ◌+◌, ◌*◌, ◌/◌, ◌%◌, ◌<◌, ◌≤◌, true, some, [], ◌∷◌, ◌++◌, ◌≡◌, leb, sym, refl, ap, arith, ◌==◌,
  length, get_elem?, drop,
}
use asmc.Cstring.{Bytes}
use asmc.Globals.{word}
use asmc.Globals.Emit.{le_bytes, from_le, from_le-le_bytes}
use asmc.Compiler.Machine.{Machine, Functions, push_word, advance, further, run}

-- The code of the operands; `pos` and `arity` count words.
abbrev pub immediate_code : ℕ → Bytes
immediate_code val = 0x68 ∷ le_bytes val

abbrev pub slot_code : ℕ → Bytes
slot_code pos = 0xff ∷ 0xb4 ∷ 0x24 ∷ le_bytes (word (4 * pos))

abbrev pub address_code : ℕ → Bytes
address_code pos = 0x8d ∷ 0x84 ∷ 0x24 ∷ le_bytes (word (4 * pos)) ++ 0x50 ∷ []

abbrev pub load_code : ℕ → Bytes
load_code loc = 0xb8 ∷ le_bytes loc ++ 0xff ∷ 0x30 ∷ []

abbrev pub call_code : ℕ → ℕ → Bytes
call_code rel arity = 0xe8 ∷ le_bytes rel ++ 0x81 ∷ 0xc4 ∷ le_bytes (word (4 * arity)) ++ 0x50 ∷ []

-- The end of a statement, with `n` temporaries.
abbrev pub discard_code : ℕ → Bytes
discard_code n = 0x81 ∷ 0xc4 ∷ le_bytes (word (4 * n))

-- The machine behind the address of a slot.
abbrev pub with_address : ℕ → Machine → Machine
with_address pos m =
    let address = word (m.esp + 4 * pos) in
    push_word address (record (advance 1 (advance 7 m)) { eax = address })

-- The machine behind the value of a variable in memory.
abbrev pub with_load : ℕ → Machine → Machine
with_load loc m =
    push_word (m.memory (word loc)) (record (advance 2 (advance 5 m)) { eax = word loc })

-- The machine behind a call, from the machine in which the function comes back.
abbrev pub with_result : ℕ → Machine → Machine
with_result arity k = push_word k.eax (
    advance 1 (record (advance 6 k) { esp = word (k.esp + 4 * arity); stack = drop arity k.stack }))

-- What the codes do, whatever code stands behind them.
module _ (functions : Functions) where
  pub immediate-run :
      (val : ℕ) (m : Machine) (fuel : ℕ) (t : Bytes)
      → run functions (further 1 fuel) (immediate_code val ++ t) m
        ≡ run functions fuel t (push_word (word val) (advance 5 m))
  unfolding run
  immediate-run val m fuel t =
      ap (λ x. run functions fuel t (push_word x (advance 5 m))) (from_le-le_bytes val)

  pub slot-run :
      (pos x : ℕ) (m : Machine) (fuel : ℕ) (t : Bytes)
      → pos < 1024
      → get_elem? m.stack pos ≡ some x
      → run functions (further 1 fuel) (slot_code pos ++ t) m
        ≡ run functions fuel t (push_word x (advance 7 m))
  unfolding run
  slot-run pos x m fuel t l e =
      let imm : from_le (le_bytes (word (4 * pos))) ≡ 4 * pos = omega arith in
      let whole : (4 * pos) % 4 == 0 ≡ true = ground arith in
      let place : (4 * pos) / 4 ≡ pos = omega arith in rw (imm, whole, place, e) refl

  pub address-run :
      (pos : ℕ) (m : Machine) (fuel : ℕ) (t : Bytes)
      → run functions (further 2 fuel) (address_code pos ++ t) m
        ≡ run functions fuel t (with_address pos m)
  unfolding run
  address-run pos m fuel t =
      let address : word (m.esp + from_le (le_bytes (word (4 * pos)))) ≡ word (m.esp + 4 * pos) =
        omega (arith, from_le-le_bytes (word (4 * pos))) in
      rw address refl

  pub load-run :
      (loc : ℕ) (m : Machine) (fuel : ℕ) (t : Bytes)
      → run functions (further 2 fuel) (load_code loc ++ t) m
        ≡ run functions fuel t (with_load loc m)
  unfolding run
  load-run loc m fuel t =
      ap
        (λ x.
          run functions fuel t
            (push_word (m.memory x) (record (advance 2 (advance 5 m)) { eax = x })))
        (from_le-le_bytes loc)

  pub call-run :
      (rel arity : ℕ) (m k : Machine) (fuel : ℕ) (t : Bytes)
      → arity < 1024
      → k ≡ functions (word (m.eip + 5 + rel)) (advance 5 m)
      → arity ≤ length k.stack
      → run functions (further 3 fuel) (call_code rel arity ++ t) m
        ≡ run functions fuel t (with_result arity k)
  unfolding run
  call-run rel arity m k fuel t l e b =
      let target : word (word (m.eip + 5) + from_le (le_bytes rel)) ≡ word (m.eip + 5 + rel) =
        omega (arith, from_le-le_bytes rel) in
      let size : from_le (le_bytes (word (4 * arity))) ≡ 4 * arity = omega arith in
      let whole : (4 * arity) % 4 == 0 ≡ true = ground arith in
      let count : (4 * arity) / 4 ≡ arity = omega arith in
      let enough : leb arity (length k.stack) ≡ true = ground arith in
      rw (target, sym e, size, whole, count, enough) refl

  pub discard-run :
      (n : ℕ) (m : Machine) (fuel : ℕ) (t : Bytes)
      → n ≤ 1024
      → n ≤ length m.stack
      → run functions (further 1 fuel) (discard_code n ++ t) m
        ≡ run functions fuel t
            (record (advance 6 m) { esp = word (m.esp + 4 * n); stack = drop n m.stack })
  unfolding run
  discard-run n m fuel t l b =
      let size : from_le (le_bytes (word (4 * n))) ≡ 4 * n = omega arith in
      let whole : (4 * n) % 4 == 0 ≡ true = ground arith in
      let count : (4 * n) / 4 ≡ n = omega arith in
      let enough : leb n (length m.stack) ≡ true = ground arith in
      rw (size, whole, count, enough) refl
