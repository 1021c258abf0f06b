-- ===== src/Numbers/Numeral.antt =====
-- attic/staging.c: `decode_number2` reads exactly the decimal and hexadecimal numerals, modulo 2 ^ 32.
use asmc.Prelude.{
  ℕ, ◌+◌, ◌-◌, ◌*◌, ◌<◌, Bool, true, false, ◌&&◌, Option, none, some, List, [], ◌∷◌, ◌≡◌, ◌≢◌, ◌↔◌,
  ◌⊎◌, inl, inr, refl, sym, ap, ◌∙◌, arith, ltb, ◌==◌, if◌then◌else◌, All, Bool-cases, Option-cases,
}
use mathlib.Core.List.{map}
use asmc.Cstring.{Bytes}
use asmc.Globals.{word}
use asmc.Numbers.{digit, base, decode_digits, decode_number}

-- The character that is written for a digit.
abbrev pub digit_char : ℕ → ℕ
digit_char d = if ltb d 10 then b'0' + d else b'a' + d - 10

-- The number that digits stand for, the most significant first.
abbrev pub value : ℕ → ℕ → List ℕ → ℕ
value b acc [] = acc
value b acc (d ∷ ds) = value b (acc * b + d) ds

-- `ds` are digits in the base.
abbrev pub Digits : Bool → List ℕ → Type 0
Digits is_decimal = All λ d. d < base is_decimal

digit_lem : (dec : Bool) (d : ℕ) → d < base dec → digit dec (digit_char d) ≡ some d
unfolding digit
digit_lem true d h = ground arith
digit_lem false d h = ground arith

digit_inv : (dec : Bool) (c d : ℕ) → digit dec c ≡ some d → (d < base dec) × (c ≡ digit_char d)
unfolding digit
digit_inv true c d e = ground arith
digit_inv false c d e = ground arith

step_word :
    (dec : Bool) (acc d : ℕ) → word (word (word acc * base dec) + d) ≡ word (acc * base dec + d)
step_word true acc d = omega arith
step_word false acc d = omega arith

decode_digits_cons :
    (dec seen : Bool) (num c d : ℕ) (s : Bytes)
    → digit dec c ≡ some d
    → decode_digits dec seen num (c ∷ s)
      ≡ decode_digits dec true (word (word (num * base dec) + d)) s
unfolding decode_digits
decode_digits_cons dec seen num c d s e = ground arith

decode_digits_bad :
    (dec seen : Bool) (num c : ℕ) (s : Bytes)
    → digit dec c ≡ none
    → decode_digits dec seen num (c ∷ s) ≡ none
unfolding decode_digits
decode_digits_bad dec seen num c s e = ground arith

decode_digits-seen :
    (dec : Bool) (acc : ℕ) (ds : List ℕ)
    → Digits dec ds
    → decode_digits dec true (word acc) (map digit_char ds) ≡ some (word (value (base dec) acc ds))
decode_digits-seen dec acc [] h = unfold decode_digits in refl
decode_digits-seen dec acc (d ∷ ds) (hd, h) =
    decode_digits_cons dec true (word acc) (digit_char d) d (map digit_char ds) (digit_lem dec d hd)
    ∙ ap (λ n. decode_digits dec true n (map digit_char ds)) (step_word dec acc d)
    ∙ decode_digits-seen dec (acc * base dec + d) ds h

decode_digits-map :
    (dec : Bool) (d : ℕ) (ds : List ℕ)
    → Digits dec (d ∷ ds)
    → decode_digits dec false 0 (map digit_char (d ∷ ds))
      ≡ some (word (value (base dec) 0 (d ∷ ds)))
decode_digits-map dec d ds (hd, h) =
    decode_digits_cons dec false 0 (digit_char d) d (map digit_char ds) (digit_lem dec d hd)
    ∙ ap (λ n. decode_digits dec true n (map digit_char ds)) (step_word dec 0 d)
    ∙ decode_digits-seen dec (0 * base dec + d) ds h

-- The text is a nonempty list of digits in the base, and `n` is their value modulo 2 ^ 32.
pub record IsNumeral (dec : Bool) (s : Bytes) (n : ℕ) : Type 0 where
  pub first : ℕ
  pub others : List ℕ
  pub digits : Digits dec (first ∷ others)
  pub spells : s ≡ map digit_char (first ∷ others)
  pub value_is : n ≡ word (value (base dec) 0 (first ∷ others))

record Read (dec : Bool) (acc : ℕ) (s : Bytes) (n : ℕ) : Type 0 where
  ds : List ℕ
  ds_ok : Digits dec ds
  ds_spell : s ≡ map digit_char ds
  ds_value : n ≡ word (value (base dec) acc ds)

decode_digits-Read :
    (dec : Bool) (acc : ℕ) (s : Bytes) (n : ℕ)
    → decode_digits dec true (word acc) s ≡ some n
    → Read dec acc s n
decode_digits-Read dec acc [] n e = record {
  ds = [];
  ds_ok = tt;
  ds_spell = refl;
  ds_value = unfold decode_digits in ground arith;
}
decode_digits-Read dec acc (c ∷ s) n e = elim (Option-cases (digit dec c)) [
  | inl b ↦
      let p : ◌≡◌ {A = Option ℕ} none (some n) =
        sym (decode_digits_bad dec true (word acc) c s b) ∙ e in
      absurd (ground arith)
  | inr (d, b) ↦
      let (hd, hc) = digit_inv dec c d b in
      let e' : decode_digits dec true (word (acc * base dec + d)) s ≡ some n =
        ap (λ m. decode_digits dec true m s) (sym (step_word dec acc d))
        ∙ sym (decode_digits_cons dec true (word acc) c d s b)
        ∙ e in
      let r = decode_digits-Read dec (acc * base dec + d) s n e' in
      record {
        ds = d ∷ r.ds;
        ds_ok = (hd, r.ds_ok);
        ds_spell = rw (hc, r.ds_spell);
        ds_value = r.ds_value;
      }
]

pub decode_digits-IsNumeral :
    (dec : Bool) (s : Bytes) (n : ℕ) → decode_digits dec false 0 s ≡ some n → IsNumeral dec s n
decode_digits-IsNumeral dec [] n e = unfold decode_digits in absurd (ground arith)
decode_digits-IsNumeral dec (c ∷ s) n e = elim (Option-cases (digit dec c)) [
  | inl b ↦
      let p : ◌≡◌ {A = Option ℕ} none (some n) = sym (decode_digits_bad dec false 0 c s b) ∙ e in
      absurd (ground arith)
  | inr (d, b) ↦
      let (hd, hc) = digit_inv dec c d b in
      let e' : decode_digits dec true (word (0 * base dec + d)) s ≡ some n =
        ap (λ m. decode_digits dec true m s) (sym (step_word dec 0 d))
        ∙ sym (decode_digits_cons dec false 0 c d s b)
        ∙ e in
      let r = decode_digits-Read dec (0 * base dec + d) s n e' in
      record {
        first = d;
        others = r.ds;
        digits = (hd, r.ds_ok);
        spells = rw (hc, r.ds_spell);
        value_is = r.ds_value;
      }
]

-- The texts that `decode_number` accepts: decimal digits, or "0x" and hexadecimal digits.
pub data Spells (s : Bytes) (n : ℕ) : Type 0 where
  decimal : IsNumeral true s n → Spells s n
  hexadecimal : (t : Bytes) → s ≡ b'0' ∷ b'x' ∷ t → IsNumeral false t n → Spells s n

decode_number_hex : (t : Bytes) → decode_number (b'0' ∷ b'x' ∷ t) ≡ decode_digits false false 0 t
unfolding decode_number
decode_number_hex t = refl

-- Whether the text begins with "0x".
decode_number_cases :
    (s : Bytes)
    → ((t : Bytes) × (s ≡ b'0' ∷ b'x' ∷ t)) ⊎ (decode_number s ≡ decode_digits true false 0 s)
unfolding decode_number
decode_number_cases [] = inr refl
decode_number_cases (c ∷ []) = inr refl
decode_number_cases (c ∷ d ∷ s) = elim (Bool-cases (c == b'0' && d == b'x')) [
  | inl p ↦ inl (s, ground arith)
  | inr p ↦ inr (rw p)
]

no_prefix :
    (d : ℕ) (ds : List ℕ) (t : Bytes)
    → Digits true (d ∷ ds)
    → map digit_char (d ∷ ds) ≢ b'0' ∷ b'x' ∷ t
no_prefix d [] t h e = ground arith
no_prefix d (d' ∷ ds) t (h, (h', hs)) e = ground arith

decode_number-Spells : (s : Bytes) (n : ℕ) → decode_number s ≡ some n → Spells s n
decode_number-Spells s n e = elim (decode_number_cases s) [
  | inr p ↦ decimal (decode_digits-IsNumeral true s n (sym p ∙ e))
  | inl (t, p) ↦
      hexadecimal t p (
        decode_digits-IsNumeral false t n
          (sym (decode_number_hex t) ∙ ap decode_number (sym p) ∙ e))
]

pub IsNumeral-decode_digits :
    (dec : Bool) (s : Bytes) (n : ℕ) → IsNumeral dec s n → decode_digits dec false 0 s ≡ some n
IsNumeral-decode_digits dec s n r =
    ap (decode_digits dec false 0) r.spells
    ∙ decode_digits-map dec r.first r.others r.digits
    ∙ ap some (sym r.value_is)

Spells-decode_number : (s : Bytes) (n : ℕ) → Spells s n → decode_number s ≡ some n
Spells-decode_number s n (decimal r) = elim (decode_number_cases s) [
  | inr p ↦ p ∙ IsNumeral-decode_digits true s n r
  | inl (t, p) ↦ absurd (no_prefix r.first r.others t r.digits (sym r.spells ∙ p))
]
Spells-decode_number s n (hexadecimal t p r) =
    ap decode_number p ∙ decode_number_hex t ∙ IsNumeral-decode_digits false t n r

-- `decode_number` succeeds with `n` exactly on the strings that spell `n` modulo 2 ^ 32: decimal
-- numerals, and hexadecimal ones in lower case behind "0x".
pub decode_number_iff : (s : Bytes) (n : ℕ) → (decode_number s ≡ some n) ↔ Spells s n
decode_number_iff s n = (decode_number-Spells s n, Spells-decode_number s n)
