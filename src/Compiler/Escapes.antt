-- ===== src/Compiler/Escapes.antt =====
-- attic/gstaging.c: `emit_escaped_string2` emits what a literal stands for.
use asmc.Prelude.{
  ℕ, Bool, true, false, [], ◌∷◌, ◌++◌, ◌≡◌, refl, ap, ◌∙◌, inl, inr, arith, ◌==◌, if◌then◌else◌,
  Bool-cases,
}
use asmc.Cstring.{Bytes}
use asmc.Run.{◌>>◌}
use asmc.Globals.{Globals, M, emit, emit_str}
use asmc.Compiler.Token.{escaped, emit_escaped, emit_escaped_string}

-- The byte as it is written in a literal: five of them behind a backslash.
abbrev pub quoted_byte : ℕ → Bytes
quoted_byte c =
    if c == b'\n'
    then b'\\' ∷ b'n' ∷ []
    else if c == b'\t'
    then b'\\' ∷ b't' ∷ []
    else if c == 0
    then b'\\' ∷ b'0' ∷ []
    else if c == b'\\'
    then b'\\' ∷ b'\\' ∷ []
    else if c == b'"'
    then b'\\' ∷ b'"' ∷ []
    else c ∷ []

abbrev pub quoted : Bytes → Bytes
quoted [] = b'"' ∷ []
quoted (c ∷ s) = quoted_byte c ++ quoted s

escape_step :
    (d : ℕ) (s : Bytes) (g : Globals)
    → emit_escaped (b'\\' ∷ d ∷ s) g ≡ (emit (escaped d) >> emit_escaped s) g
unfolding emit_escaped
escape_step d s g = refl

-- The list has a first element.
abbrev IsCons : Bytes → Type 0
IsCons [] = ⊥
IsCons (c ∷ s) = Unit

plain_step :
    (c : ℕ) (s : Bytes) (g : Globals)
    → (c == b'"') ≡ false
    → (c == b'\\') ≡ false
    → IsCons s
    → emit_escaped (c ∷ s) g ≡ (emit c >> emit_escaped s) g
unfolding emit_escaped
plain_step c [] g n m h = elim h [ ]
plain_step c (d ∷ s) g n m h = rw (n, m) refl

if_IsCons :
    (b : Bool) (s t u : Bytes)
    → IsCons (s ++ u)
    → IsCons (t ++ u)
    → IsCons ((if b then s else t) ++ u)
if_IsCons true s t u h k = h
if_IsCons false s t u h k = k

byte-IsCons : (c : ℕ) (t : Bytes) → IsCons (quoted_byte c ++ t)
byte-IsCons c t = if_IsCons (c == b'\n') _ _ t tt (
    if_IsCons (c == b'\t') _ _ t tt (
      if_IsCons (c == 0) _ _ t tt
        (if_IsCons (c == b'\\') _ _ t tt (if_IsCons (c == b'"') _ _ t tt tt))))

quoted-IsCons : (s : Bytes) → IsCons (quoted s)
quoted-IsCons [] = tt
quoted-IsCons (c ∷ s) = byte-IsCons c (quoted s)

special_step :
    (c d : ℕ) (t : Bytes) (g : Globals)
    → quoted_byte c ≡ b'\\' ∷ d ∷ []
    → escaped d ≡ c
    → emit_escaped (quoted_byte c ++ t) g ≡ (emit c >> emit_escaped t) g
special_step c d t g p q =
    ap (λ r. emit_escaped (r ++ t) g) p
    ∙ escape_step d t g
    ∙ ap (λ x. (emit x >> emit_escaped t) g) q

byte_step :
    (c : ℕ) (t : Bytes) (g : Globals)
    → IsCons t
    → emit_escaped (quoted_byte c ++ t) g ≡ (emit c >> emit_escaped t) g
unfolding escaped
byte_step c t g h = elim (Bool-cases (c == b'\n')) [
  | inl p ↦ special_step c b'n' t g (rw p refl) (ground arith)
  | inr p ↦ elim (Bool-cases (c == b'\t')) [
    | inl q ↦ special_step c b't' t g (rw (p, q) refl) (ground arith)
    | inr q ↦ elim (Bool-cases (c == 0)) [
      | inl r ↦ special_step c b'0' t g (rw (p, q, r) refl) (ground arith)
      | inr r ↦ elim (Bool-cases (c == b'\\')) [
        | inl u ↦ special_step c b'\\' t g (rw (p, q, r, u) refl) (ground arith)
        | inr u ↦ elim (Bool-cases (c == b'"')) [
          | inl v ↦ special_step c b'"' t g (rw (p, q, r, u, v) refl) (ground arith)
          | inr v ↦ rw (p, q, r, u, v) (plain_step c t g v u h)
        ]
      ]
    ]
  ]
]

after_emit :
    (c : ℕ) (k k' : M (Unit {0}))
    → ((g : Globals) → k g ≡ k' g)
    → (g : Globals) → (emit c >> k) g ≡ (emit c >> k') g
unfolding emit
after_emit c k k' h g = h _

quoted_lem : (s : Bytes) (g : Globals) → emit_escaped (quoted s) g ≡ emit_str s g
unfolding emit_str emit
quoted_lem [] g = unfold emit_escaped in refl
quoted_lem (c ∷ s) g =
    byte_step c (quoted s) g (quoted-IsCons s) ∙ after_emit c _ _ (quoted_lem s) g

-- A literal that is written with the escapes of the language is emitted as the bytes it stands for.
pub emit_escaped_string-quoted :
    (s : Bytes) (g : Globals) → emit_escaped_string (b'"' ∷ quoted s) g ≡ emit_str s g
unfolding emit_escaped_string
emit_escaped_string-quoted s g = quoted_lem s g
