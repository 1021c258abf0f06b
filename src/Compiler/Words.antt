-- ===== src/Compiler/Words.antt =====
-- attic/gstaging.c: the tokens of `get_token2` that are words between white space.
use mathlib.Core.List.{append_assoc, append-nil}
use asmc.Prelude.{ℕ, true, false, [], ◌∷◌, ◌++◌, ◌≡◌, ◌≢◌, refl, sym, ap, ◌∙◌, arith, All}
use asmc.Cstring.{Bytes}
use asmc.Compiler.Token.{is_whitespace, in_code, read_token}

abbrev pub IsWhite : ℕ → Type 0
IsWhite c = is_whitespace c ≡ true

-- A byte of a word: no white space, and it begins neither a comment nor a literal.
abbrev pub IsWordByte : ℕ → Type 0
IsWordByte c = (is_whitespace c ≡ false) × (c ≢ b'#') × (c ≢ b'"') × (c ≢ b'\'')

white_step :
    (c : ℕ) (s : Bytes) → IsWhite c → read_token in_code [] (c ∷ s) ≡ read_token in_code [] s
unfolding read_token
white_step c s h = rw h refl

word_step :
    (token : Bytes) (c : ℕ) (s : Bytes)
    → IsWordByte c
    → read_token in_code token (c ∷ s) ≡ read_token in_code (token ++ c ∷ []) s
unfolding read_token
word_step token c s h = ground arith

word_ends :
    (x : ℕ) (token : Bytes) (c : ℕ) (s : Bytes)
    → IsWhite c
    → read_token in_code (x ∷ token) (c ∷ s) ≡ (x ∷ token, s)
unfolding read_token
word_ends x token c s h = rw h refl

word_from :
    (x : ℕ) (token word : Bytes) (c : ℕ) (rest : Bytes)
    → All IsWordByte word
    → IsWhite c
    → read_token in_code (x ∷ token) (word ++ c ∷ rest) ≡ (x ∷ (token ++ word), rest)
word_from x token [] c rest h k =
    word_ends x token c rest k ∙ ap (λ t. (x ∷ t, rest)) (sym (append-nil token))
word_from x token (y ∷ word) c rest (hy, h) k =
    word_step (x ∷ token) y (word ++ c ∷ rest) hy
    ∙ word_from x (token ++ y ∷ []) word c rest h k
    ∙ ap (λ t. (x ∷ t, rest)) (append_assoc token (y ∷ []) word)

-- White space before a word is skipped, and the word is read up to the white space that ends it,
-- of which one byte is read too.
pub read_token-word :
    (before : Bytes) (x : ℕ) (word : Bytes) (c : ℕ) (rest : Bytes)
    → All IsWhite before
    → All IsWordByte (x ∷ word)
    → IsWhite c
    → read_token in_code [] (before ++ x ∷ word ++ c ∷ rest) ≡ (x ∷ word, rest)
read_token-word [] x word c rest b (hx, h) k =
    word_step [] x (word ++ c ∷ rest) hx ∙ word_from x [] word c rest h k
read_token-word (y ∷ before) x word c rest (hy, b) h k =
    white_step y (before ++ x ∷ word ++ c ∷ rest) hy ∙ read_token-word before x word c rest b h k
