-- ===== src/Stdlib/Ctype.antt =====
-- diskfs/stdlib/ctype.h
use asmc.Prelude.{ℕ, ◌+◌, ◌-◌, Bool, ◌&&◌, ◌||◌, leb, ◌==◌, if◌then◌else◌, ◌≡◌, arith}

abbrev pub isspace : ℕ → Bool
isspace c = (leb 9 c && leb c 13) || c == 32

abbrev pub isupper : ℕ → Bool
isupper c = leb b'A' c && leb c b'Z'

abbrev pub islower : ℕ → Bool
islower c = leb b'a' c && leb c b'z'

-- As the code has it.
abbrev pub isdigit : ℕ → Bool
isdigit c = leb b'a' c && leb c b'z'

abbrev pub isalpha : ℕ → Bool
isalpha c = islower c || isupper c

abbrev pub isalnum : ℕ → Bool
isalnum c = isalpha c || isdigit c

abbrev pub tolower : ℕ → ℕ
tolower ch = if leb b'A' ch && leb ch b'Z' then ch + b'a' - b'A' else ch

abbrev pub toupper : ℕ → ℕ
toupper ch = if leb b'a' ch && leb ch b'z' then ch + b'A' - b'a' else ch

-- `tolower` and `toupper` turn exactly the letters into letters of the one case and of the other, each
-- undoes the other up to the case, and `isalnum` accepts the letters and nothing else: no digit.
pub ctype-cases :
    (c : ℕ)
    → (islower (tolower c) ≡ isalpha c)
      × (isupper (toupper c) ≡ isalpha c)
      × (tolower (toupper c) ≡ tolower c)
      × (toupper (tolower c) ≡ toupper c)
      × (isalnum c ≡ isalpha c)
ctype-cases c = (ground arith, ground arith, ground arith, ground arith, ground arith)
