-- ===== src/Compiler/Measure.antt =====
-- attic/gstaging.c: how far the file is read. A token that is given back counts until it is taken again.
use mathlib.Core.Path.{subst}
use asmc.Prelude.{
  ℕ, suc, ◌+◌, ◌<◌, ◌≤◌, Bool, true, false, [], ◌∷◌, ◌++◌, ◌≡◌, refl, ◌∙◌, zero, arith, Bool-cases,
  inl, inr, length, ◌==◌, if◌then◌else◌,
}
use asmc.Cstring.{Bytes}
use asmc.Run.{Outcome, stop, done}
use asmc.Run.Keeps.{StepRelation, Keeps, Ends, Keeps-apply}
use asmc.Run.Ending.{Finished, panic-Finished}
use asmc.Run.Invariant.{Leads, Triple, triple, Triple-weaken}
use asmc.Globals.{Globals, M}
use asmc.Compiler.Token.{
  TokenState, in_code, in_comment, in_string, string_escape, in_char, char_escape, read_token,
  up_to_nul, token_read, get_token, give_back_token, nonempty, after_saved,
}
use asmc.Compiler.Driver.{begin_stage}
use asmc.Compiler.Steady.{Named, Slots, Steady, steady}

-- The slots keep their names, and a run stops for every reason but the want of fuel.
abbrev pub slots : StepRelation Globals
slots = record {
  Rel = Slots;
  rel_refl = λ g i l. l;
  rel_trans = λ g h k p q i l. q i (p i l);
  Allowed = Finished;
  panic_allowed = panic-Finished;
}

-- 1 for a token, 0 for the end of the file.
abbrev pub counted : Bytes → ℕ
counted [] = 0
counted (c ∷ s) = 1

abbrev waiting : Bool → Bytes → ℕ
waiting false s = 0
waiting true s = counted s

-- What is left of the file is at most `n`, also when a token is given back.
pub record Good (n : ℕ) (g : Globals) : Type 0 where
  pub named : Named g
  pub light : length g.input + waiting g.token_given_back g.token_buf ≤ n

-- The same behind a token that may yet be given back.
pub record Held (n : ℕ) (g : Globals) : Type 0 where
  pub named : Named g
  pub taken : g.token_given_back ≡ false
  pub light : length g.input + counted g.token_buf ≤ n

counted_one : (s : Bytes) → counted s ≤ 1
counted_one [] = omega arith
counted_one (c ∷ s) = omega arith

-- A token that is not empty takes a character of the file.
read_token-shorter :
    (state : TokenState) (token input : Bytes)
    → length (read_token state token input).1 + counted (up_to_nul (read_token state token input).0)
      ≤ length input + counted (up_to_nul token)
unfolding read_token
read_token-shorter state token [] = omega arith
read_token-shorter in_code token (x ∷ input) =
    let skip = read_token-shorter in_code token input in
    let comment = read_token-shorter in_comment token input in
    let save = read_token-shorter (after_saved x) (token ++ x ∷ []) input in
    let one = counted_one (up_to_nul (token ++ x ∷ [])) in ground arith
read_token-shorter in_comment token (x ∷ input) =
    let skip = read_token-shorter in_comment token input in
    let code = read_token-shorter in_code token input in ground arith
read_token-shorter in_string token (x ∷ input) =
    let save =
      read_token-shorter
        (if x == b'"' then in_code else if x == b'\\' then string_escape else in_string)
        (token ++ x ∷ []) input in
    let one = counted_one (up_to_nul (token ++ x ∷ [])) in omega arith
read_token-shorter string_escape token (x ∷ input) =
    let save = read_token-shorter (in_string) (token ++ x ∷ []) input in
    let one = counted_one (up_to_nul (token ++ x ∷ [])) in omega arith
read_token-shorter in_char token (x ∷ input) =
    let save =
      read_token-shorter
        (if x == b'\'' then in_code else if x == b'\\' then char_escape else in_char)
        (token ++ x ∷ []) input in
    let one = counted_one (up_to_nul (token ++ x ∷ [])) in omega arith
read_token-shorter char_escape token (x ∷ input) =
    let save = read_token-shorter (in_char) (token ++ x ∷ []) input in
    let one = counted_one (up_to_nul (token ++ x ∷ [])) in omega arith

-- The globals behind `get_token`.
abbrev pub next : Globals → Globals
next g =
    if g.token_given_back
    then record g { token_given_back = false }
    else token_read (read_token in_code [] g.input) g

pub get_token-next : (g : Globals) → get_token g ≡ done (next g).token_buf (next g)
unfolding get_token
get_token-next g = elim (Bool-cases g.token_given_back) [ inl e ↦ rw e refl | inr e ↦ rw e refl ]

pub next-Slots : (g : Globals) → Slots g (next g)
next-Slots g i l = elim (Bool-cases g.token_given_back) [ inl e ↦ rw e l | inr e ↦ rw e l ]

next-Named : (g : Globals) → Named g → Named (next g)
next-Named g n = elim (Bool-cases g.token_given_back) [
  | inl e ↦ rw e (record { symbols_named = n.symbols_named; vars_named = n.vars_named })
  | inr e ↦ rw e (record { symbols_named = n.symbols_named; vars_named = n.vars_named })
]

next-light :
    (n : ℕ) (g : Globals) → Good n g → length (next g).input + counted (next g).token_buf ≤ n
unfolding up_to_nul
next-light n g p =
    let l = p.light in
    let short = read_token-shorter in_code [] g.input in
    elim (Bool-cases g.token_given_back) [
      | inl e ↦ rw e (subst (λ b. length g.input + waiting b g.token_buf ≤ n) e p.light)
      | inr e ↦ rw e (omega arith)
    ]

pub next-taken : (g : Globals) → (next g).token_given_back ≡ false
next-taken g = elim (Bool-cases g.token_given_back) [ inl e ↦ rw e refl | inr e ↦ rw e refl ]

pub next-Held : (n : ℕ) (g : Globals) → Good n g → Held n (next g)
next-Held n g p = record {
  named = next-Named g p.named;
  taken = next-taken g;
  light = next-light n g p;
}

pub Held-Good : (n : ℕ) (g : Globals) → Held n g → Good n g
Held-Good n g p = record {
  named = p.named;
  light = let t = p.taken in let l = p.light in rw t (omega arith);
}

-- Behind a token that is not empty there is less of the file.
less_left :
    (n k : ℕ) (s : Bytes) → nonempty s ≡ true → k + counted s ≤ n → (m : ℕ) × (n ≡ suc m) × (k ≤ m)
less_left zero k [] e l = absurd (ground arith)
less_left zero k (c ∷ s) e l = absurd (omega arith)
less_left (suc n) k [] e l = absurd (ground arith)
less_left (suc n) k (c ∷ s) e l = (n, refl, omega arith)

pub Held-less :
    (n : ℕ) (g : Globals)
    → nonempty g.token_buf ≡ true
    → Held n g
    → (m : ℕ) × (n ≡ suc m) × Good m g
Held-less n g e p =
    let (m, q, l) = less_left n (length g.input) g.token_buf e p.light in
    (m, q, record { named = p.named; light = let t = p.taken in rw t (omega arith) })

pub Good-mono : (m n : ℕ) (g : Globals) → m ≤ n → Good m g → Good n g
Good-mono m n g l p = record { named = p.named; light = let w = p.light in omega arith }

pub Steady-Good : (n : ℕ) (g h : Globals) → Steady g h → Good n g → Good n h
Steady-Good n g h s p = record {
  named = s.keeps_named p.named;
  light = rw (s.same_input, s.same_back, s.same_buf) p.light;
}

pub Steady-Held : (n : ℕ) (g h : Globals) → Steady g h → Held n g → Held n h
Steady-Held n g h s p = record {
  named = s.keeps_named p.named;
  taken = s.same_back ∙ p.taken;
  light = rw (s.same_input, s.same_buf) p.light;
}

give_back-Leads : (n : ℕ) (g : Globals) → Held n g → Leads slots (Good n) g (give_back_token g)
unfolding give_back_token
give_back-Leads n g p = rw p.taken (
  record {
    named = record { symbols_named = p.named.symbols_named; vars_named = p.named.vars_named };
    light = p.light;
  },
  λ i l. l,
)

pub give_back-Triple : (n : ℕ) → Triple slots (Held n) (Good n) give_back_token
give_back-Triple n = triple (give_back-Leads n)

pub get_token-Triple : (n : ℕ) → Triple slots (Good n) (Held n) get_token
get_token-Triple n = triple λ g p. rw (get_token-next g) (next-Held n g p, next-Slots g)

Steady-Leads :
    {A : Type 0} (Q : Globals → Type 0) (g : Globals) (r : Outcome Globals A)
    → ((h : Globals) → Steady g h → Q h)
    → Ends (Steady g) Finished r
    → Leads slots Q g r
Steady-Leads Q g (done a h) w p = (w h p, p.keeps_slots)
Steady-Leads Q g (stop e) w p = p

pub stays_steady :
    {A : Type 0} {n : ℕ} {m : M A} → Keeps steady m → Triple slots (Good n) (Good n) m
stays_steady {n} {m} k =
    triple
      λ g p. Steady-Leads (Good n) g (m g) (λ h s. Steady-Good n g h s p) (Keeps-apply steady k g)

pub holds_steady :
    {A : Type 0} {n : ℕ} {m : M A} → Keeps steady m → Triple slots (Held n) (Held n) m
holds_steady {n} {m} k =
    triple
      λ g p. Steady-Leads (Held n) g (m g) (λ h s. Steady-Held n g h s p) (Keeps-apply steady k g)

pub stays_token : {n : ℕ} → Triple slots (Good n) (Good n) get_token
stays_token {n} = Triple-weaken slots (λ h. Held-Good n h) (get_token-Triple n)

counted-waiting : (b : Bool) (s : Bytes) → waiting b s ≤ 1
counted-waiting false s = omega arith
counted-waiting true s = counted_one s

-- What is left is not much longer than the input.
pub Good-own :
    (n : ℕ) (g : Globals) → Good n g → (k : ℕ) × (k ≤ n) × (k < length g.input + 3) × Good k g
Good-own n g p =
    let one = counted-waiting g.token_given_back g.token_buf in
    (
      length g.input + waiting g.token_given_back g.token_buf,
      p.light,
      omega arith,
      record { named = p.named; light = omega arith },
    )

-- At the beginning of a stage.
pub Good-begin :
    (file : Bytes) (start_loc stage : ℕ) (g : Globals)
    → Named g
    → Good (length file + 1) (begin_stage file start_loc stage g)
Good-begin file start_loc stage g n =
    let one = counted-waiting g.token_given_back g.token_buf in
    record {
      named = record { symbols_named = n.symbols_named; vars_named = n.vars_named };
      light = omega arith;
    }
