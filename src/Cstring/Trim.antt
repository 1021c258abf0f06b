-- ===== src/Cstring/Trim.antt =====
-- attic/staging.c: what `trimstr2` and `remove_spaces2` leave of a string.
use asmc.Prelude.{
  ℕ, Bool, true, false, [], ◌∷◌, ◌++◌, ◌≡◌, refl, sym, arith, All, inl, inr, Bool-cases, ◌∙◌, ap,
  if◌then◌else◌,
}
use mathlib.Core.Path.{subst}
use mathlib.Core.List.{append-nil}
use asmc.Cstring.{Bytes, is_blank, remove_spaces, skip_blanks, drop_trailing, trimstr}

abbrev pub Blanks : Bytes → Type 0
Blanks = All λ c. is_blank c ≡ true

abbrev pub NoBlanks : Bytes → Type 0
NoBlanks = All λ c. is_blank c ≡ false

abbrev pub first_is_blank : Bytes → Bool
first_is_blank [] = false
first_is_blank (x ∷ xs) = is_blank x

abbrev pub last_is_blank : Bytes → Bool
last_is_blank [] = false
last_is_blank (x ∷ []) = is_blank x
last_is_blank (x ∷ y ∷ ys) = last_is_blank (y ∷ ys)

-- `t` is `s` without its blanks at both ends.
pub record IsTrimOf (s t : Bytes) : Type 0 where
  pub lead : Bytes
  pub trail : Bytes
  pub splits : s ≡ lead ++ (t ++ trail)
  pub lead_blank : Blanks lead
  pub trail_blank : Blanks trail
  pub first_kept : first_is_blank t ≡ false
  pub last_kept : last_is_blank t ≡ false

skip_blanks_lem :
    (s : Bytes)
    → (lead : Bytes) × (s ≡ lead ++ skip_blanks s)
      × Blanks lead
      × (first_is_blank (skip_blanks s) ≡ false)
unfolding skip_blanks
skip_blanks_lem [] = ([], refl, tt, refl)
skip_blanks_lem (x ∷ s) = elim (Bool-cases (is_blank x)) [
  | inl p ↦ let (lead, e, h, f) = skip_blanks_lem s in rw p (x ∷ lead, ap (◌∷◌ x) e, (p, h), f)
  | inr p ↦ rw p ([], refl, tt, p)
]

-- `drop_trailing` of `x ∷ xs`, by what is left of `xs`.
drop_trailing_cons : ℕ → Bytes → Bytes
drop_trailing_cons x [] = if is_blank x then [] else x ∷ []
drop_trailing_cons x (y ∷ ys) = x ∷ y ∷ ys

record DropsTrailing (s t : Bytes) : Type 0 where
  trail : Bytes
  splits : s ≡ t ++ trail
  trail_blank : Blanks trail
  last_kept : last_is_blank t ≡ false

DropsTrailing-cons :
    (x : ℕ) (s t : Bytes) → DropsTrailing s t → DropsTrailing (x ∷ s) (drop_trailing_cons x t)
unfolding drop_trailing_cons
DropsTrailing-cons x s [] d = elim (Bool-cases (is_blank x)) [
  | inl p ↦ rw p (record {
    trail = x ∷ s;
    splits = refl;
    trail_blank = (p, subst Blanks (sym d.splits) d.trail_blank);
    last_kept = refl;
  })
  | inr p ↦ rw p (record {
    trail = d.trail;
    splits = ap (◌∷◌ x) d.splits;
    trail_blank = d.trail_blank;
    last_kept = p;
  })
]
DropsTrailing-cons x s (y ∷ ys) d = record {
  trail = d.trail;
  splits = ap (◌∷◌ x) d.splits;
  trail_blank = d.trail_blank;
  last_kept = d.last_kept;
}

drop_trailing-cons :
    (x : ℕ) (s : Bytes) → drop_trailing (x ∷ s) ≡ drop_trailing_cons x (drop_trailing s)
unfolding drop_trailing drop_trailing_cons
drop_trailing-cons x s = ground arith

drop_trailing_lem : (s : Bytes) → DropsTrailing s (drop_trailing s)
drop_trailing_lem [] =
    unfold drop_trailing in record { trail = []; splits = refl; trail_blank = tt; last_kept = refl }
drop_trailing_lem (x ∷ s) =
    rw drop_trailing-cons (DropsTrailing-cons x s (drop_trailing s) (drop_trailing_lem s))

first-of_append : (t trail : Bytes) → first_is_blank (t ++ trail) ≡ false → first_is_blank t ≡ false
first-of_append [] trail h = refl
first-of_append (x ∷ t) trail h = h

-- The result of `trimstr` is what is left of the string when a run of blanks is cut from each end,
-- and it neither begins nor ends with a blank.
pub trimstr-IsTrimOf : (s : Bytes) → IsTrimOf s (trimstr s)
unfolding trimstr
trimstr-IsTrimOf s =
    let (lead, e, h, f) = skip_blanks_lem s in
    let d = drop_trailing_lem (skip_blanks s) in
    record {
      lead = lead;
      trail = d.trail;
      splits = e ∙ ap (λ t. lead ++ t) d.splits;
      lead_blank = h;
      trail_blank = d.trail_blank;
      first_kept = first-of_append (trimstr s) d.trail (rw (← d.splits) f);
      last_kept = d.last_kept;
    }

pub remove_spaces-append :
    (s t : Bytes) → remove_spaces (s ++ t) ≡ remove_spaces s ++ remove_spaces t
unfolding remove_spaces
remove_spaces-append [] t = refl
remove_spaces-append (x ∷ s) t = ground (arith, remove_spaces-append s t)

pub remove_spaces-Blanks : (s : Bytes) → Blanks s → remove_spaces s ≡ []
unfolding remove_spaces
remove_spaces-Blanks [] h = refl
remove_spaces-Blanks (x ∷ s) (p, h) = rw p (remove_spaces-Blanks s h)

pub remove_spaces-NoBlanks_self : (s : Bytes) → NoBlanks s → remove_spaces s ≡ s
unfolding remove_spaces
remove_spaces-NoBlanks_self [] h = refl
remove_spaces-NoBlanks_self (x ∷ s) (p, h) = rw p (ap (◌∷◌ x) (remove_spaces-NoBlanks_self s h))

pub remove_spaces-NoBlanks : (s : Bytes) → NoBlanks (remove_spaces s)
unfolding remove_spaces
remove_spaces-NoBlanks [] = tt
remove_spaces-NoBlanks (x ∷ s) = elim (Bool-cases (is_blank x)) [
  | inl p ↦ rw p (remove_spaces-NoBlanks s)
  | inr p ↦ rw p (p, remove_spaces-NoBlanks s)
]

removed : (s t : Bytes) → IsTrimOf s t → remove_spaces t ≡ remove_spaces s
removed s t h = rw (
  h.splits,
  remove_spaces-append,
  remove_spaces-append,
  remove_spaces-Blanks h.lead h.lead_blank,
  remove_spaces-Blanks h.trail h.trail_blank,
  append-nil,
)

-- `remove_spaces` gives the same string for a string and for its trimmed form, and changes nothing
-- when it is applied to its own result.
remove_spaces-trimstr :
    (s : Bytes)
    → (remove_spaces (trimstr s) ≡ remove_spaces s)
      × (remove_spaces (remove_spaces s) ≡ remove_spaces s)
remove_spaces-trimstr s = (
  removed s (trimstr s) (trimstr-IsTrimOf s),
  remove_spaces-NoBlanks_self _ (remove_spaces-NoBlanks s),
)
