-- ===== src/Parsers/FireRating/Laws.antt =====
-- What the fire-rating parser promises (backend/pipeline/parsers/fire_rating.py).
use cbc_new.Prelude.{
  ℕ, ◌≡◌, refl, ◌↔◌, ◌⊎◌, inl, inr, Bool, true, false, none, some, List, [], ◌∷◌, arith,
  Option-cases, Bool-cases, if◌then◌else◌, or_else, ◌==◌,
}
use cbc_new.Prelude.Text.{Text, is_blank, number, is_listed}
use cbc_new.Prelude.Regex.{Groups, group_text, match}
use cbc_new.Prelude.Float.{Float}
use cbc_new.Parsers.FireRating.{
  ParsedFireRating, Reason, no_rating, division_by_zero, ambiguous_label, unrecognised, ok,
  is_rated, flag, normalise, from_label, not_rated, minutes_pattern, hours_pattern, label_pattern,
  from_hours, read_rating, tidy, parse_fire_rating,
}

-- What a branch that does not read an absence gives: one of the four ratings, or a flag.
abbrev pub IsResolved : ParsedFireRating → Type 0
IsResolved p =
    (p.absent ≡ false)
    × ((p.needs_review ≡ true) ↔ (p.minutes ≡ none))
    × ((m : ℕ) → p.minutes ≡ some m → is_rated m ≡ true)

flag-IsResolved : (raw : Text) (r : Reason) → IsResolved (flag raw r)
unfolding flag
flag-IsResolved raw r = (refl, (λ e. refl, λ e. refl), λ m e. cc)

normalise-IsResolved : (minutes : ℕ) (raw : Text) → IsResolved (normalise minutes raw)
unfolding normalise flag
normalise-IsResolved minutes raw = elim (Bool-cases (is_rated minutes)) [
  | inl rated ↦ rw rated (refl, (λ e. cc, λ e. cc), λ m e. ground (arith, rated))
  | inr other ↦ rw other (refl, (λ e. refl, λ e. refl), λ m e. cc)
]

from_label-IsResolved : (raw : Text) (ms : List ℕ) → IsResolved (from_label raw ms)
unfolding from_label
from_label-IsResolved raw [] = flag-IsResolved raw ambiguous_label
from_label-IsResolved raw (m ∷ []) = normalise-IsResolved m raw
from_label-IsResolved raw (m ∷ (n ∷ ms)) = flag-IsResolved raw ambiguous_label

if-IsResolved :
    (b : Bool) (p q : ParsedFireRating)
    → IsResolved p
    → IsResolved q
    → IsResolved (if b then p else q)
if-IsResolved true p q hp hq = hp
if-IsResolved false p q hp hq = hq

module _ (fl : Float) where
  from_hours-IsResolved : (raw : Text) (gs : Groups) → IsResolved (from_hours fl raw gs)
  unfolding from_hours
  from_hours-IsResolved raw gs = elim (Option-cases (group_text 2 gs)) [
    | inl plain ↦ rw (plain, from_hours) (normalise-IsResolved _ raw)
    | inr (num, fraction) ↦
        rw (fraction, from_hours)
          (if-IsResolved (number (or_else (group_text 3 gs) []) == 0) _ _
            (flag-IsResolved raw division_by_zero) (normalise-IsResolved _ raw))
  ]

  read_rating-IsResolved :
      (raw s : Text) → is_listed s not_rated ≡ false → IsResolved (read_rating fl raw s)
  unfolding read_rating
  read_rating-IsResolved raw s h = elim (Option-cases (match minutes_pattern s)) [
    | inr (gs, e) ↦ rw (h, e, read_rating) (normalise-IsResolved _ raw)
    | inl e ↦ elim (Option-cases (match hours_pattern s)) [
      | inr (gs, f) ↦ rw (h, e, f, read_rating) (from_hours-IsResolved raw gs)
      | inl f ↦ elim (Option-cases (match label_pattern s)) [
        | inr (gs, g) ↦ rw (h, e, f, g, read_rating) (from_label-IsResolved raw _)
        | inl g ↦ rw (h, e, f, g, read_rating) (flag-IsResolved raw unrecognised)
      ]
    ]
  ]

  -- What every result has: an absence only if the text is listed as one, and then no minutes;
  -- otherwise a resolved rating or a flag.
  abbrev StatesAbsence : Text → Type 0
  StatesAbsence raw = (is_blank raw ≡ false) × (is_listed (tidy fl raw) not_rated ≡ true)

  read_absent :
      (raw s : Text)
      → is_listed s not_rated ≡ true
      → ((read_rating fl raw s).absent ≡ true)
        × ((read_rating fl raw s).minutes ≡ none)
        × ((read_rating fl raw s).needs_review ≡ false)
  unfolding read_rating
  read_absent raw s h = rw h (refl, refl, refl)

  pub parse_fire_rating-none : (parse_fire_rating fl none).needs_review ≡ true
  unfolding parse_fire_rating flag
  parse_fire_rating-none = refl

  parse-cases :
      (raw : Text)
      → IsResolved (parse_fire_rating fl (some raw)) × ¬ StatesAbsence raw
        ⊎ StatesAbsence raw
          × ((parse_fire_rating fl (some raw)).absent ≡ true)
          × ((parse_fire_rating fl (some raw)).minutes ≡ none)
          × ((parse_fire_rating fl (some raw)).needs_review ≡ false)
  unfolding parse_fire_rating
  parse-cases raw = elim (Bool-cases (is_blank raw)) [
    | inl blank ↦ inl (rw blank (flag-IsResolved raw no_rating), λ h. cc)
    | inr written ↦ elim (Bool-cases (is_listed (tidy fl raw) not_rated)) [
      | inl listed ↦
          let (a, m, r) = read_absent raw (tidy fl raw) listed in
          inr ((written, listed), rw written a, rw written m, rw written r)
      | inr other ↦ inl (rw written (read_rating-IsResolved raw (tidy fl raw) other), λ h. cc)
    ]
  ]

  -- Minutes are given only as 20, 45, 60 or 90.
  pub rating_band :
      (raw : Text) (m : ℕ)
      → (parse_fire_rating fl (some raw)).minutes ≡ some m
      → (m ≡ 20) ⊎ (m ≡ 45) ⊎ (m ≡ 60) ⊎ (m ≡ 90)
  unfolding is_rated
  rating_band raw m e = elim (parse-cases raw) [
    | inl (resolved, _) ↦ let rated = resolved.2 m e in ground arith
    | inr (_, _, no_minutes, _) ↦ cc
  ]

  -- A result asks for review exactly if it has neither minutes nor a stated absence, and never has
  -- both.
  pub rating_trichotomy :
      (raw : Text)
      → let p = parse_fire_rating fl (some raw) in
        ((p.needs_review ≡ true) ↔ (ok p ≡ false)) × ((p.absent ≡ true) → p.minutes ≡ none)
  unfolding ok
  rating_trichotomy raw = elim (parse-cases raw) [
    | inl (resolved, _) ↦ let (no_absence, review, _) = resolved in ground arith
    | inr (_, is_absent, no_minutes, no_review) ↦ ground arith
  ]
