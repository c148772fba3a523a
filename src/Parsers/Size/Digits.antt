-- ===== src/Parsers/Size/Digits.antt =====
-- The fixed rule of the size parser, whatever stands between the digits
-- (backend/pipeline/parsers/size.py).
use mathlib.Core.List.{reverse, reverse-reverse}
use cbc_new.Prelude.{
  ℕ, ◌+◌, ◌*◌, ◌≤◌, ◌≡◌, refl, ◌∙◌, ap, arith, Bool, true, false, not, ◌||◌, some, [], ◌∷◌, keep,
  if◌then◌else◌, ◌==◌, Bool-cases, inl, inr,
}
use cbc_new.Prelude.Text.{Text, is_space, is_blank, drop_space, strip, to_upper, upper_code}
use cbc_new.Prelude.Members.{keep-reverse}
use cbc_new.Parsers.Size.{zero_feet, flag, sized, read_size, parse_size}
use cbc_new.Parsers.Size.Laws.{digit, match-four, read_four, upper_four}

-- Neither a space nor a hyphen.
abbrev pub is_bare : ℕ → Bool
is_bare c = not (is_space c || c == b'-')

keep-drop_space : (s : Text) → keep is_bare (drop_space s) ≡ keep is_bare s
unfolding drop_space
keep-drop_space [] = refl
keep-drop_space (c ∷ s) = ground (arith, keep-drop_space s)

keep-strip : (s : Text) → keep is_bare (strip s) ≡ keep is_bare s
unfolding strip
keep-strip s =
    let front = drop_space s in
    keep-reverse is_bare (drop_space (reverse front))
    ∙ (ap reverse (keep-drop_space (reverse front) ∙ keep-reverse is_bare front)
        ∙ (reverse-reverse (keep is_bare front) ∙ keep-drop_space s))

is_bare-upper_code : (c : ℕ) → is_bare (upper_code c) ≡ is_bare c
is_bare-upper_code c = ground arith

keep-to_upper : (s : Text) → keep is_bare (to_upper s) ≡ to_upper (keep is_bare s)
unfolding to_upper
keep-to_upper [] = refl
keep-to_upper (c ∷ s) = elim (Bool-cases (is_bare c)) [
  | inl bare ↦ rw (is_bare-upper_code c, bare) (ap (λ l. upper_code c ∷ l) (keep-to_upper s))
  | inr other ↦ rw (is_bare-upper_code c, other) (keep-to_upper s)
]

keep_blank : (s : Text) → is_blank s ≡ true → keep is_bare s ≡ []
unfolding is_blank
keep_blank [] h = refl
keep_blank (c ∷ s) h = ground (arith, keep_blank s)

filled : (s t : Text) (c : ℕ) → keep is_bare s ≡ c ∷ t → is_blank s ≡ false
filled s t c e = elim (Bool-cases (is_blank s)) [
  | inl blank ↦ absurd (let nothing = keep_blank s blank in cc)
  | inr written ↦ written
]

-- A text in which four digits are left when its spaces and hyphens are taken out is read as feet,
-- inches, feet, inches: twelve times the first digit plus the second, twelve times the third plus the
-- fourth, unless a number of feet is zero, which is flagged.
pub parse_size_spaced :
    (raw : Text) (a b c d : ℕ)
    → a ≤ 9
    → b ≤ 9
    → c ≤ 9
    → d ≤ 9
    → keep is_bare raw ≡ digit a ∷ digit b ∷ digit c ∷ digit d ∷ []
    → parse_size (some raw)
      ≡ (if a == 0 || c == 0 then flag raw zero_feet else sized raw (a * 12 + b) (c * 12 + d))
unfolding parse_size read_size
parse_size_spaced raw a b c d ha hb hc hd e =
    let bare : keep is_bare (to_upper (strip raw)) ≡ digit a ∷ digit b ∷ digit c ∷ digit d ∷ [] =
      keep-to_upper (strip raw)
      ∙ (ap to_upper (keep-strip raw ∙ e) ∙ upper_four a b c d ha hb hc hd) in
    rw (
      filled raw (digit b ∷ digit c ∷ digit d ∷ []) (digit a) e,
      read_size,
      bare,
      match-four a b c d ha hb hc hd,
      read_four a b c d ha hb hc hd raw,
    )
