-- ===== src/Prelude/Text.antt =====
-- Texts that the program walks, as lists of code points, with Python's operations on them. The
-- character classes are those of ASCII: a document that spells a digit or a space by another code
-- point is outside the model.
use Prim.Native.Nat.{ℕ, ◌+◌, ◌-◌, ◌*◌}
use Prim.Native.Char.{code}
use Prim.Native.String.{String}
use mathlib.Core.Path.{◌≡◌, refl}
use mathlib.Core.Logic.{◌↔◌}
use mathlib.Core.Bool.{Bool, true, false, ◌&&◌, ◌||◌}
use mathlib.Core.List.{List, [], ◌∷◌, ◌++◌, map, reverse}
use native.Mathlib.Omega.{arith}
use cbc_new.Prelude.Tests.{leb, ◌==◌, if◌then◌else◌}

abbrev pub Text : Type 0
Text = List ℕ

-- A literal of the source, as a text.
abbrev pub codes : String → Text
codes String.[] = []
codes (String.◌∷◌ c s) = code c ∷ codes s

abbrev pub is_digit : ℕ → Bool
is_digit c = leb b'0' c && leb c b'9'

abbrev pub is_upper : ℕ → Bool
is_upper c = leb b'A' c && leb c b'Z'

abbrev pub is_lower : ℕ → Bool
is_lower c = leb b'a' c && leb c b'z'

-- Tab, line feed, vertical tab, form feed, carriage return, the four separators and space.
abbrev pub is_space : ℕ → Bool
is_space c = leb 9 c && leb c 13 || leb 28 c && leb c 32

abbrev pub text_eq : Text → Text → Bool
text_eq [] [] = true
text_eq [] (b ∷ bs) = false
text_eq (a ∷ as') [] = false
text_eq (a ∷ as') (b ∷ bs) = a == b && text_eq as' bs

abbrev pub upper_code : ℕ → ℕ
upper_code c = if is_lower c then c - 32 else c

unfoldable pub to_upper : Text → Text
to_upper = map upper_code

unfoldable pub drop_space : Text → Text
drop_space [] = []
drop_space (c ∷ s) = if is_space c then drop_space s else c ∷ s

-- `str.strip()`
unfoldable pub strip : Text → Text
unfolding drop_space
strip s = reverse (drop_space (reverse (drop_space s)))

-- `not str(s).strip()`: every character is a space.
unfoldable pub is_blank : Text → Bool
is_blank [] = true
is_blank (c ∷ s) = is_space c && is_blank s

-- `\s+` to one space; `run` says that the last character was a space.
unfoldable pub collapse : Bool → Text → Text
collapse run [] = []
collapse run (c ∷ s) =
    let space = is_space c in
    let rest = collapse space s in if space then (if run then rest else 32 ∷ rest) else c ∷ rest

unfoldable pub number_from : ℕ → Text → ℕ
number_from acc [] = acc
number_from acc (c ∷ s) = number_from (acc * 10 + (c - b'0')) s

-- `int(digits)`
unfoldable pub number : Text → ℕ
unfolding number_from
number s = number_from 0 s

-- `sep.join(parts)` with a space.
unfoldable pub join : List Text → Text
join [] = []
join (t ∷ []) = t
join (t ∷ (u ∷ r)) = t ++ (32 ∷ join (u ∷ r))

-- `text in words`
unfoldable pub is_listed : Text → List String → Bool
is_listed text [] = false
is_listed text (w ∷ ws) = text_eq text (codes w) || is_listed text ws

pub text_eq_refl : (s : Text) → text_eq s s ≡ true
text_eq_refl [] = refl
text_eq_refl (c ∷ s) = ground (arith, text_eq_refl s)

pub eq_of_text_eq : (s t : Text) → text_eq s t ≡ true → s ≡ t
eq_of_text_eq [] [] h = refl
eq_of_text_eq [] (b ∷ t) h = cc
eq_of_text_eq (a ∷ s) [] h = cc
eq_of_text_eq (a ∷ s) (b ∷ t) h = ground (arith, eq_of_text_eq s t)

pub text_eq_iff : (s t : Text) → (text_eq s t ≡ true) ↔ (s ≡ t)
text_eq_iff s t = (eq_of_text_eq s t, λ e. rw e (text_eq_refl t))
