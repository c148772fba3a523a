-- ===== src/Prelude/Fuzz.antt =====
-- The text functions that the program takes from elsewhere: the Unicode tables behind
-- `str.casefold` and the regular expression class `\w`, and the similarity scores of the package
-- rapidfuzz, on the scale from 0 to 100.
use Prim.Native.Nat.{ℕ}
use mathlib.Core.Bool.{Bool, ◌||◌}
use mathlib.Core.List.{map}
use cbc_new.Prelude.Tests.{◌==◌}
use cbc_new.Prelude.Text.{Text, is_digit, is_upper, is_lower, text_eq}
use cbc_new.Prelude.Float.{basis_points}
use cbc_new.Prelude.Tests.{if◌then◌else◌}

pub record Fuzz (F : Type 0) : Type 0 where
  pub casefold : Text → Text
  pub is_word : ℕ → Bool
  pub partial_ratio : Text → Text → F
  pub token_set_ratio : Text → Text → F

-- An instance for ASCII, whose similarity is 100 for equal texts and 0 otherwise.
abbrev pub ascii : Fuzz (basis_points.F)
ascii = record {
  casefold = map (λ c. if is_upper c then Prim.Native.Nat.◌+◌ c 32 else c);
  is_word = λ c. is_digit c || is_upper c || is_lower c || c == b'_';
  partial_ratio = λ s t. if text_eq s t then 1_000_000 else 0;
  token_set_ratio = λ s t. if text_eq s t then 1_000_000 else 0;
}
