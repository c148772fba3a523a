-- ===== src/Prelude/Dict.antt =====
-- Python's dictionaries with text keys, as association lists whose first entry for a key counts.
use Prim.Native.String.{String}
use mathlib.Core.Path.{◌≡◌, refl}
use mathlib.Core.Bool.{Bool, false, ◌||◌}
use mathlib.Core.Option.{Option, none, some}
use mathlib.Core.List.{List, [], ◌∷◌}
use native.Mathlib.Omega.{arith}
use text.Mathlib.Text.{◌==◌ as str_eq}
use text.Mathlib.TextEquality.{eq_iff}
use cbc_new.Prelude.Tests.{if◌then◌else◌, is_some}

abbrev pub Dict {ℓ} : Type ℓ → Type ℓ
Dict V = List (String × V)

module _ {ℓ} {V : Type ℓ} where
  unfoldable pub lookup : String → Dict V → Option V
  lookup key [] = none
  lookup key ((name, value) ∷ entries) = if str_eq name key then some value else lookup key entries

  -- `k in d`
  unfoldable pub has_key : String → Dict V → Bool
  unfolding lookup
  has_key key entries = is_some (lookup key entries)

  -- `d[k] = v`
  unfoldable pub insert : String → V → Dict V → Dict V
  insert key new [] = (key, new) ∷ []
  insert key new ((name, value) ∷ entries) =
      if str_eq name key then (key, new) ∷ entries else (name, value) ∷ insert key new entries

  -- What is read after an assignment: the new value under its key, the old one elsewhere.
  pub lookup-insert :
      (key other : String) (new : V) (entries : Dict V)
      → lookup other (insert key new entries)
        ≡ (if str_eq key other then some new else lookup other entries)
  unfolding insert lookup
  lookup-insert key other new [] = refl
  lookup-insert key other new ((name, value) ∷ entries) =
      let later = lookup-insert key other new entries in
      ground (eq_iff name key, eq_iff name other, eq_iff key other, later, arith)

-- `x in (…)`, a tuple or a set of texts.
unfoldable pub is_member : String → List String → Bool
is_member k [] = false
is_member k (j ∷ js) = str_eq j k || is_member k js
