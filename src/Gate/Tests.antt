-- ===== src/Gate/Tests.antt =====
-- Runs of the gate, and its theorems at inputs.
use cbc_new.Prelude.{ℕ, ◌≡◌, refl, ◌↔◌, true, none, some, List, ◌∷◌, [], String, All}
use cbc_new.Prelude.Text.{Text, codes, is_blank, strip, collapse, join}
use cbc_new.Prelude.Dict.{Dict, lookup, has_key}
use cbc_new.Prelude.Float.{basis_points, basis_points-IsOrdered, min, max, min_of}
use cbc_new.Prelude.Fuzz.{ascii}
use cbc_new.Gate.{
  FieldVerdict, accept_null, not_grounded, null_with_citation, passed, refusal, absence, is_prefix,
  contains, is_null, texts_of, unknown_ids, normalise, grounding_score, grounded, check_grounding,
  validate_field,
}
use cbc_new.Gate.Verdicts.{IsGrounded, accept_sound, accept_null_iff}
use cbc_new.Gate.Confidence.{
  compose, completeness_penalty, measured, lowest, final_of, AtMost, compose-le,
}

runs : Unit {0}
unfolding validate_field check_grounding grounded grounding_score normalise unknown_ids texts_of
    is_null contains is_prefix is_blank strip collapse lookup has_key compose measured lowest
    final_of min_of min max completeness_penalty join
runs = tt

abbrev supplied : Dict Text
supplied = ("e1", codes "DOOR 101A") ∷ ("e2", codes "20 MIN") ∷ []

accepted_run :
    validate_field basis_points ascii (some (codes "101a")) ("e1" ∷ []) supplied 90
    ≡ some (passed 1_000_000)
unfolding runs
accepted_run = refl

cited_null_run :
    validate_field basis_points ascii none ("e1" ∷ []) supplied 90
    ≡ some (refusal null_with_citation none [])
unfolding runs
cited_null_run = refl

invented_run :
    validate_field basis_points ascii (some (codes "90 MIN")) ("e2" ∷ []) supplied 90
    ≡ some (refusal not_grounded (some 0) [])
unfolding runs
invented_run = refl

accept_sound_example : IsGrounded basis_points ascii (some (codes "101a")) ("e1" ∷ []) supplied 90
unfolding runs
accept_sound_example =
    accept_sound basis_points ascii (some (codes "101a")) ("e1" ∷ []) supplied 90 (passed 1_000_000)
      refl refl

accept_null_iff_example :
    let v : FieldVerdict ℕ = absence in
    let ids : List String = [] in
    (v.verdict ≡ accept_null) ↔ ((is_null (some (codes "  ")) ≡ true) × (ids ≡ []))
unfolding runs
accept_null_iff_example =
    accept_null_iff basis_points ascii (some (codes "  ")) [] supplied 90 absence refl

compose-le_example :
    let f : ℕ = 6400 in
    All (AtMost basis_points basis_points-IsOrdered f) (some 8000 ∷ none ∷ some 9000 ∷ [])
    × AtMost basis_points basis_points-IsOrdered f (some 9500)
unfolding runs
compose-le_example =
    compose-le basis_points basis_points-IsOrdered (some 8000 ∷ none ∷ some 9000 ∷ []) (some 9500)
      8000 6400 (refl, (tt, (refl, tt))) refl refl refl
