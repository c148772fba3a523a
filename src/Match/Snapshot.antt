-- ===== src/Match/Snapshot.antt =====
-- The catalogue of one match run (CatalogSnapshot of backend/pipeline/stages/match.py).
use cbc_new.Prelude.{
  String, Bool, true, false, Option, none, some, List, [], ◌∷◌, ◌++◌, if◌then◌else◌,
}
use text.Mathlib.Text.{◌==◌ as str_eq}
use cbc_new.Match.{CatalogItem, MatchCriteria}

abbrev pub division_eq : Option String → Option String → Bool
division_eq none none = true
division_eq none (some b) = false
division_eq (some a) none = false
division_eq (some a) (some b) = str_eq a b

abbrev pub Groups : Type 0
Groups = List (Option String × List CatalogItem)

-- `groups.setdefault(division, []).append(item)`
unfoldable pub add_item : CatalogItem → Groups → Groups
add_item item [] = (item.csi_division, item ∷ []) ∷ []
add_item item ((d, items) ∷ groups) =
    if division_eq d item.csi_division
    then (d, items ++ (item ∷ [])) ∷ groups
    else (d, items) ∷ add_item item groups

unfoldable pub group_from : Groups → List CatalogItem → Groups
unfolding add_item
group_from groups [] = groups
group_from groups (item ∷ items) = group_from (add_item item groups) items

-- `groups.get(division, [])`
unfoldable pub group_of : Option String → Groups → List CatalogItem
group_of d [] = []
group_of d ((e, items) ∷ groups) = if division_eq e d then items else group_of d groups

pub record CatalogSnapshot : Type 0 where
  pub items : List CatalogItem
  pub by_division : Groups

unfoldable pub snapshot : List CatalogItem → CatalogSnapshot
unfolding group_from
snapshot items = record { items = items; by_division = group_from [] items }

unfoldable pub candidates_for : CatalogSnapshot → MatchCriteria → List CatalogItem
unfolding group_of
candidates_for s c = elim (c.csi_division) [
  | none ↦ s.items
  | some d ↦ group_of (some d) s.by_division ++ group_of none s.by_division
]
