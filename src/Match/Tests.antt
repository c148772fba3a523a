-- ===== src/Match/Tests.antt =====
-- Runs of the matching, and its theorems at inputs.
use mathlib.Core.List.{Memᴰ, Perm}
use cbc_new.Prelude.{
  ℕ, ◌≤◌, ◌≡◌, refl, ◌↔◌, true, false, none, some, List, ◌∷◌, [], ◌++◌, All, map, keep, length,
}
use cbc_new.Prelude.Text.{codes}
use cbc_new.Prelude.Float.{basis_points, basis_points-IsOrdered, Le}
use cbc_new.Prelude.Fuzz.{ascii}
use cbc_new.Parsers.Handing.{lh}
use cbc_new.Link.Tests.{linked_door, door_record, no_counts, settled_door, settled_run}
use cbc_new.Match.{
  CatalogItem, MatchCriteria, compare_rating, check_rating, handing_eq, compare_handing,
  check_handing, compare_division, check_division, rating_is_unresolved, handing_is_unresolved,
}
use cbc_new.Match.Score.{Candidate, is_eligible, score_candidate}
use cbc_new.Match.Snapshot.{snapshot, candidates_for}
use cbc_new.Match.Rank.{proposed, match_criteria}
use cbc_new.Match.Safety.{MeetsConstraints, is_eligible_iff, IsProposable, accepted-IsProposable}
use cbc_new.Match.Order.{ScoresAtMost, IsRanked}
use cbc_new.Match.Disposition.{IsDisposed, candidates_for_complete, proposed_iff, accepted_are_best}
use cbc_new.Match.Criteria.{Component, from_opening, from_component, persisted_is_resolved}

check_runs : Unit {0}
unfolding compare_rating check_rating handing_eq compare_handing check_handing compare_division
    check_division rating_is_unresolved handing_is_unresolved
check_runs = tt

abbrev door : CatalogItem
door = record {
  id = "d1";
  vendor = codes "Ceco";
  sku = codes "LX-90";
  series = codes "Legion";
  part_number = codes "LX90";
  description = codes "steel door";
  csi_division = some "08";
  fire_rating_minutes = some 90;
  handing = some lh;
  finish_code = none;
  width_inches = none;
  height_inches = none;
  is_stock = true;
}

abbrev unrated_door : CatalogItem
unrated_door = record door { id = "d2"; fire_rating_minutes = none; csi_division = none }

abbrev items : List CatalogItem
items = unrated_door ∷ door ∷ []

abbrev wanted : MatchCriteria
wanted = record {
  description = codes "steel door";
  csi_division = some "08";
  fire_rating_minutes = some 45;
  fire_rating_absent = false;
  handing = some lh;
  handing_absent = false;
  finish_code_id = none;
  finish_base_metal = [];
  width_inches = some 36;
  height_inches = some 84;
  vendor = [];
  series = [];
  part_number = [];
}

abbrev unread : MatchCriteria
unread = record wanted { fire_rating_minutes = none }

is_eligible_iff_example :
    (is_eligible (score_candidate basis_points ascii wanted door 1) ≡ true)
    ↔ MeetsConstraints wanted door
is_eligible_iff_example = is_eligible_iff basis_points ascii wanted door 1

accepted-IsProposable_example :
    All
      (IsProposable basis_points ascii wanted (candidates_for (snapshot items) wanted) 1)
      (match_criteria basis_points ascii wanted (snapshot items) 5 6000 1).accepted
accepted-IsProposable_example =
    accepted-IsProposable basis_points ascii wanted (snapshot items) 5 6000 1

candidates_for_complete_example : Memᴰ door (candidates_for (snapshot items) wanted)
unfolding check_runs
candidates_for_complete_example =
    candidates_for_complete items wanted door (Memᴰ.tail (Memᴰ.head refl)) refl

proposed_iff_example :
    let r = match_criteria basis_points ascii wanted (snapshot items) 5 6000 1 in
    ((r.status ≡ proposed) ↔ (
      (rating_is_unresolved wanted ≡ false)
      × (handing_is_unresolved wanted ≡ false)
      × ((k : Candidate ℕ) × (rest : List (Candidate ℕ)) × (r.accepted ≡ k ∷ rest)
          × Le basis_points 6000 k.match_confidence)))
    × IsDisposed basis_points ascii r.status r.manual_reason
proposed_iff_example = proposed_iff basis_points ascii wanted (snapshot items) 5 6000 1

accepted_are_best_example :
    let r = match_criteria basis_points ascii wanted (snapshot items) 1 6000 1 in
    let scored =
      map
        (λ item. score_candidate basis_points ascii wanted item 1)
        (candidates_for (snapshot items) wanted) in
    (length r.accepted ≤ 1)
    × IsRanked basis_points r.accepted
    × ((others : List (Candidate ℕ)) × Perm (r.accepted ++ others) (keep is_eligible scored)
        × All (λ k. All (ScoresAtMost basis_points k) others) r.accepted)
unfolding check_runs
accepted_are_best_example =
    accepted_are_best basis_points ascii wanted (snapshot items) 1 6000 1 basis_points-IsOrdered
      refl refl

abbrev closer : Component
closer = record {
  description = some (codes "Closer");
  manufacturer = none;
  part_number = none;
  finish_raw = none;
}

persisted_is_resolved_example :
    (rating_is_unresolved (from_opening settled_door none) ≡ false)
    × (handing_is_unresolved (from_opening settled_door none) ≡ false)
    × (rating_is_unresolved (from_component closer settled_door none) ≡ false)
    × (handing_is_unresolved (from_component closer settled_door none) ≡ false)
persisted_is_resolved_example =
    persisted_is_resolved basis_points door_record linked_door no_counts settled_door none closer
      (settled_run.0) (settled_run.1)
