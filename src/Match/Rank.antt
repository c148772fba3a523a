-- ===== src/Match/Rank.antt =====
-- The ranking of the candidates and the disposition of a match (match_criteria of
-- backend/pipeline/stages/match.py). `sorted` is stable, also in reverse.
use cbc_new.Prelude.{ℕ, not, Option, none, some, List, [], ◌∷◌, map, if◌then◌else◌, keep, take}
use cbc_new.Prelude.Float.{Float}
use cbc_new.Prelude.Fuzz.{Fuzz}
use cbc_new.Match.{MatchCriteria, rating_is_unresolved, handing_is_unresolved, CatalogItem}
use cbc_new.Match.Score.{Candidate, is_eligible, score_candidate}
use cbc_new.Match.Snapshot.{CatalogSnapshot, candidates_for}

pub data MatchStatus : Type 0 where
  proposed accepted rejected manual awaiting_rfq : MatchStatus

pub data ManualReason : Type 0 where
  rating_unresolved handing_unresolved nothing_eligible below_cutoff : ManualReason

pub record MatchResult (F : Type 0) : Type 0 where
  pub criteria : MatchCriteria
  pub accepted : List (Candidate F)
  pub rejected : List (Candidate F)
  pub status : MatchStatus
  pub manual_reason : Option ManualReason

unfoldable pub best : {F : Type 0} → MatchResult F → Option (Candidate F)
best r = elim (r.accepted) [ [] ↦ none | c ∷ cs ↦ some c ]

module _ (fl : Float) where
  open fl use {F, lt}

  -- `sorted(…, key=match_confidence, reverse=True)`: an element goes before the later ones that do
  -- not score higher.
  unfoldable pub insert_by_confidence : Candidate F → List (Candidate F) → List (Candidate F)
  insert_by_confidence c [] = c ∷ []
  insert_by_confidence c (d ∷ ds) =
      if lt c.match_confidence d.match_confidence
      then d ∷ insert_by_confidence c ds
      else c ∷ (d ∷ ds)

  unfoldable pub sort_by_confidence : List (Candidate F) → List (Candidate F)
  unfolding insert_by_confidence
  sort_by_confidence [] = []
  sort_by_confidence (c ∷ cs) = insert_by_confidence c (sort_by_confidence cs)

  unfoldable pub unresolved : MatchCriteria → ManualReason → MatchResult F
  unresolved c reason = record {
    criteria = c;
    accepted = [];
    rejected = [];
    status = manual;
    manual_reason = some reason;
  }

  unfoldable pub disposition : F → List (Candidate F) → MatchStatus × Option ManualReason
  disposition cutoff [] = (manual, some nothing_eligible)
  disposition cutoff (c ∷ cs) =
      if lt c.match_confidence cutoff then (manual, some below_cutoff) else (proposed, none)

  module _ (fz : Fuzz F) where
    -- The part after the zero-tolerance fields are found resolved.
    unfoldable pub rank_candidates :
        MatchCriteria → List CatalogItem → (top_n : ℕ) (cutoff : F) (tolerance : ℕ) → MatchResult F
    rank_candidates c items top_n cutoff tolerance =
        let scored = map (λ item. score_candidate fl fz c item tolerance) items in
        let eligible = sort_by_confidence (keep is_eligible scored) in
        let top = take top_n eligible in
        let (status, reason) = disposition cutoff top in
        record {
          criteria = c;
          accepted = top;
          rejected = keep (λ k. not (is_eligible k)) scored;
          status = status;
          manual_reason = reason;
        }

    unfoldable pub match_criteria :
        MatchCriteria → CatalogSnapshot → (top_n : ℕ) (cutoff : F) (tolerance : ℕ) → MatchResult F
    match_criteria c s top_n cutoff tolerance =
        if rating_is_unresolved c
        then unresolved c rating_unresolved
        else if handing_is_unresolved c
        then unresolved c handing_unresolved
        else rank_candidates c (candidates_for s c) top_n cutoff tolerance
