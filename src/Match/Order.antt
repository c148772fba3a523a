-- ===== src/Match/Order.antt =====
-- The order of the ranked candidates (backend/pipeline/stages/match.py).
use mathlib.Core.List.{Perm}
use mathlib.Core.List.Perm
use cbc_new.Prelude.{
  ℕ, zero, suc, List, [], ◌∷◌, All, All-impl, All-take, All-drop, take, drop, Bool-cases, inl, inr,
}
use cbc_new.Prelude.Float.{Float, Le, IsOrdered}
use cbc_new.Match.Score.{Candidate}
use cbc_new.Match.Rank.{insert_by_confidence, sort_by_confidence}

module _ (fl : Float) where
  open fl use {F, lt}

  abbrev pub ScoresAtMost : Candidate F → Candidate F → Type 0
  ScoresAtMost c d = Le fl d.match_confidence c.match_confidence

  -- Each element scores at least as high as every later one.
  abbrev pub IsRanked : List (Candidate F) → Type 0
  IsRanked [] = Unit
  IsRanked (c ∷ cs) = All (ScoresAtMost c) cs × IsRanked cs

  insert-perm :
      (c : Candidate F) (cs : List (Candidate F)) → Perm (insert_by_confidence fl c cs) (c ∷ cs)
  unfolding insert_by_confidence
  insert-perm c [] = Perm.refl (c ∷ [])
  insert-perm c (d ∷ ds) = elim (Bool-cases (lt c.match_confidence d.match_confidence)) [
    | inl later ↦ rw later (Perm.trans (Perm.cons d (insert-perm c ds)) (Perm.swap c d ds))
    | inr here ↦ rw here (Perm.refl (c ∷ (d ∷ ds)))
  ]

  -- Ranking loses no candidate and invents none.
  pub sort-perm : (cs : List (Candidate F)) → Perm (sort_by_confidence fl cs) cs
  unfolding sort_by_confidence
  sort-perm [] = Perm.refl []
  sort-perm (c ∷ cs) =
      Perm.trans (insert-perm c (sort_by_confidence fl cs)) (Perm.cons c (sort-perm cs))

  insert-All {ℓ} :
      (P : Candidate F → Type ℓ) (c : Candidate F) (cs : List (Candidate F))
      → P c
      → All P cs
      → All P (insert_by_confidence fl c cs)
  unfolding insert_by_confidence
  insert-All P c [] p h = (p, h)
  insert-All P c (d ∷ ds) p h = elim (Bool-cases (lt c.match_confidence d.match_confidence)) [
    | inl later ↦ rw later (h.0, insert-All P c ds p h.1)
    | inr here ↦ rw here (p, h)
  ]

  pub sort-All {ℓ} :
      (P : Candidate F → Type ℓ) (cs : List (Candidate F))
      → All P cs
      → All P (sort_by_confidence fl cs)
  unfolding sort_by_confidence
  sort-All P [] h = tt
  sort-All P (c ∷ cs) h = insert-All P c (sort_by_confidence fl cs) h.0 (sort-All P cs h.1)

  module _ (o : IsOrdered fl) where
    insert-IsRanked :
        (c : Candidate F) (cs : List (Candidate F))
        → IsRanked cs
        → IsRanked (insert_by_confidence fl c cs)
    unfolding insert_by_confidence
    insert-IsRanked c [] h = (tt, tt)
    insert-IsRanked c (d ∷ ds) h = elim (Bool-cases (lt c.match_confidence d.match_confidence)) [
      | inl later ↦ rw later (
        insert-All (ScoresAtMost d) c ds (o.lt_asymm c.match_confidence d.match_confidence later)
            h.0,
        insert-IsRanked c ds h.1,
      )
      | inr here ↦ rw here (
        (
          here,
          All-impl (ScoresAtMost d) (ScoresAtMost c) ds
              (λ e le. o.le_trans e.match_confidence d.match_confidence c.match_confidence le here)
              h.0,
        ),
        h,
      )
    ]

    pub sort-IsRanked : (cs : List (Candidate F)) → IsRanked (sort_by_confidence fl cs)
    unfolding sort_by_confidence
    sort-IsRanked [] = tt
    sort-IsRanked (c ∷ cs) = insert-IsRanked c (sort_by_confidence fl cs) (sort-IsRanked cs)

  pub IsRanked-take : (n : ℕ) (cs : List (Candidate F)) → IsRanked cs → IsRanked (take n cs)
  IsRanked-take zero cs h = tt
  IsRanked-take (suc n) [] h = tt
  IsRanked-take (suc n) (c ∷ cs) h = (All-take (ScoresAtMost c) n cs h.0, IsRanked-take n cs h.1)

  -- All that is cut off scores at most as high as all that is kept.
  pub IsRanked-cut :
      (n : ℕ) (cs : List (Candidate F))
      → IsRanked cs
      → All (λ c. All (ScoresAtMost c) (drop n cs)) (take n cs)
  IsRanked-cut zero cs h = tt
  IsRanked-cut (suc n) [] h = tt
  IsRanked-cut (suc n) (c ∷ cs) h = (All-drop (ScoresAtMost c) n cs h.0, IsRanked-cut n cs h.1)
