-- ===== src/Match/Safety.antt =====
-- The hard constraints (check_rating, check_handing, check_division of
-- backend/pipeline/stages/match.py), and what every accepted candidate satisfies.
use mathlib.Core.List.{Memᴰ}
use text.Mathlib.TextEquality.{eq_iff}
use cbc_new.Prelude.{
  ℕ, ◌≤◌, ◌≡◌, refl, ◌↔◌, String, true, ◌&&◌, Option, none, some, List, [], ◌∷◌, map, arith, All,
  All-take, keep, Bool-cases, inl, inr,
}
use cbc_new.Prelude.Float.{Float}
use cbc_new.Prelude.Fuzz.{Fuzz}
use cbc_new.Parsers.Handing.{Handing, lh, rh, lhr, rhr}
use cbc_new.Match.{
  CatalogItem, MatchCriteria, compare_rating, check_rating, handing_eq, compare_handing,
  check_handing, compare_division, check_division, rating_is_unresolved, handing_is_unresolved,
}
use cbc_new.Match.Score.{Candidate, is_eligible, score_candidate}
use cbc_new.Match.Snapshot.{CatalogSnapshot, candidates_for}
use cbc_new.Match.Rank.{sort_by_confidence, unresolved, rank_candidates, match_criteria}
use cbc_new.Match.Order.{sort-All}

-- A required rating is offered in full, two stated hands are the same, and two stated divisions are
-- the same.
pub record MeetsConstraints (c : MatchCriteria) (item : CatalogItem) : Type 0 where
  pub rated :
      (required : ℕ)
      → c.fire_rating_minutes ≡ some required
      → (offered : ℕ) × (item.fire_rating_minutes ≡ some offered) × (required ≤ offered)
  pub handed :
      (required offered : Handing)
      → c.handing ≡ some required
      → item.handing ≡ some offered
      → required ≡ offered
  pub divided :
      (wanted offered : String)
      → c.csi_division ≡ some wanted
      → item.csi_division ≡ some offered
      → offered ≡ wanted

abbrev IsOffered : Option ℕ → Option ℕ → Type 0
IsOffered required offered = (r : ℕ) → required ≡ some r → (o : ℕ) × (offered ≡ some o) × (r ≤ o)

compare_rating_sound :
    (required offered : Option ℕ)
    → (compare_rating required offered).ok ≡ true
    → IsOffered required offered
unfolding compare_rating
compare_rating_sound none offered h r e = cc
compare_rating_sound (some q) none h r e = cc
compare_rating_sound (some q) (some o) h r e = (o, refl, ground arith)

compare_rating_complete :
    (required offered : Option ℕ)
    → IsOffered required offered
    → (compare_rating required offered).ok ≡ true
unfolding compare_rating
compare_rating_complete none none h = refl
compare_rating_complete none (some o) h = refl
compare_rating_complete (some q) none h = let (o, e, le) = h q refl in cc
compare_rating_complete (some q) (some o) h = let (o', e, le) = h q refl in ground arith

handing_eq_iff : (a b : Handing) → (handing_eq a b ≡ true) ↔ (a ≡ b)
unfolding handing_eq
handing_eq_iff lh b = ground arith
handing_eq_iff rh b = ground arith
handing_eq_iff lhr b = ground arith
handing_eq_iff rhr b = ground arith

compare_handing_iff :
    (required offered : Option Handing)
    → ((compare_handing required offered).ok ≡ true)
      ↔ ((r o : Handing) → required ≡ some r → offered ≡ some o → r ≡ o)
unfolding compare_handing
compare_handing_iff none none = (λ h r o p q. cc, λ f. refl)
compare_handing_iff (some a) none = (λ h r o p q. cc, λ f. refl)
compare_handing_iff none (some b) = (λ h r o p q. cc, λ f. refl)
compare_handing_iff (some a) (some b) = (
  λ h r o p q. let same : a ≡ b = (handing_eq_iff a b).0 (ground arith) in cc,
  λ f. let same = (handing_eq_iff a b).1 (f a b refl refl) in ground arith,
)

compare_division_iff :
    (wanted offered : Option String)
    → ((compare_division wanted offered).ok ≡ true)
      ↔ ((w o : String) → wanted ≡ some w → offered ≡ some o → o ≡ w)
unfolding compare_division
compare_division_iff none none = (λ h w o p q. cc, λ f. refl)
compare_division_iff (some a) none = (λ h w o p q. cc, λ f. refl)
compare_division_iff none (some b) = (λ h w o p q. cc, λ f. refl)
compare_division_iff (some a) (some b) = (
  λ h w o p q. let same : b ≡ a = (eq_iff b a).0 (ground arith) in cc,
  λ f. let same = (eq_iff b a).1 (f a b refl refl) in ground arith,
)

module _ (fl : Float) (fz : Fuzz (fl.F)) where
  open fl use {F}

  eligible_checks :
      (c : MatchCriteria) (item : CatalogItem) (tolerance : ℕ)
      → is_eligible (score_candidate fl fz c item tolerance)
        ≡ ((check_rating c item).ok && (check_handing c item).ok && (check_division c item).ok)
  unfolding is_eligible score_candidate
  eligible_checks c item tolerance = refl

  -- A candidate is eligible exactly if its item meets the hard constraints of the criteria, whatever
  -- its scores are.
  pub is_eligible_iff :
      (c : MatchCriteria) (item : CatalogItem) (tolerance : ℕ)
      → (is_eligible (score_candidate fl fz c item tolerance) ≡ true) ↔ MeetsConstraints c item
  unfolding check_rating check_handing check_division
  is_eligible_iff c item tolerance =
      let checks = eligible_checks c item tolerance in
      (
        λ h. record {
          rated =
              compare_rating_sound c.fire_rating_minutes item.fire_rating_minutes (ground arith);
          handed = (compare_handing_iff c.handing item.handing).0 (ground arith);
          divided = (compare_division_iff c.csi_division item.csi_division).0 (ground arith);
        },
        λ m.
            let rated =
              compare_rating_complete c.fire_rating_minutes item.fire_rating_minutes m.rated in
            let handed = (compare_handing_iff c.handing item.handing).1 m.handed in
            let divided = (compare_division_iff c.csi_division item.csi_division).1 m.divided in
            ground arith,
      )

  -- The score of an item of the catalogue that meets the constraints.
  pub record IsProposable (c : MatchCriteria) (items : List CatalogItem) (tolerance : ℕ)
      (k : Candidate F) : Type 0 where
    pub item : CatalogItem
    pub listed : Memᴰ item items
    pub scored : k ≡ score_candidate fl fz c item tolerance
    pub meets : MeetsConstraints c item

  abbrev IsScored : MatchCriteria → List CatalogItem → ℕ → Candidate F → Type 0
  IsScored c items tolerance k =
      (item : CatalogItem) × Memᴰ item items × (k ≡ score_candidate fl fz c item tolerance)

  keep-IsProposable :
      (c : MatchCriteria) (items : List CatalogItem) (tolerance : ℕ) (ks : List (Candidate F))
      → All (IsScored c items tolerance) ks
      → All (IsProposable c items tolerance) (keep is_eligible ks)
  keep-IsProposable c items tolerance [] h = tt
  keep-IsProposable c items tolerance (k ∷ ks) ((item, listed, e), hs) =
      let rest = keep-IsProposable c items tolerance ks hs in
      elim (Bool-cases (is_eligible k)) [
        | inr refused ↦ rw refused rest
        | inl eligible ↦ rw eligible (
          record {
            item = item;
            listed = listed;
            scored = e;
            meets = (is_eligible_iff c item tolerance).0 (rw e at eligible);
          },
          rest,
        )
      ]

  map-IsScored :
      (c : MatchCriteria) (tolerance : ℕ) (items more : List CatalogItem)
      → ((item : CatalogItem) → Memᴰ item more → Memᴰ item items)
      → All (IsScored c items tolerance) (map (λ item. score_candidate fl fz c item tolerance) more)
  map-IsScored c tolerance items [] inc = tt
  map-IsScored c tolerance items (item ∷ more) inc = (
    (item, inc item (Memᴰ.head refl), refl),
    map-IsScored c tolerance items more (λ other m. inc other (Memᴰ.tail m)),
  )

  rank-IsProposable :
      (c : MatchCriteria) (items : List CatalogItem) (top_n : ℕ) (cutoff : F) (tolerance : ℕ)
      → All
          (IsProposable c items tolerance)
          (rank_candidates fl fz c items top_n cutoff tolerance).accepted
  unfolding rank_candidates
  rank-IsProposable c items top_n cutoff tolerance =
      let scored = map (λ item. score_candidate fl fz c item tolerance) items in
      All-take (IsProposable c items tolerance) top_n
        (sort_by_confidence fl (keep is_eligible scored))
        (sort-All fl (IsProposable c items tolerance) (keep is_eligible scored) (
          keep-IsProposable c items tolerance scored
            (map-IsScored c tolerance items items (λ item m. m))))

  -- Every candidate that a match proposes is the score of an item among the candidates of the
  -- snapshot that meets the hard constraints: for a required rating the item has a rating that is
  -- no lower, and a hand or a division that both state is the same, whatever the similarity of the
  -- texts.
  pub accepted-IsProposable :
      (c : MatchCriteria) (s : CatalogSnapshot) (top_n : ℕ) (cutoff : F) (tolerance : ℕ)
      → All
          (IsProposable c (candidates_for s c) tolerance)
          (match_criteria fl fz c s top_n cutoff tolerance).accepted
  unfolding match_criteria unresolved
  accepted-IsProposable c s top_n cutoff tolerance = elim (Bool-cases (rating_is_unresolved c)) [
    | inl no_rating ↦ rw no_rating tt
    | inr rating ↦ elim (Bool-cases (handing_is_unresolved c)) [
      | inl no_hand ↦ rw (rating, no_hand) tt
      | inr hand ↦
          rw (rating, hand) (rank-IsProposable c (candidates_for s c) top_n cutoff tolerance)
    ]
  ]
