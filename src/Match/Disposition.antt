-- ===== src/Match/Disposition.antt =====
-- The disposition of a match, and the completeness of its ranking (match_criteria and
-- CatalogSnapshot of backend/pipeline/stages/match.py).
use mathlib.Core.List.{Perm, Memᴰ}
use mathlib.Core.Path.{subst}
use mathlib.Core.List.Memᴰ
use text.Mathlib.Text.{◌==◌ as str_eq}
use text.Mathlib.TextEquality.{eq_iff}
use text.Mathlib.TextPositions.{eq_refl}
use cbc_new.Prelude.{
  ℕ, ◌≤◌, ◌≡◌, refl, ◌↔◌, ◌⊎◌, String, Bool, true, false, Option, none, some, is_some, List, [],
  ◌∷◌, ◌++◌, map, ap, ◌∙◌, arith, All, keep, drop, take-append-drop, length, length-take-le,
  Bool-cases, inl, inr,
}
use cbc_new.Prelude.Float.{Float, Le, IsOrdered}
use cbc_new.Prelude.Fuzz.{Fuzz}
use cbc_new.Match.{
  CatalogItem, MatchCriteria, compare_division, check_division, rating_is_unresolved,
  handing_is_unresolved,
}
use cbc_new.Match.Score.{Candidate, is_eligible, score_candidate}
use cbc_new.Match.Snapshot.{
  division_eq, Groups, add_item, group_from, group_of, CatalogSnapshot, snapshot, candidates_for,
}
use cbc_new.Match.Rank.{
  MatchStatus, ManualReason, proposed, manual, sort_by_confidence, unresolved, disposition,
  rank_candidates, match_criteria,
}
use cbc_new.Match.Order.{
  ScoresAtMost, IsRanked, sort-perm, sort-IsRanked, IsRanked-take, IsRanked-cut,
}

division_eq_refl : (d : Option String) → division_eq d d ≡ true
division_eq_refl none = refl
division_eq_refl (some a) = eq_refl a

eq_of_division_eq : (d e : Option String) → division_eq d e ≡ true → d ≡ e
eq_of_division_eq none none h = refl
eq_of_division_eq none (some b) h = cc
eq_of_division_eq (some a) none h = cc
eq_of_division_eq (some a) (some b) h = let same = (eq_iff a b).0 h in cc

division_ok : (w o : String) → (compare_division (some w) (some o)).ok ≡ true → str_eq o w ≡ true
unfolding compare_division
division_ok w o h = ground arith

mem_add_item_self :
    (item : CatalogItem) (groups : Groups)
    → Memᴰ item (group_of item.csi_division (add_item item groups))
unfolding group_of add_item
mem_add_item_self item [] = rw (division_eq_refl item.csi_division) (Memᴰ.head refl)
mem_add_item_self item ((d, items) ∷ groups) = elim (Bool-cases (division_eq d item.csi_division)) [
  | inl same ↦ rw (same, group_of, same) (Memᴰ.append_right items (Memᴰ.head refl))
  | inr other ↦ rw (other, group_of, other) (mem_add_item_self item groups)
]

mem_add_item :
    (d : Option String) (other item : CatalogItem) (groups : Groups)
    → Memᴰ item (group_of d groups)
    → Memᴰ item (group_of d (add_item other groups))
unfolding group_of add_item
mem_add_item d other item [] m = elim m [ ]
mem_add_item d other item ((e, items) ∷ groups) m =
    elim (Bool-cases (division_eq e other.csi_division)) [
      | inl same ↦ rw same (in_group (division_eq e d) refl m)
      | inr differ ↦ rw differ (in_rest (division_eq e d) refl (mem_add_item d other item groups) m)
    ]
  where
    in_group :
        (b : Bool)
        → division_eq e d ≡ b
        → Memᴰ item (group_of d ((e, items) ∷ groups))
        → Memᴰ item (group_of d ((e, items ++ (other ∷ [])) ∷ groups))
    in_group true p n = rw (p, group_of) (Memᴰ.append_left (other ∷ []) (rw (p, group_of) at n))
    in_group false p n = rw (p, group_of) (rw (p, group_of) at n)

    in_rest :
        (b : Bool)
        → division_eq e d ≡ b
        → (Memᴰ item (group_of d groups) → Memᴰ item (group_of d (add_item other groups)))
        → Memᴰ item (group_of d ((e, items) ∷ groups))
        → Memᴰ item (group_of d ((e, items) ∷ add_item other groups))
    in_rest true p later n = rw (p, group_of) (rw (p, group_of) at n)
    in_rest false p later n = rw (p, group_of) (later (rw (p, group_of) at n))

mem_group_from_old :
    (d : Option String) (item : CatalogItem) (items : List CatalogItem) (groups : Groups)
    → Memᴰ item (group_of d groups)
    → Memᴰ item (group_of d (group_from groups items))
unfolding group_from
mem_group_from_old d item [] groups m = m
mem_group_from_old d item (other ∷ items) groups m =
    mem_group_from_old d item items (add_item other groups) (mem_add_item d other item groups m)

mem_group_from :
    (item : CatalogItem) (items : List CatalogItem) (groups : Groups)
    → Memᴰ item items
    → Memᴰ item (group_of item.csi_division (group_from groups items))
unfolding group_from
mem_group_from item [] groups m = elim m [ ]
mem_group_from item (other ∷ items) groups (Memᴰ.head e) = rw e (
    mem_group_from_old other.csi_division other items (add_item other groups)
      (mem_add_item_self other groups))
mem_group_from item (other ∷ items) groups (Memᴰ.tail m) =
    mem_group_from item items (add_item other groups) m

-- Looking only at the groups of the wanted division and of no division leaves out no item of the
-- catalogue that passes the division check.
pub candidates_for_complete :
    (items : List CatalogItem) (c : MatchCriteria) (item : CatalogItem)
    → Memᴰ item items
    → (check_division c item).ok ≡ true
    → Memᴰ item (candidates_for (snapshot items) c)
unfolding candidates_for snapshot check_division
candidates_for_complete items c item m ok = by_division c.csi_division item.csi_division refl refl
  where
    grouped : Memᴰ item (group_of item.csi_division (group_from [] items))
    grouped = mem_group_from item items [] m

    by_division :
        (w o : Option String)
        → c.csi_division ≡ w
        → item.csi_division ≡ o
        → Memᴰ item (candidates_for (snapshot items) c)
    by_division none o p q = rw (p, candidates_for) m
    by_division (some w) none p q =
        rw (p, candidates_for)
          (Memᴰ.append_right (group_of (some w) (group_from [] items))
            (subst (λ d. Memᴰ item (group_of d (group_from [] items))) q grouped))
    by_division (some w) (some o) p q =
        let same : o ≡ w = (eq_iff o w).0 (division_ok w o (rw (p, q) at ok)) in
        rw (p, candidates_for)
          (Memᴰ.append_left (group_of none (group_from [] items))
            (subst (λ d. Memᴰ item (group_of d (group_from [] items))) (q ∙ ap some same) grouped))

module _ (fl : Float) (fz : Fuzz (fl.F)) where
  open fl use {F, lt}

  disposition_iff :
      (cutoff : F) (top : List (Candidate F))
      → ((disposition fl cutoff top).0 ≡ proposed) ↔ (
          (k : Candidate F) × (rest : List (Candidate F)) × (top ≡ k ∷ rest)
          × Le fl cutoff k.match_confidence)
  unfolding disposition
  disposition_iff cutoff [] = (λ e. cc, λ (k, rest, e, le). cc)
  disposition_iff cutoff (k ∷ ks) =
      (λ e. (k, ks, refl, ground arith), λ (k', rest, e, le). ground arith)

  -- A match is proposed without a reason, or manual with one.
  abbrev pub IsDisposed : MatchStatus → Option ManualReason → Type 0
  IsDisposed status reason =
      ((status ≡ proposed) × (reason ≡ none)) ⊎ ((status ≡ manual) × (is_some reason ≡ true))

  disposition-IsDisposed :
      (cutoff : F) (top : List (Candidate F))
      → let d = disposition fl cutoff top in IsDisposed d.0 d.1
  unfolding disposition
  disposition-IsDisposed cutoff [] = inr (refl, refl)
  disposition-IsDisposed cutoff (k ∷ ks) = elim (Bool-cases (lt k.match_confidence cutoff)) [
    | inl below ↦ rw below (inr (refl, refl))
    | inr above ↦ rw above (inl (refl, refl))
  ]

  rank-IsDisposed :
      (c : MatchCriteria) (items : List CatalogItem) (top_n : ℕ) (cutoff : F) (tolerance : ℕ)
      → let r = rank_candidates fl fz c items top_n cutoff tolerance in
        IsDisposed r.status r.manual_reason
  unfolding rank_candidates
  rank-IsDisposed c items top_n cutoff tolerance = disposition-IsDisposed cutoff _

  rank_proposed_iff :
      (c : MatchCriteria) (items : List CatalogItem) (top_n : ℕ) (cutoff : F) (tolerance : ℕ)
      → let r = rank_candidates fl fz c items top_n cutoff tolerance in
        (r.status ≡ proposed) ↔ (
          (k : Candidate F) × (rest : List (Candidate F)) × (r.accepted ≡ k ∷ rest)
          × Le fl cutoff k.match_confidence)
  unfolding rank_candidates
  rank_proposed_iff c items top_n cutoff tolerance = disposition_iff cutoff _

  module _ (c : MatchCriteria) (s : CatalogSnapshot) (top_n : ℕ) (cutoff : F) (tolerance : ℕ) where
    -- A match proposes a line exactly if the rating and the hand are resolved and the first accepted
    -- candidate scores at least the cut-off, and then gives no reason; everything else is manual, with
    -- a reason.
    pub proposed_iff :
        let r = match_criteria fl fz c s top_n cutoff tolerance in
        ((r.status ≡ proposed) ↔ (
          (rating_is_unresolved c ≡ false)
          × (handing_is_unresolved c ≡ false)
          × ((k : Candidate F) × (rest : List (Candidate F)) × (r.accepted ≡ k ∷ rest)
              × Le fl cutoff k.match_confidence)))
        × IsDisposed r.status r.manual_reason
    unfolding match_criteria unresolved
    proposed_iff = elim (Bool-cases (rating_is_unresolved c)) [
      | inl no_rating ↦ rw no_rating ((λ e. cc, λ (rating, _, _). cc), inr (refl, refl))
      | inr rating ↦ elim (Bool-cases (handing_is_unresolved c)) [
        | inl no_hand ↦ rw (rating, no_hand) ((λ e. cc, λ (_, hand, _). cc), inr (refl, refl))
        | inr hand ↦
            let ranked = rank_proposed_iff c (candidates_for s c) top_n cutoff tolerance in
            rw (rating, hand)
              (
                (λ e. (refl, refl, ranked.0 e), λ (_, _, top). ranked.1 top),
                rank-IsDisposed c (candidates_for s c) top_n cutoff tolerance,
              )
      ]
    ]

    -- If the rating or the hand was never resolved, nothing is accepted and the line is manual.
    pub unresolved_is_manual :
        (rating_is_unresolved c ≡ true) ⊎ (handing_is_unresolved c ≡ true)
        → let r = match_criteria fl fz c s top_n cutoff tolerance in
          (r.accepted ≡ []) × (r.status ≡ manual)
    unfolding match_criteria unresolved
    unresolved_is_manual h = ground arith

    module _ (o : IsOrdered fl) (rating : rating_is_unresolved c ≡ false)
        (hand : handing_is_unresolved c ≡ false) where
      -- For ordered floats, with a resolved rating and hand, the accepted candidates are at most `top_n`, ranked by
      -- falling confidence, and together with some candidates that score no higher than any of them
      -- they are a rearrangement of all the eligible candidates.
      pub accepted_are_best :
          let r = match_criteria fl fz c s top_n cutoff tolerance in
          let scored = map (λ item. score_candidate fl fz c item tolerance) (candidates_for s c) in
          (length r.accepted ≤ top_n)
          × IsRanked fl r.accepted
          × ((others : List (Candidate F)) × Perm (r.accepted ++ others) (keep is_eligible scored)
              × All (λ k. All (ScoresAtMost fl k) others) r.accepted)
      unfolding match_criteria rank_candidates
      accepted_are_best =
          let scored = map (λ item. score_candidate fl fz c item tolerance) (candidates_for s c) in
          let eligible = keep is_eligible scored in
          let sorted = sort_by_confidence fl eligible in
          let ranked = sort-IsRanked fl o eligible in
          rw (rating, hand)
            (
              length-take-le top_n sorted,
              IsRanked-take fl top_n sorted ranked,
              (
                drop top_n sorted,
                rw (take-append-drop top_n sorted) (sort-perm fl eligible),
                IsRanked-cut fl top_n sorted ranked,
              ),
            )
