-- ===== src/Quotes/Draft/Choice.antt =====
-- Which match a line is built from (_best_match of backend/api/quotes/draft_ops.py).
use mathlib.Core.Path.{subst}
use mathlib.Core.List.{Memᴰ}
use cbc_new.Prelude.{
  ◌≤◌, ◌≡◌, refl, sym, ap, if◌then◌else◌, ◌⊎◌, Bool, true, false, none, some, List, [], ◌∷◌, keep,
  ltb, arith, Bool-cases, Option-cases, inl, inr, All,
}
use cbc_new.Prelude.Members.{All_get, mem_of_keep, mem-keep}
use cbc_new.Quotes.Draft.{
  DraftMatch, is_accepted, is_proposed, min_rank, lowest_rank, first_of, best_match,
}

abbrev pub IsLowest : (DraftMatch → Bool) → List DraftMatch → DraftMatch → Type 0
IsLowest p matches m = (n : DraftMatch) → Memᴰ n matches → p n ≡ true → m.rank ≤ n.rank

-- The match that a list of candidates gives: it is one of them, accepted by an estimator or, where
-- none is, proposed, and no other of its status ranks before it.
pub record IsBest (matches : List DraftMatch) (m : DraftMatch) : Type 0 where
  pub member : Memᴰ m matches
  pub standing :
      ((is_accepted m ≡ true) × IsLowest is_accepted matches m)
      ⊎ (((is_proposed m ≡ true) × IsLowest is_proposed matches m)
          × ((n : DraftMatch) → Memᴰ n matches → is_accepted n ≡ false))

Mem-min_rank : (b : DraftMatch) (ms : List DraftMatch) → Memᴰ (min_rank b ms) (b ∷ ms)
unfolding min_rank
Mem-min_rank b [] = Memᴰ.head refl
Mem-min_rank b (m ∷ ms) = elim (Bool-cases (ltb m.rank b.rank)) [
  | inl lower ↦ rw lower (Memᴰ.tail (Mem-min_rank m ms))
  | inr higher ↦ rw higher (under b m ms (Mem-min_rank b ms))
]
  where
    under :
        (b m : DraftMatch) (ms : List DraftMatch) {x : DraftMatch}
        → Memᴰ x (b ∷ ms)
        → Memᴰ x (b ∷ (m ∷ ms))
    under b m ms (Memᴰ.head e) = Memᴰ.head e
    under b m ms (Memᴰ.tail h) = Memᴰ.tail (Memᴰ.tail h)

min_rank-le-head : (b : DraftMatch) (ms : List DraftMatch) → (min_rank b ms).rank ≤ b.rank
unfolding min_rank
min_rank-le-head b [] = omega arith
min_rank-le-head b (m ∷ ms) = elim (Bool-cases (ltb m.rank b.rank)) [
  | inl lower ↦ rw (lower, min_rank) (ground (arith, min_rank-le-head m ms))
  | inr higher ↦ rw (higher, min_rank) (min_rank-le-head b ms)
]

min_rank-le : (b : DraftMatch) (ms : List DraftMatch) → All (λ n. (min_rank b ms).rank ≤ n.rank) ms
unfolding min_rank
min_rank-le b [] = tt
min_rank-le b (m ∷ ms) = elim (Bool-cases (ltb m.rank b.rank)) [
  | inl lower ↦
      let step : min_rank b (m ∷ ms) ≡ min_rank m ms =
        ap (λ c. min_rank (if c then m else b) ms) lower in
      subst (λ x. All (λ n. x.rank ≤ n.rank) (m ∷ ms)) (sym step)
        (min_rank-le-head m ms, min_rank-le m ms)
  | inr higher ↦
      let step : min_rank b (m ∷ ms) ≡ min_rank b ms =
        ap (λ c. min_rank (if c then m else b) ms) higher in
      subst (λ x. All (λ n. x.rank ≤ n.rank) (m ∷ ms)) (sym step)
        (ground (arith, higher, min_rank-le-head b ms), min_rank-le b ms)
]

abbrev IsFound : (DraftMatch → Bool) → List DraftMatch → DraftMatch → Type 0
IsFound p matches m = Memᴰ m matches × (p m ≡ true) × IsLowest p matches m

lowest_rank-IsFound :
    (p : DraftMatch → Bool) (ms kept : List DraftMatch) (m : DraftMatch)
    → keep p ms ≡ kept
    → lowest_rank kept ≡ some m
    → IsFound p ms m
unfolding lowest_rank
lowest_rank-IsFound p ms [] m e h = absurd cc
lowest_rank-IsFound p ms (b ∷ bs) m e h =
    let here : min_rank b bs ≡ m = cc in
    let listed : Memᴰ m (keep p ms) = rw (e, ← here) (Mem-min_rank b bs) in
    let (member, holds) = mem_of_keep p ms m listed in
    let low : All (λ n. m.rank ≤ n.rank) (b ∷ bs) =
      subst (λ x. All (λ n. x.rank ≤ n.rank) (b ∷ bs)) here
        (min_rank-le-head b bs, min_rank-le b bs) in
    (
      member,
      holds,
      λ n in_list q.
          let kept_n : Memᴰ n (b ∷ bs) = rw (← e) (mem-keep p ms n in_list q) in
          All_get (λ k. m.rank ≤ k.rank) (b ∷ bs) n low kept_n,
    )

lowest_rank-none :
    (p : DraftMatch → Bool) (ms kept : List DraftMatch) (n : DraftMatch)
    → keep p ms ≡ kept
    → lowest_rank kept ≡ none
    → Memᴰ n ms
    → p n ≡ false
unfolding lowest_rank
lowest_rank-none p ms [] n e h listed = elim (Bool-cases (p n)) [
  | inl passed ↦ absurd (let kept_n = mem-keep p ms n listed passed in elim (rw e at kept_n) [ ])
  | inr failed ↦ failed
]
lowest_rank-none p ms (b ∷ bs) n e h listed = absurd cc

-- The match that a line is built from is one of the matches given; it is accepted and of the lowest
-- rank of the accepted ones, or no match is accepted and it is proposed and of the lowest rank of
-- the proposed ones.
pub best_match-IsBest :
    (matches : List DraftMatch) (m : DraftMatch) → best_match matches ≡ some m → IsBest matches m
unfolding best_match first_of
best_match-IsBest matches m e =
    let of_accepted = lowest_rank (keep is_accepted matches) in
    elim (Option-cases of_accepted) [
      | inr (a, found) ↦
          let same : a ≡ m = (let here = rw (found, first_of) at e in cc) in
          let (member, holds, low) =
            lowest_rank-IsFound is_accepted matches (keep is_accepted matches) m refl
              (rw (← same) found) in
          record { member = member; standing = inl (holds, low) }
      | inl missing ↦
          let found : lowest_rank (keep is_proposed matches) ≡ some m =
            rw (missing, first_of) at e in
          let (member, holds, low) =
            lowest_rank-IsFound is_proposed matches (keep is_proposed matches) m refl found in
          record {
            member = member;
            standing = inr (
              (holds, low),
              λ n listed.
                  lowest_rank-none is_accepted matches (keep is_accepted matches) n refl missing
                    listed,
            );
          }
    ]
