-- ===== src/Link/Record.antt =====
-- The loop of linking over the names of a record's fields (link_fields of
-- backend/pipeline/stages/link.py).
use cbc_new.Prelude.{
  ℕ, suc, ◌+◌, String, ◌≡◌, refl, Option, none, some, List, [], ◌∷◌, map, ◌∙◌, sym, arith, All,
  length,
}
use cbc_new.Prelude.Dict.{Dict, lookup}
use cbc_new.Prelude.Float.{Float}
use cbc_new.Prelude.Fuzz.{Fuzz}
use cbc_new.Gate.{
  Verdict, accept, accept_null, reject, RejectionCode, unknown_element, null_with_citation,
  value_without_citation, not_grounded, FieldVerdict,
}
use cbc_new.Gate.Verdicts.{validate_field_total}
use cbc_new.Gate.Confidence.{completeness_penalty}
use cbc_new.Link.{
  ReviewState, auto, flagged, confirmed, corrected, rejected, LinkStats, Emitted, LinkedField,
  Context, count_populated, count_rejection, count_accepted, refused_field, accepted_field,
  link_verdict, link_field, link_each, link_fields,
}
use cbc_new.Link.Fields.{IsLinked, missing-IsLinked, link_verdict-IsLinked}

-- The fields that the counters have settled as accepted or refused.
abbrev pub settled : LinkStats → ℕ
settled s = s.fields_accepted + s.fields_rejected_citation + s.fields_rejected_grounding

-- As many fields were settled as were emitted.
abbrev pub IsBalanced : LinkStats → LinkStats → Type 0
IsBalanced s t = t.fields_emitted + settled s ≡ s.fields_emitted + settled t

count_rejection-settled :
    (code : Option RejectionCode) (s : LinkStats)
    → (settled (count_rejection code s) ≡ suc (settled s))
      × ((count_rejection code s).fields_emitted ≡ s.fields_emitted)
unfolding count_rejection
count_rejection-settled none s = omega arith
count_rejection-settled (some unknown_element) s = omega arith
count_rejection-settled (some null_with_citation) s = omega arith
count_rejection-settled (some value_without_citation) s = omega arith
count_rejection-settled (some not_grounded) s = omega arith

module _ (fl : Float) (fz : Fuzz (fl.F)) where
  open fl use {F}

  count_accepted-settled :
      (v : Verdict) (r : ReviewState) (s : LinkStats)
      → (settled (count_accepted fl fz v r s) ≡ suc (settled s))
        × ((count_accepted fl fz v r s).fields_emitted ≡ s.fields_emitted)
  unfolding count_accepted
  count_accepted-settled accept flagged s = omega arith
  count_accepted-settled accept auto s = omega arith
  count_accepted-settled accept confirmed s = omega arith
  count_accepted-settled accept corrected s = omega arith
  count_accepted-settled accept rejected s = omega arith
  count_accepted-settled accept_null r s = omega arith
  count_accepted-settled reject r s = omega arith

  module _ (ctx : Context F) (penalty : F) where
    link_verdict-settled :
        (name : String) (e : Emitted F) (s : LinkStats) (v : FieldVerdict F) (w : Verdict)
        → v.verdict ≡ w
        → let t = (link_verdict fl fz ctx penalty name e s v).1 in
          (settled t ≡ suc (settled s)) × (t.fields_emitted ≡ s.fields_emitted)
    unfolding link_verdict
    link_verdict-settled name e s v reject p =
        rw (p, link_verdict) (count_rejection-settled v.code s)
    link_verdict-settled name e s v accept p =
        rw (p, link_verdict) (count_accepted-settled v.verdict _ s)
    link_verdict-settled name e s v accept_null p =
        rw (p, link_verdict) (count_accepted-settled v.verdict _ s)

    link_verdict_name :
        (name : String) (e : Emitted F) (s : LinkStats) (v : FieldVerdict F) (w : Verdict)
        → v.verdict ≡ w
        → (link_verdict fl fz ctx penalty name e s v).0.name ≡ name
    unfolding link_verdict refused_field accepted_field
    link_verdict_name name e s v reject p = rw (p, link_verdict)
    link_verdict_name name e s v accept p = rw (p, link_verdict)
    link_verdict_name name e s v accept_null p = rw (p, link_verdict)

    -- One round gives a field of that name that keeps the contract, and balances the counters.
    record IsRound (name : String) (s : LinkStats) (r : Option (LinkedField F × LinkStats))
        : Type 0 where
      linked : LinkedField F
      stats : LinkStats
      result : r ≡ some (linked, stats)
      contract : IsLinked fl fz ctx linked
      named : linked.name ≡ name
      balanced : IsBalanced s stats

    link_field-IsRound :
        (name : String) (e : Option (Emitted F)) (s : LinkStats)
        → IsRound name s (link_field fl fz ctx penalty name e s)
    unfolding link_field
    link_field-IsRound name none s = record {
      linked = _;
      stats = s;
      result = refl;
      contract = missing-IsLinked fl fz ctx penalty name;
      named = refl;
      balanced = refl;
    }
    link_field-IsRound name (some e) s =
        let counted = record s { fields_emitted = s.fields_emitted + 1 } in
        let (v, says) =
          validate_field_total fl fz e.value e.source_element_ids ctx.supplied_elements
            ctx.settings.grounding_min_ratio in
        let (more, same) = link_verdict-settled name e counted v v.verdict refl in
        record {
          linked = (link_verdict fl fz ctx penalty name e counted v).0;
          stats = (link_verdict fl fz ctx penalty name e counted v).1;
          result = rw (says, link_field);
          contract = link_verdict-IsLinked fl fz ctx penalty name e counted v says;
          named = link_verdict_name name e counted v v.verdict refl;
          balanced = omega arith;
        }

    -- What linking a record gives: a field for each name, in order, each keeping the contract.
    record IsRecord (names : List String) (s : LinkStats)
        (r : Option (List (LinkedField F) × LinkStats)) : Type 0 where
      linked : List (LinkedField F)
      stats : LinkStats
      result : r ≡ some (linked, stats)
      contract : All (IsLinked fl fz ctx) linked
      named : map (λ (l : LinkedField F). l.name) linked ≡ names
      balanced : IsBalanced s stats

    link_each-IsRecord :
        (fields : Dict (Emitted F)) (names : List String) (s : LinkStats)
        → IsRecord names s (link_each fl fz ctx penalty fields names s)
    unfolding link_each
    link_each-IsRecord fields [] s = record {
      linked = [];
      stats = s;
      result = refl;
      contract = tt;
      named = refl;
      balanced = refl;
    }
    link_each-IsRecord fields (name ∷ names) s =
        let first = link_field-IsRound name (lookup name fields) s in
        let rest = link_each-IsRecord fields names first.stats in
        let start : IsBalanced s first.stats = first.balanced in
        let finish : IsBalanced first.stats rest.stats = rest.balanced in
        record {
          linked = first.linked ∷ rest.linked;
          stats = rest.stats;
          result = ground (arith, first.result, rest.result);
          contract = (first.contract, rest.contract);
          named = cc (first.named, rest.named);
          balanced = omega arith;
        }

  module _ (ctx : Context F) (fields : Dict (Emitted F)) (names : List String) (s : LinkStats) where
    -- Linking always succeeds, and gives one field for each name, in the order of the names: a
    -- field that the model left out, and one that the gate refused, are recorded all the same.
    pub link_fields_complete :
        (linked : List (LinkedField F)) × (stats : LinkStats) × (link_fields fl fz ctx fields names
            s
          ≡ some (linked, stats))
        × (map (λ (l : LinkedField F). l.name) linked ≡ names)
    unfolding link_fields
    link_fields_complete =
        let penalty = completeness_penalty fl (count_populated fields names) (length names) in
        let done = link_each-IsRecord ctx penalty fields names s in
        (done.linked, done.stats, done.result, done.named)

    module _ (linked : List (LinkedField F)) (stats : LinkStats)
        (e : link_fields fl fz ctx fields names s ≡ some (linked, stats)) where
      -- Every linked field keeps the contract: a value that is not blank and not refused passed the
      -- gate with the citations that are kept, a refused field keeps none, and a zero-tolerance field
      -- that needs no review has a value and a confidence of at least its threshold.
      pub link_fields-IsLinked : All (IsLinked fl fz ctx) linked
      unfolding link_fields
      link_fields-IsLinked =
          let penalty = completeness_penalty fl (count_populated fields names) (length names) in
          let done = link_each-IsRecord ctx penalty fields names s in
          let same : done.linked ≡ linked = cc (sym done.result ∙ e) in rw (← same) done.contract

      -- The counters account for every emitted field: it is counted once, as accepted, as refused
      -- for its citations, or as refused for its grounding.
      pub link_fields-IsBalanced : IsBalanced s stats
      unfolding link_fields
      link_fields-IsBalanced =
          let penalty = completeness_penalty fl (count_populated fields names) (length names) in
          let done = link_each-IsRecord ctx penalty fields names s in
          let same : done.stats ≡ stats = cc (sym done.result ∙ e) in rw (← same) done.balanced
