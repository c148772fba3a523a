-- ===== src/Quotes/Lifecycle/Workflow.antt =====
-- The workflow of a quote, from a draft to an exported one (backend/api/quotes/views.py and
-- handle_quote_export of backend/pipeline/coordinator.py).
use mathlib.Core.Path.{subst}
use cbc_new.Prelude.{◌≡◌, refl, sym, ◌∙◌, ap, Bool, true, false, not, Option, none, some, any}
use cbc_new.Prelude.Text.{Text}
use cbc_new.Quotes.{QuoteStatus, draft, approved, exported, QuoteRow, Env, Db, is_draft}
use cbc_new.Quotes.Draft.{Project}
use cbc_new.Quotes.Views.{
  Outcome, destroy_quote, approve, sign, export, enqueue_quote_export, handle_quote_export,
  is_flagged,
}
use cbc_new.Quotes.Lifecycle.{
  Op, deletes, recalculates, exports, approves, draws, generates, updates, creates, edits, receives,
  removes, prices, passes, asks, rewrites, withdraws, Request, respond, step, Phase, gone, standing,
  phase, phase_of, Moves, stays, drops, signs, sends,
}
use cbc_new.Quotes.Lifecycle.Branches.{by_test, by_quote, by_stored}
use cbc_new.Quotes.Lifecycle.Seals.{Seal, seal_of, sheet, is_signing, respond_sheet}

abbrev phase_signed : Option Seal → Phase
phase_signed none = gone
phase_signed (some s) = standing s.status

phase_of_seal : (quote : Option QuoteRow) → phase_of quote ≡ phase_signed (seal_of quote)
phase_of_seal none = refl
phase_of_seal (some q) = refl

phase_of_sheet : (db db' : Db) → sheet db' ≡ sheet db → phase db' ≡ phase db
phase_of_sheet db db' e =
    phase_of_seal db'.quote ∙ (ap (λ s. phase_signed s.signed) e ∙ sym (phase_of_seal db.quote))

draft_of : (status : QuoteStatus) → is_draft status ≡ true → status ≡ draft
draft_of draft h = refl
draft_of approved h = absurd cc
draft_of exported h = absurd cc

module _ (db : Db) where
  abbrev Goes : Op → Outcome → Type 0
  Goes op out = Moves db.lines op (phase db) (phase out.0)

  from :
      (op : Op) (q : QuoteRow) (p : Phase)
      → db.quote ≡ some q
      → Moves db.lines op (standing q.status) p
      → Moves db.lines op (phase db) p
  from op q p e m = subst (λ o. Moves db.lines op (phase_of o) p) (sym e) m

  from_draft :
      (op : Op) (q : QuoteRow) (p : Phase)
      → db.quote ≡ some q
      → is_draft q.status ≡ true
      → Moves db.lines op (standing draft) p
      → Moves db.lines op (phase db) p
  from_draft op q p e d m =
      from op q p e (subst (λ s. Moves db.lines op (standing s) p) (sym (draft_of q.status d)) m)

  destroy_moves : Goes deletes (destroy_quote db)
  unfolding destroy_quote
  destroy_moves = by_quote (Goes deletes) db db.quote stays (λ q e.
      by_test (Goes deletes) (is_draft q.status) (λ d. from_draft deletes q gone e d drops)
        (λ d. stays))

  approve_moves :
      (env : Env) (confirm : Bool) (notes : Text)
      → Goes (approves confirm notes) (approve env confirm notes db)
  unfolding approve sign
  approve_moves env false notes = stays
  approve_moves env true notes =
      let P = Goes (approves true notes) in
      by_quote P db db.quote stays (λ q e.
        by_test P (not (is_draft q.status)) (λ d. stays)
          (λ d.
            by_test P (any is_flagged db.lines) (λ f. stays)
              (λ f.
                from_draft (approves true notes) q (standing approved) e
                  (opened (is_draft q.status) d) (signs f))))
    where
      opened : (b : Bool) → not b ≡ false → b ≡ true
      opened true h = refl
      opened false h = absurd cc

  export_moves : (env : Env) (sent : Bool) → Goes (exports sent) (export env sent db)
  unfolding export enqueue_quote_export
  export_moves env sent =
      let P = Goes (exports sent) in
      by_quote P db db.quote stays (λ q e.
        by_test P (is_draft q.status) (λ d. stays)
          (λ d.
            by_test P sent (λ m. from (exports sent) q (standing q.status) e stays)
              (λ m. from (exports sent) q (standing q.status) e stays)))

  sent :
      (status : QuoteStatus)
      → is_draft status ≡ false
      → Moves db.lines (draws true) (standing status) (standing exported)
  sent draft h = absurd cc
  sent approved h = sends
  sent exported h = stays

  draw_moves : (env : Env) (drawn : Bool) → Goes (draws drawn) (handle_quote_export env drawn db)
  unfolding handle_quote_export
  draw_moves env false =
      by_stored (Goes (draws false)) db db.quote stays
        (λ q e. by_test (Goes (draws false)) (is_draft q.status) (λ d. stays) (λ d. stays))
  draw_moves env true = by_stored (Goes (draws true)) db db.quote stays (λ q e.
      by_test (Goes (draws true)) (is_draft q.status) (λ d. stays)
        (λ d. from (draws true) q (standing exported) e (sent q.status d)))

  other_moves :
      (env : Env) (project : Project) (op : Op)
      → is_signing op ≡ false
      → Goes op (respond env project op db)
  other_moves env project op h =
      subst (λ p. Moves db.lines op (phase db) p)
        (sym (phase_of_sheet db (respond env project op db).0 (respond_sheet env project op db h)))
        stays

-- Every request moves a quote as its workflow says: it stays where it is, or a draft is deleted, or
-- a draft without a flagged line is approved by a confirmed approval, or an approved quote is
-- exported by its export message.
pub step-Moves : (r : Request) (db : Db) → Moves db.lines r.op (phase db) (phase (step r db))
unfolding step respond
step-Moves r db = move r.op
  where
    move : (op : Op) → Moves db.lines op (phase db) (phase (respond r.env r.project op db).0)
    move deletes = destroy_moves db
    move (approves confirm notes) = approve_moves db r.env confirm notes
    move (exports sent) = export_moves db r.env sent
    move (draws drawn) = draw_moves db r.env drawn
    move recalculates = other_moves db r.env r.project recalculates refl
    move (generates replace) = other_moves db r.env r.project (generates replace) refl
    move (updates edit) = other_moves db r.env r.project (updates edit) refl
    move (creates row) = other_moves db r.env r.project (creates row) refl
    move (edits id edit) = other_moves db r.env r.project (edits id edit) refl
    move (receives rfqs row edit) = other_moves db r.env r.project (receives rfqs row edit) refl
    move (removes id) = other_moves db r.env r.project (removes id) refl
    move (passes id edit) = other_moves db r.env r.project (passes id edit) refl
    move (asks rfq) = other_moves db r.env r.project (asks rfq) refl
    move (rewrites id edit) = other_moves db r.env r.project (rewrites id edit) refl
    move (withdraws id) = other_moves db r.env r.project (withdraws id) refl
    move (prices id price) = other_moves db r.env r.project (prices id price) refl
