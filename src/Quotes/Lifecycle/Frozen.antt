-- ===== src/Quotes/Lifecycle/Frozen.antt =====
-- What can still change once a quote is no draft (the guards of backend/api/quotes/views.py).

use cbc_new.Prelude.{
  ℕ, ◌≡◌, refl, sym, ◌∙◌, ap, Bool, true, false, not, Option, none, some, List, [], ◌∷◌, any, All,
}
use cbc_new.Prelude.Text.{Text}
use cbc_new.Pricing.Assembly.{Quote}
use cbc_new.Quotes.{VendorRfq, QuoteRow, LineRow, Env, Db, is_draft}
use cbc_new.Quotes.Draft.{Project, generate_lines}
use cbc_new.Quotes.Views.{
  Outcome, destroy_quote, recalculate, approve, sign, export, enqueue_quote_export,
  handle_quote_export, generate, is_flagged,
}
use cbc_new.Quotes.Edits.{
  LineEdit, create_line, is_valid, apply_edit, update_line, find_line, destroy_line, pass_line,
  find_rfq,
}
use cbc_new.Quotes.Requests.{RfqEdit, create_rfq, update_rfq, destroy_rfq}
use cbc_new.Quotes.Lifecycle.{
  Op, deletes, recalculates, exports, approves, draws, generates, updates, creates, edits, receives,
  removes, prices, passes, asks, rewrites, withdraws, Request, respond, step, run, Phase, gone,
  standing, phase, phase_of, Moves, stays, drops, signs, sends,
}
use cbc_new.Quotes.Lifecycle.Branches.{by_rfq, by_place, by_test, by_quote, by_stored, by_line}
use cbc_new.Quotes.Lifecycle.Workflow.{step-Moves}

-- The operations that look at no status of this quote: a price of a vendor, an update of the quote,
-- and a line that is moved here from another quote.
abbrev pub is_unguarded : Op → Bool
is_unguarded (updates edit) = true
is_unguarded (receives rfqs row edit) = true
is_unguarded (prices id price) = true
is_unguarded _ = false

abbrev pub is_open : Phase → Bool
is_open gone = false
is_open (standing status) = is_draft status

abbrev pub totals_of : Option QuoteRow → Option Quote
totals_of none = none
totals_of (some quote) = some quote.totals

-- The lines and the totals are those of before.
abbrev pub KeepsFigures : Db → Db → Type 0
KeepsFigures db db' = (db'.lines ≡ db.lines) × (totals_of db'.quote ≡ totals_of db.quote)

module _ (db : Db) (closed : is_open (phase db) ≡ false) where
  abbrev Keeps : Outcome → Type 0
  Keeps out = KeepsFigures db out.0

  shut : (q : QuoteRow) → db.quote ≡ some q → is_draft q.status ≡ false
  shut q e = ap (λ o. is_open (phase_of o)) (sym e) ∙ closed

  at : (q : QuoteRow) → db.quote ≡ some q → some q.totals ≡ totals_of db.quote
  at q e = ap totals_of (sym e)

  destroy_frozen : Keeps (destroy_quote db)
  unfolding destroy_quote
  destroy_frozen =
      by_quote Keeps db db.quote (refl, refl)
        (λ q e.
          by_test Keeps (is_draft q.status) (λ d. absurd (let s = shut q e in cc))
            (λ d. (refl, refl)))

  recalculate_frozen : (env : Env) → Keeps (recalculate env db)
  unfolding recalculate
  recalculate_frozen env =
      by_quote Keeps db db.quote (refl, refl)
        (λ q e.
          by_test Keeps (not (is_draft q.status)) (λ d. (refl, refl))
            (λ d. absurd (opened (is_draft q.status) (shut q e) d)))
    where
      opened : (b : Bool) → b ≡ false → not b ≡ false → ⊥
      opened true h g = cc
      opened false h g = cc

  approve_frozen :
      (env : Env) (confirm : Bool) (notes : Text) → Keeps (approve env confirm notes db)
  unfolding approve sign
  approve_frozen env confirm notes =
      by_test Keeps (not confirm) (λ c. (refl, refl))
        (λ c.
          by_quote Keeps db db.quote (refl, refl)
            (λ q e.
              by_test Keeps (not (is_draft q.status)) (λ d. (refl, refl))
                (λ d.
                  by_test Keeps (any is_flagged db.lines) (λ f. (refl, refl))
                    (λ f. (refl, at q e)))))

  export_frozen : (env : Env) (sent : Bool) → Keeps (export env sent db)
  unfolding export enqueue_quote_export
  export_frozen env sent =
      by_quote Keeps db db.quote (refl, refl)
        (λ q e.
          by_test Keeps (is_draft q.status) (λ d. (refl, refl))
            (λ d. by_test Keeps sent (λ m. (refl, at q e)) (λ m. (refl, at q e))))

  draw_frozen : (env : Env) (drawn : Bool) → Keeps (handle_quote_export env drawn db)
  unfolding handle_quote_export
  draw_frozen env drawn =
      by_stored Keeps db db.quote (refl, refl)
        (λ q e.
          by_test Keeps (is_draft q.status) (λ d. (refl, refl))
            (λ d. by_test Keeps (not drawn) (λ f. (refl, refl)) (λ f. (refl, at q e))))

  generate_frozen :
      (env : Env) (project : Project) (replace : Bool) → Keeps (generate env project replace db)
  unfolding generate generate_lines
  generate_frozen env project replace =
      by_quote Keeps db db.quote (refl, refl) (λ q e. rw (shut q e) (refl, refl))

  create_frozen : (env : Env) (row : LineRow) → Keeps (create_line env row db)
  unfolding create_line
  create_frozen env row =
      by_quote Keeps db db.quote (refl, refl)
        (λ q e.
          by_test Keeps (not (is_valid row)) (λ h. (refl, refl)) (λ h. rw (shut q e) (refl, refl)))

  update_frozen : (env : Env) (id : ℕ) (edit : LineEdit) → Keeps (update_line env id edit db)
  unfolding update_line
  update_frozen env id edit =
      by_quote Keeps db db.quote (refl, refl)
        (λ q e.
          by_line Keeps db (find_line id db.lines) (refl, refl)
            (λ old.
              by_test Keeps (not (is_valid (apply_edit edit old))) (λ h. (refl, refl))
                (λ h. rw (shut q e) (refl, refl))))

  pass_frozen : (env : Env) (id : ℕ) (edit : LineEdit) → Keeps (pass_line env id edit db)
  unfolding pass_line
  pass_frozen env id edit =
      by_quote Keeps db db.quote (refl, refl)
        (λ q e.
          by_line Keeps db (find_line id db.lines) (refl, refl)
            (λ old.
              by_test Keeps (not (is_valid (apply_edit edit old))) (λ h. (refl, refl))
                (λ h. rw (shut q e) (refl, refl))))

  ask_frozen : (rfq : VendorRfq) → Keeps (create_rfq rfq db)
  unfolding create_rfq
  ask_frozen rfq = by_place Keeps db (find_line rfq.quote_line db.lines) _ (refl, refl) (refl, refl)

  rewrite_frozen : (id : ℕ) (edit : RfqEdit) → Keeps (update_rfq id edit db)
  unfolding update_rfq
  rewrite_frozen id edit =
      by_rfq Keeps db (find_rfq id db.rfqs) (refl, refl)
        (λ old.
          by_place Keeps db (find_line (edit old).quote_line db.lines) _ (refl, refl) (refl, refl))

  withdraw_frozen : (id : ℕ) → Keeps (destroy_rfq id db)
  unfolding destroy_rfq
  withdraw_frozen id = by_rfq Keeps db (find_rfq id db.rfqs) (refl, refl) (λ old. (refl, refl))

  remove_frozen : (env : Env) (id : ℕ) → Keeps (destroy_line env id db)
  unfolding destroy_line
  remove_frozen env id =
      by_quote Keeps db db.quote (refl, refl)
        (λ q e.
          by_line Keeps db (find_line id db.lines) (refl, refl) (λ old. rw (shut q e) (refl, refl)))

  respond_frozen :
      (env : Env) (project : Project) (op : Op)
      → is_unguarded op ≡ false
      → Keeps (respond env project op db)
  unfolding respond
  respond_frozen env project deletes n = destroy_frozen
  respond_frozen env project (approves confirm notes) n = approve_frozen env confirm notes
  respond_frozen env project (exports sent) n = export_frozen env sent
  respond_frozen env project (draws drawn) n = draw_frozen env drawn
  respond_frozen env project recalculates n = recalculate_frozen env
  respond_frozen env project (generates replace) n = generate_frozen env project replace
  respond_frozen env project (creates row) n = create_frozen env row
  respond_frozen env project (edits id edit) n = update_frozen env id edit
  respond_frozen env project (removes id) n = remove_frozen env id
  respond_frozen env project (passes id edit) n = pass_frozen env id edit
  respond_frozen env project (asks rfq) n = ask_frozen rfq
  respond_frozen env project (rewrites id edit) n = rewrite_frozen id edit
  respond_frozen env project (withdraws id) n = withdraw_frozen id
  respond_frozen env project (updates edit) n = absurd cc
  respond_frozen env project (receives rfqs row edit) n = absurd cc
  respond_frozen env project (prices id price) n = absurd cc

closed-Moves :
    {lines : List LineRow} {op : Op} {p p' : Phase}
    → Moves lines op p p'
    → is_open p ≡ false
    → is_open p' ≡ false
closed-Moves stays h = h
closed-Moves drops h = refl
closed-Moves (signs f) h = refl
closed-Moves sends h = refl

-- Once a quote is approved, exported or deleted, no sequence of requests changes its lines or its
-- totals, unless one of them records a price of a vendor, updates the quote itself, or moves a line
-- of another quote to it.
pub run-KeepsFigures :
    (rs : List Request) (db : Db)
    → is_open (phase db) ≡ false
    → All (λ r. is_unguarded r.op ≡ false) rs
    → KeepsFigures db (run rs db)
unfolding run step
run-KeepsFigures [] db closed h = (refl, refl)
run-KeepsFigures (r ∷ rs) db closed h =
    let here = respond_frozen db closed r.env r.project r.op h.0 in
    let later = run-KeepsFigures rs (step r db) (closed-Moves (step-Moves r db) closed) h.1 in
    (later.0 ∙ here.0, later.1 ∙ here.1)
