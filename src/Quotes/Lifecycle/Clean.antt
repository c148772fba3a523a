-- ===== src/Quotes/Lifecycle/Clean.antt =====
-- Approval is the last moment anyone looks (approve of backend/api/quotes/views.py): what it means
-- for the flags of the lines, and what a price of a vendor does past it.

use cbc_new.Prelude.{◌≡◌, refl, ◌∙◌, ap, Bool, true, false, not, List, [], ◌∷◌, any, All}
use cbc_new.Prelude.Text.{Text}
use cbc_new.Quotes.{Env, Db, is_draft}
use cbc_new.Quotes.Draft.{Project}
use cbc_new.Quotes.Views.{Outcome, destroy_quote, approve, is_flagged, QuoteEdit, create_quote}
use cbc_new.Quotes.Lifecycle.{
  Op, Request, respond, step, run, Phase, gone, phase, Moves, stays, drops, signs, sends,
}
use cbc_new.Quotes.Lifecycle.Branches.{by_test, by_quote}
use cbc_new.Quotes.Lifecycle.Workflow.{step-Moves}
use cbc_new.Quotes.Lifecycle.Frozen.{is_unguarded, is_open, run-KeepsFigures}

-- Unless the quote is a draft, none of its lines is flagged for review.
abbrev pub IsClean : Db → Type 0
IsClean db = is_open (phase db) ≡ false → any is_flagged db.lines ≡ false

approve_lines :
    (env : Env) (confirm : Bool) (notes : Text) (db : Db)
    → (approve env confirm notes db).0.lines ≡ db.lines
unfolding approve
approve_lines env confirm notes db =
    let P : Outcome → Type 0 = λ out. out.0.lines ≡ db.lines in
    by_test P (not confirm) (λ c. refl)
      (λ c. by_quote P db db.quote refl (λ q e.
        by_test P (not (is_draft q.status)) (λ d. refl)
          (λ d. by_test P (any is_flagged db.lines) (λ f. refl) (λ f. refl))))

destroy_clean :
    (db : Db)
    → (phase (destroy_quote db).0 ≡ gone)
    → is_open (phase db) ≡ true
    → any is_flagged (destroy_quote db).0.lines ≡ false
unfolding destroy_quote
destroy_clean db =
    let P : Outcome → Type 0 =
      λ out. phase out.0 ≡ gone → is_open (phase db) ≡ true → any is_flagged out.0.lines ≡ false in
    by_quote P db db.quote (λ g o. absurd (let s = rw g at o in cc))
      (λ q e.
        by_test P (is_draft q.status) (λ d g o. refl) (λ d g o. absurd (let s = rw g at o in cc)))

module _ (env : Env) (project : Project) (db : Db) where
  clean_after :
      (op : Op) {p p' : Phase}
      → Moves db.lines op p p'
      → phase db ≡ p
      → phase (respond env project op db).0 ≡ p'
      → is_open p ≡ true
      → is_open p' ≡ false
      → any is_flagged (respond env project op db).0.lines ≡ false
  unfolding respond
  clean_after op stays e e' o c = absurd (let s = rw o at c in cc)
  clean_after op drops e e' o c = destroy_clean db e' (rw e o)
  clean_after op (signs {notes} f) e e' o c = rw (approve_lines env true notes db) f
  clean_after op sends e e' o c = absurd cc

step-IsClean :
    (r : Request) (db : Db) → is_unguarded r.op ≡ false → IsClean db → IsClean (step r db)
unfolding step run
step-IsClean r db n h closed = from (is_open (phase db)) refl
  where
    from : (b : Bool) → is_open (phase db) ≡ b → any is_flagged (step r db).lines ≡ false
    from true o = clean_after r.env r.project db r.op (step-Moves r db) refl refl o closed
    from false c = ap (any is_flagged) (run-KeepsFigures (r ∷ []) db c (n, tt)).0 ∙ h c

run-IsClean_from :
    (rs : List Request) (db : Db)
    → All (λ r. is_unguarded r.op ≡ false) rs
    → IsClean db
    → IsClean (run rs db)
unfolding run
run-IsClean_from [] db n h = h
run-IsClean_from (r ∷ rs) db n h = run-IsClean_from rs (step r db) n.1 (step-IsClean r db n.0 h)

-- After any requests on a created quote that record no price of a vendor, do not update the quote
-- itself and move no line of another quote to it, none of its lines is flagged for review if it is
-- approved or exported.
pub run-IsClean :
    (edit : QuoteEdit) (rs : List Request)
    → All (λ r. is_unguarded r.op ≡ false) rs
    → IsClean (run rs (create_quote edit))
unfolding create_quote
run-IsClean edit rs n = run-IsClean_from rs (create_quote edit) n (λ closed. refl)
