-- ===== src/Quotes/Lifecycle/Audit.antt =====
-- Refused requests on a quote (backend/api/quotes/views.py).
use cbc_new.Prelude.{ℕ, ◌≡◌, refl, Bool, true, false, not, Option, none, some, List, any}
use cbc_new.Prelude.Text.{Text}
use cbc_new.Pricing.Rounding.{Decimal}
use cbc_new.Quotes.{
  QuoteRow, LineRow, Env, Db, Response, ok, accepted, bad_request, conflict, server_error, is_draft,
  assemble_rows, VendorRfq, not_found,
}
use cbc_new.Quotes.Draft.{
  Project, Drafted, drafted, not_draft, has_lines, unpriceable, generate_lines,
}
use cbc_new.Quotes.Views.{
  Outcome, destroy_quote, recalculate, recalculated, approve, export, enqueue_quote_export,
  handle_quote_export, generate, generated, is_flagged, update_quote,
}
use cbc_new.Quotes.Edits.{
  LineEdit, is_valid, apply_edit, pass_line, passed_on, added, create_line, updated, update_line,
  moved, receive_line, destroy_line, find_line, find_rfq, put_rfq, put_line, receive_price,
  reassembled, priced_again, price_request, price_row, take_price, apply_rfq_price, record_price,
}
use cbc_new.Quotes.Requests.{RfqEdit, create_rfq, update_rfq, destroy_rfq}
use cbc_new.Quotes.Lifecycle.{
  Op, deletes, recalculates, exports, approves, draws, generates, updates, creates, edits, receives,
  removes, prices, passes, asks, rewrites, withdraws, Request, respond, step,
}
use cbc_new.Quotes.Lifecycle.Branches.{by_rfq, by_place, by_test, by_quote, by_stored, by_line}

-- The answers after which nothing has changed: every refusal, and an exception too, but for the
-- operations that save before what can raise.
abbrev pub is_refusal : Op → Response → Bool
is_refusal op ok = false
is_refusal op accepted = false
is_refusal op bad_request = true
is_refusal op not_found = true
is_refusal op conflict = true
is_refusal recalculates server_error = false
is_refusal (creates row) server_error = false
is_refusal (exports sent) server_error = false
is_refusal op server_error = true

module _ (db : Db) where
  abbrev Stands : Op → Outcome → Type 0
  Stands op out = is_refusal op out.1 ≡ true → out.0 ≡ db

  recalculate-Stands : (env : Env) → Stands recalculates (recalculate env db)
  unfolding recalculate
  recalculate-Stands env =
      by_quote (Stands recalculates) db db.quote (λ r. refl)
        (λ q e.
          by_test (Stands recalculates) (not (is_draft q.status)) (λ d r. refl)
            (λ d. made (assemble_rows env q db.lines)))
    where
      made : (o : Option (QuoteRow × List LineRow)) → Stands recalculates (recalculated env db o)
      made none r = absurd cc
      made (some (q', rows')) r = absurd cc

  generate-Stands :
      (env : Env) (project : Project) (replace : Bool)
      → Stands (generates replace) (generate env project replace db)
  unfolding generate
  generate-Stands env project replace =
      by_quote (Stands (generates replace)) db db.quote (λ r. refl)
        (λ q e. made (generate_lines env project replace q db.lines))
    where
      made : (d : Drafted) → Stands (generates replace) (generated db d)
      made not_draft r = refl
      made has_lines r = refl
      made unpriceable r = refl
      made (drafted q' rows') r = absurd cc

  approve-Stands :
      (env : Env) (confirm : Bool) (notes : Text)
      → Stands (approves confirm notes) (approve env confirm notes db)
  unfolding approve
  approve-Stands env confirm notes =
      let P = Stands (approves confirm notes) in
      by_test P (not confirm) (λ c r. refl)
        (λ c.
          by_quote P db db.quote (λ r. refl)
            (λ q e.
              by_test P (not (is_draft q.status)) (λ d r. refl)
                (λ d. by_test P (any is_flagged db.lines) (λ f r. refl) (λ f r. absurd cc))))

  draw-Stands : (env : Env) (drawn : Bool) → Stands (draws drawn) (handle_quote_export env drawn db)
  unfolding handle_quote_export
  draw-Stands env drawn =
      let P = Stands (draws drawn) in
      by_stored P db db.quote (λ r. refl)
        (λ q e.
          by_test P (is_draft q.status) (λ d r. refl)
            (λ d. by_test P (not drawn) (λ f r. refl) (λ f r. absurd cc)))

  create-Stands : (env : Env) (row : LineRow) → Stands (creates row) (create_line env row db)
  unfolding create_line
  create-Stands env row =
      let P = Stands (creates row) in
      by_quote P db db.quote (λ r. refl)
        (λ q e.
          by_test P (not (is_valid row)) (λ h r. refl)
            (λ h.
              by_test P (not (is_draft q.status)) (λ d r. refl) (λ d. made (price_row env row))))
    where
      made : (o : Option LineRow) → Stands (creates row) (added db row o)
      made none r = absurd cc
      made (some new) r = absurd cc

  update-Stands :
      (env : Env) (id : ℕ) (edit : LineEdit) → Stands (edits id edit) (update_line env id edit db)
  unfolding update_line
  update-Stands env id edit =
      let P = Stands (edits id edit) in
      by_quote P db db.quote (λ r. refl)
        (λ q e.
          by_line P db (find_line id db.lines) (λ r. refl)
            (λ old.
              by_test P (not (is_valid (apply_edit edit old))) (λ h r. refl)
                (λ h.
                  by_test P (not (is_draft q.status)) (λ d r. refl)
                    (λ d. made old (price_row env (apply_edit edit old))))))
    where
      made : (old : LineRow) (o : Option LineRow) → Stands (edits id edit) (updated env db old o)
      made old none r = refl
      made old (some new) r = absurd cc

  export-Stands : (env : Env) (sent : Bool) → Stands (exports sent) (export env sent db)
  unfolding export enqueue_quote_export
  export-Stands env sent =
      let P = Stands (exports sent) in
      by_quote P db db.quote (λ r. refl)
        (λ q e.
          by_test P (is_draft q.status) (λ d r. refl)
            (λ d. by_test P sent (λ m r. absurd cc) (λ m r. absurd cc)))

  pass-Stands :
      (env : Env) (id : ℕ) (edit : LineEdit) → Stands (passes id edit) (pass_line env id edit db)
  unfolding pass_line
  pass-Stands env id edit =
      let P = Stands (passes id edit) in
      by_quote P db db.quote (λ r. refl)
        (λ q e.
          by_line P db (find_line id db.lines) (λ r. refl)
            (λ old.
              by_test P (not (is_valid (apply_edit edit old))) (λ h r. refl)
                (λ h.
                  by_test P (not (is_draft q.status)) (λ d r. refl)
                    (λ d. made old (price_row env (apply_edit edit old))))))
    where
      made : (old : LineRow) (o : Option LineRow) → Stands (passes id edit) (passed_on env db old o)
      made old none r = refl
      made old (some new) r = absurd cc

  ask-Stands : (rfq : VendorRfq) → Stands (asks rfq) (create_rfq rfq db)
  unfolding create_rfq
  ask-Stands rfq =
      by_place (Stands (asks rfq)) db (find_line rfq.quote_line db.lines) _ (λ r. refl)
        (λ r. absurd cc)

  rewrite-Stands : (id : ℕ) (edit : RfqEdit) → Stands (rewrites id edit) (update_rfq id edit db)
  unfolding update_rfq
  rewrite-Stands id edit =
      let P = Stands (rewrites id edit) in
      by_rfq P db (find_rfq id db.rfqs) (λ r. refl)
        (λ old.
          by_place P db (find_line (edit old).quote_line db.lines) _ (λ r. refl) (λ r. absurd cc))

  withdraw-Stands : (id : ℕ) → Stands (withdraws id) (destroy_rfq id db)
  unfolding destroy_rfq
  withdraw-Stands id =
      by_rfq (Stands (withdraws id)) db (find_rfq id db.rfqs) (λ r. refl) (λ old r. absurd cc)

  receive-Stands :
      (env : Env) (rfqs : List VendorRfq) (old : LineRow) (edit : LineEdit)
      → Stands (receives rfqs old edit) (receive_line env rfqs old edit db)
  unfolding receive_line
  receive-Stands env rfqs old edit =
      let P = Stands (receives rfqs old edit) in
      by_quote P db db.quote (λ r. refl)
        (λ q e.
          by_test P (not (is_valid (apply_edit edit old))) (λ h r. refl)
            (λ h. made (price_row env (apply_edit edit old))))
    where
      made : (o : Option LineRow) → Stands (receives rfqs old edit) (moved env db rfqs old o)
      made none r = refl
      made (some new) r = absurd cc

  price-Stands :
      (env : Env) (id : ℕ) (price : Option Decimal)
      → Stands (prices id price) (record_price env id price db)
  unfolding record_price apply_rfq_price
  price-Stands env id price =
      by_quote (Stands (prices id price)) db db.quote (λ r. refl)
        (λ q e. asked q (find_rfq id db.rfqs) price)
    where
      assembled :
          (rfqs : List VendorRfq) (o : Option (QuoteRow × List LineRow))
          → Stands (prices id price) (reassembled db rfqs o)
      assembled rfqs none r = refl
      assembled rfqs (some (q', rows')) r = absurd cc

      again :
          (q : QuoteRow) (rfqs : List VendorRfq) (o : Option LineRow)
          → Stands (prices id price) (priced_again env db q rfqs o)
      again q rfqs none r = refl
      again q rfqs (some row) r = assembled rfqs (assemble_rows env q (put_line row db.lines)) r

      asked :
          (q : QuoteRow) (rfq : Option VendorRfq) (amount : Option Decimal)
          → Stands (prices id price) (price_request env db q rfq amount)
      asked q none amount r = refl
      asked q (some rfq) none r = refl
      asked q (some rfq) (some amount) r =
          by_line (Stands (prices id price)) db (find_line rfq.quote_line db.lines) (λ r. refl)
            (λ row.
              again q (put_rfq (receive_price env amount rfq) db.rfqs)
                (price_row env (take_price env amount row)))
            r

-- A request that is refused changes nothing that is stored; neither does one that ends in an
-- exception, unless it recalculates the quote or creates a line, which save before they price, or
-- exports the quote, which saves the address before it sends the message.
pub refused_unchanged :
    (r : Request) (db : Db)
    → is_refusal r.op (respond r.env r.project r.op db).1 ≡ true
    → step r db ≡ db
unfolding step respond destroy_quote update_quote destroy_line
refused_unchanged r db = stand r.op
  where
    stand :
        (op : Op)
        → is_refusal op (respond r.env r.project op db).1 ≡ true
        → (respond r.env r.project op db).0 ≡ db
    stand deletes =
        by_quote (Stands db deletes) db db.quote (λ r. refl)
          (λ q e. by_test (Stands db deletes) (is_draft q.status) (λ d r. absurd cc) (λ d r. refl))
    stand (approves confirm notes) = approve-Stands db r.env confirm notes
    stand (exports sent) = export-Stands db r.env sent
    stand (passes id edit) = pass-Stands db r.env id edit
    stand (asks rfq) = ask-Stands db rfq
    stand (rewrites id edit) = rewrite-Stands db id edit
    stand (withdraws id) = withdraw-Stands db id
    stand (draws drawn) = draw-Stands db r.env drawn
    stand recalculates = recalculate-Stands db r.env
    stand (generates replace) = generate-Stands db r.env r.project replace
    stand (updates edit) =
        by_quote (Stands db (updates edit)) db db.quote (λ r. refl) (λ q e r. absurd cc)
    stand (creates row) = create-Stands db r.env row
    stand (edits id edit) = update-Stands db r.env id edit
    stand (receives rfqs old edit) = receive-Stands db r.env rfqs old edit
    stand (removes id) =
        by_quote (Stands db (removes id)) db db.quote (λ r. refl)
          (λ q e.
            by_line (Stands db (removes id)) db (find_line id db.lines) (λ r. refl)
              (λ old.
                by_test (Stands db (removes id)) (not (is_draft q.status)) (λ d r. refl)
                  (λ d r. absurd cc)))
    stand (prices id price) = price-Stands db r.env id price
