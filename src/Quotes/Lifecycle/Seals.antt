-- ===== src/Quotes/Lifecycle/Seals.antt =====
-- The signature of a quote: its status, who approved it and when, and what was exported
-- (backend/api/quotes/views.py). Only four operations touch it.

use cbc_new.Prelude.{ℕ, ◌≡◌, refl, sym, ◌∙◌, ap, Bool, true, false, not, Option, none, some, List}
use cbc_new.Prelude.Text.{Text}
use cbc_new.Pricing.Rounding.{Decimal}
use cbc_new.Quotes.{QuoteStatus, QuoteRow, LineRow, Env, Db, is_draft, assemble_rows, VendorRfq}
use cbc_new.Quotes.Repriced.{assemble_rows-IsAssembled}
use cbc_new.Quotes.Draft.{
  Project, Drafted, drafted, not_draft, has_lines, unpriceable, generate_lines,
}
use cbc_new.Quotes.Draft.Lines.{generate_lines-IsDraftOf}
use cbc_new.Quotes.Views.{
  Outcome, recalculate, recalculated, generate, generated, QuoteEdit, update_quote, write_quote,
}
use cbc_new.Quotes.Edits.{
  LineEdit, create_line, is_valid, added, price_row, update_line, updated, apply_edit, moved,
  pass_line, passed_on, find_line, find_rfq, put_rfq, receive_line, destroy_line, record_price,
  apply_rfq_price, take_price, price_request, receive_price, reassembled, priced_again, put_line,
}
use cbc_new.Quotes.Requests.{RfqEdit, create_rfq, update_rfq, destroy_rfq}
use cbc_new.Quotes.Lifecycle.{
  Op, deletes, recalculates, exports, approves, draws, generates, updates, creates, edits, receives,
  removes, prices, passes, asks, rewrites, withdraws, respond,
}
use cbc_new.Quotes.Lifecycle.Branches.{by_rfq, by_place, by_test, by_quote, by_line}

pub record Seal : Type 0 where
  pub status : QuoteStatus
  pub approved_by : Option ℕ
  pub approved_at : Option ℕ
  pub exported_at : Option ℕ
  pub export_key : Option (ℕ × ℕ)

abbrev pub seal : QuoteRow → Seal
seal quote = record {
  status = quote.status;
  approved_by = quote.approved_by;
  approved_at = quote.approved_at;
  exported_at = quote.exported_at;
  export_key = quote.export_key;
}

abbrev pub seal_of : Option QuoteRow → Option Seal
seal_of none = none
seal_of (some quote) = some (seal quote)

-- The signature of what is stored, with the messages and the mails.
pub record Sheet : Type 0 where
  pub signed : Option Seal
  pub messages : List (Option Text)
  pub mails : List (Option Text)

abbrev pub sheet : Db → Sheet
sheet db = record { signed = seal_of db.quote; messages = db.messages; mails = db.mails }

abbrev KeepsSheet : Db → Outcome → Type 0
KeepsSheet db out = sheet out.0 ≡ sheet db

module _ (db : Db) where
  put_quote :
      (q q' : QuoteRow)
      → db.quote ≡ some q
      → seal q' ≡ seal q
      → (lines : List LineRow) (rfqs : List VendorRfq)
      → sheet (record db { quote = some q'; lines = lines; rfqs = rfqs }) ≡ sheet db
  put_quote q q' e same lines rfqs =
      ap (λ s. record { signed = s; messages = db.messages; mails = db.mails })
        (ap some same ∙ sym (ap seal_of e))

  assembled_seal :
      (env : Env) (q q' : QuoteRow) (rows rows' : List LineRow)
      → assemble_rows env q rows ≡ some (q', rows')
      → seal q' ≡ seal q
  assembled_seal env q q' rows rows' e =
      ap seal (assemble_rows-IsAssembled env q q' rows rows' e).rest

  recalculated_sheet :
      (env : Env) (q : QuoteRow)
      → db.quote ≡ some q
      → (o : Option (QuoteRow × List LineRow)) → assemble_rows env q db.lines ≡ o
      → KeepsSheet db (recalculated env db o)
  recalculated_sheet env q e none h = refl
  recalculated_sheet env q e (some (q', rows')) h =
      put_quote q q' e (assembled_seal env q q' db.lines rows' h) rows' db.rfqs

  recalculate_sheet : (env : Env) → KeepsSheet db (recalculate env db)
  unfolding recalculate
  recalculate_sheet env = by_quote (KeepsSheet db) db db.quote refl (λ q e.
      by_test (KeepsSheet db) (not (is_draft q.status)) (λ h. refl)
        (λ h. recalculated_sheet env q e (assemble_rows env q db.lines) refl))

  generated_sheet :
      (env : Env) (project : Project) (replace : Bool) (q : QuoteRow)
      → db.quote ≡ some q
      → (d : Drafted) → generate_lines env project replace q db.lines ≡ d
      → KeepsSheet db (generated db d)
  generated_sheet env project replace q e not_draft h = refl
  generated_sheet env project replace q e has_lines h = refl
  generated_sheet env project replace q e unpriceable h = refl
  generated_sheet env project replace q e (drafted q' rows') h =
      put_quote q q' e
        (ap seal (generate_lines-IsDraftOf env project replace q q' db.lines rows' h).1) rows'
        db.rfqs

  generate_sheet :
      (env : Env) (project : Project) (replace : Bool)
      → KeepsSheet db (generate env project replace db)
  unfolding generate
  generate_sheet env project replace = by_quote (KeepsSheet db) db db.quote refl (λ q e.
      generated_sheet env project replace q e (generate_lines env project replace q db.lines) refl)

  update_quote_sheet : (edit : QuoteEdit) → KeepsSheet db (update_quote edit db)
  unfolding update_quote
  update_quote_sheet edit =
      by_quote (KeepsSheet db) db db.quote refl
        (λ q e. put_quote q (write_quote edit q) e refl db.lines db.rfqs)

  added_sheet : (row : LineRow) (o : Option LineRow) → KeepsSheet db (added db row o)
  added_sheet row none = refl
  added_sheet row (some priced) = refl

  create_line_sheet : (env : Env) (row : LineRow) → KeepsSheet db (create_line env row db)
  unfolding create_line
  create_line_sheet env row = by_quote (KeepsSheet db) db db.quote refl (λ q e.
      by_test (KeepsSheet db) (not (is_valid row)) (λ h. refl)
        (λ h.
          by_test (KeepsSheet db) (not (is_draft q.status)) (λ g. refl)
            (λ g. added_sheet row (price_row env row))))

  updated_sheet :
      (env : Env) (old : LineRow) (o : Option LineRow) → KeepsSheet db (updated env db old o)
  updated_sheet env old none = refl
  updated_sheet env old (some new) = refl

  update_line_sheet :
      (env : Env) (id : ℕ) (edit : LineEdit) → KeepsSheet db (update_line env id edit db)
  unfolding update_line
  update_line_sheet env id edit = by_quote (KeepsSheet db) db db.quote refl (λ q e.
      by_line (KeepsSheet db) db (find_line id db.lines) refl (λ old.
        by_test (KeepsSheet db) (not (is_valid (apply_edit edit old))) (λ h. refl)
          (λ h.
            by_test (KeepsSheet db) (not (is_draft q.status)) (λ g. refl)
              (λ g. updated_sheet env old (price_row env (apply_edit edit old))))))

  moved_sheet :
      (env : Env) (rfqs : List VendorRfq) (old : LineRow) (o : Option LineRow)
      → KeepsSheet db (moved env db rfqs old o)
  moved_sheet env rfqs old none = refl
  moved_sheet env rfqs old (some new) = refl

  receive_line_sheet :
      (env : Env) (rfqs : List VendorRfq) (old : LineRow) (edit : LineEdit)
      → KeepsSheet db (receive_line env rfqs old edit db)
  unfolding receive_line
  receive_line_sheet env rfqs old edit = by_quote (KeepsSheet db) db db.quote refl (λ q e.
      by_test (KeepsSheet db) (not (is_valid (apply_edit edit old))) (λ h. refl)
        (λ h. moved_sheet env rfqs old (price_row env (apply_edit edit old))))

  passed_on_sheet :
      (env : Env) (old : LineRow) (o : Option LineRow) → KeepsSheet db (passed_on env db old o)
  passed_on_sheet env old none = refl
  passed_on_sheet env old (some new) = refl

  pass_line_sheet :
      (env : Env) (id : ℕ) (edit : LineEdit) → KeepsSheet db (pass_line env id edit db)
  unfolding pass_line
  pass_line_sheet env id edit = by_quote (KeepsSheet db) db db.quote refl (λ q e.
      by_line (KeepsSheet db) db (find_line id db.lines) refl (λ old.
        by_test (KeepsSheet db) (not (is_valid (apply_edit edit old))) (λ h. refl)
          (λ h.
            by_test (KeepsSheet db) (not (is_draft q.status)) (λ g. refl)
              (λ g. passed_on_sheet env old (price_row env (apply_edit edit old))))))

  create_rfq_sheet : (rfq : VendorRfq) → KeepsSheet db (create_rfq rfq db)
  unfolding create_rfq
  create_rfq_sheet rfq = by_place (KeepsSheet db) db (find_line rfq.quote_line db.lines) _ refl refl

  update_rfq_sheet : (id : ℕ) (edit : RfqEdit) → KeepsSheet db (update_rfq id edit db)
  unfolding update_rfq
  update_rfq_sheet id edit =
      by_rfq (KeepsSheet db) db (find_rfq id db.rfqs) refl
        (λ old. by_place (KeepsSheet db) db (find_line (edit old).quote_line db.lines) _ refl refl)

  destroy_rfq_sheet : (id : ℕ) → KeepsSheet db (destroy_rfq id db)
  unfolding destroy_rfq
  destroy_rfq_sheet id = by_rfq (KeepsSheet db) db (find_rfq id db.rfqs) refl (λ old. refl)

  destroy_line_sheet : (env : Env) (id : ℕ) → KeepsSheet db (destroy_line env id db)
  unfolding destroy_line
  destroy_line_sheet env id = by_quote (KeepsSheet db) db db.quote refl (λ q e.
      by_line (KeepsSheet db) db (find_line id db.lines) refl
        (λ old. by_test (KeepsSheet db) (not (is_draft q.status)) (λ g. refl) (λ g. refl)))

  reassembled_sheet :
      (env : Env) (q : QuoteRow)
      → db.quote ≡ some q
      → (rfqs : List VendorRfq) (rows : List LineRow) (o : Option (QuoteRow × List LineRow))
      → assemble_rows env q rows ≡ o
      → KeepsSheet db (reassembled db rfqs o)
  reassembled_sheet env q e rfqs rows none h = refl
  reassembled_sheet env q e rfqs rows (some (q', rows')) h =
      put_quote q q' e (assembled_seal env q q' rows rows' h) rows' rfqs

  priced_again_sheet :
      (env : Env) (q : QuoteRow)
      → db.quote ≡ some q
      → (rfqs : List VendorRfq) (o : Option LineRow) → KeepsSheet db (priced_again env db q rfqs o)
  priced_again_sheet env q e rfqs none = refl
  priced_again_sheet env q e rfqs (some row) =
      reassembled_sheet env q e rfqs (put_line row db.lines)
        (assemble_rows env q (put_line row db.lines)) refl

  received_sheet :
      (env : Env) (q : QuoteRow)
      → db.quote ≡ some q
      → (rfq : Option VendorRfq) (price : Option Decimal)
      → KeepsSheet db (price_request env db q rfq price)
  unfolding apply_rfq_price
  received_sheet env q e none price = refl
  received_sheet env q e (some rfq) none = refl
  received_sheet env q e (some rfq) (some amount) =
      by_line (KeepsSheet db) db (find_line rfq.quote_line db.lines) refl (λ row.
        priced_again_sheet env q e (put_rfq (receive_price env amount rfq) db.rfqs)
          (price_row env (take_price env amount row)))

  record_price_sheet :
      (env : Env) (id : ℕ) (price : Option Decimal) → KeepsSheet db (record_price env id price db)
  unfolding record_price
  record_price_sheet env id price =
      by_quote (KeepsSheet db) db db.quote refl
        (λ q e. received_sheet env q e (find_rfq id db.rfqs) price)

-- An operation that can change the signature of a quote.
abbrev pub is_signing : Op → Bool
is_signing deletes = true
is_signing (exports sent) = true
is_signing (approves confirm notes) = true
is_signing (draws drawn) = true
is_signing _ = false

pub respond_sheet :
    (env : Env) (project : Project) (op : Op) (db : Db)
    → is_signing op ≡ false
    → KeepsSheet db (respond env project op db)
unfolding respond
respond_sheet env project recalculates db h = recalculate_sheet db env
respond_sheet env project (generates replace) db h = generate_sheet db env project replace
respond_sheet env project (updates edit) db h = update_quote_sheet db edit
respond_sheet env project (creates row) db h = create_line_sheet db env row
respond_sheet env project (edits id edit) db h = update_line_sheet db env id edit
respond_sheet env project (receives rfqs row edit) db h = receive_line_sheet db env rfqs row edit
respond_sheet env project (removes id) db h = destroy_line_sheet db env id
respond_sheet env project (prices id price) db h = record_price_sheet db env id price
respond_sheet env project (passes id edit) db h = pass_line_sheet db env id edit
respond_sheet env project (asks rfq) db h = create_rfq_sheet db rfq
respond_sheet env project (rewrites id edit) db h = update_rfq_sheet db id edit
respond_sheet env project (withdraws id) db h = destroy_rfq_sheet db id
respond_sheet env project deletes db h = absurd cc
respond_sheet env project (exports sent) db h = absurd cc
respond_sheet env project (approves confirm notes) db h = absurd cc
respond_sheet env project (draws drawn) db h = absurd cc
