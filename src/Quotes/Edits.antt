-- ===== src/Quotes/Edits.antt =====
-- The operations on the lines of a quote: QuoteLineViewSet and VendorRFQViewSet of
-- backend/api/quotes/views.py, the check of QuoteLineWriteSerializer of serializers.py, and
-- apply_rfq_price of pricing_ops.py. The row that a serializer saves is a function of the row that
-- it read; `apply_edit` keeps the identifier.
use cbc_new.Prelude.{
  ℕ, Bool, false, not, ◌&&◌, Option, none, some, List, [], ◌∷◌, ◌++◌, keep, if◌then◌else◌, ◌==◌,
}
use cbc_new.Prelude.Text.{Text, is_blank, text_eq}
use cbc_new.Prelude.Int.{ℤ, pos, ltb_ℤ}
use cbc_new.Pricing.Rounding.{Decimal, unit}
use cbc_new.Pricing.Line.{
  CostSource, p21_last_po, distributor_sheet, mfr_list, vendor_rfq, manual, price_line,
}
use cbc_new.Quotes.{
  QuoteRow, LineRow, Env, assemble_rows, is_draft, VendorRfq, received, Feedback, FeedbackValue,
  quantity_is, our_cost_is, margin_pct_is, cost_source_is, description_is, deleted, Db, ok,
  bad_request, not_found, server_error,
}
use cbc_new.Quotes.Views.{Outcome, with_quote}

abbrev pub LineEdit : Type 0
LineEdit = LineRow → LineRow

-- `validate`: an override has a reason, and the margin is below 1.
unfoldable pub is_valid : LineRow → Bool
is_valid row =
    not (row.priced.margin_overridden && is_blank row.margin_override_reason)
    && ltb_ℤ row.priced.margin_pct (pos 10_000)

abbrev pub apply_edit : LineEdit → LineRow → LineRow
apply_edit edit row = record (edit row) { id = row.id }

unfoldable pub find_line : ℕ → List LineRow → Option LineRow
find_line id [] = none
find_line id (row ∷ rows) = if row.id == id then some row else find_line id rows

unfoldable pub put_line : LineRow → List LineRow → List LineRow
put_line new [] = []
put_line new (row ∷ rows) = if row.id == new.id then new ∷ rows else row ∷ put_line new rows

abbrev pub price_row : Env → LineRow → Option LineRow
price_row env row = elim (price_line env.months env.cache false row.priced) [
  | none ↦ none
  | some priced ↦ some (record row { priced = priced })
]

-- A created line is saved before it is priced, outside a transaction.
abbrev pub added : Db → LineRow → Option LineRow → Outcome
added db row none = (record db { lines = db.lines ++ (row ∷ []) }, server_error)
added db row (some priced) = (record db { lines = db.lines ++ (priced ∷ []) }, ok)

unfoldable pub create_line : Env → LineRow → Db → Outcome
create_line env row db = with_quote db db.quote (λ quote.
    if not (is_valid row)
    then (db, bad_request)
    else if not (is_draft quote.status)
    then (db, bad_request)
    else added db row (price_row env row))

abbrev pub eq_ℤ : ℤ → ℤ → Bool
eq_ℤ a b = not (ltb_ℤ a b) && not (ltb_ℤ b a)

abbrev pub source_code : Option CostSource → ℕ
source_code none = 0
source_code (some p21_last_po) = 1
source_code (some distributor_sheet) = 2
source_code (some mfr_list) = 3
source_code (some vendor_rfq) = 4
source_code (some manual) = 5

-- One turn of the loop over the recorded columns.
abbrev pub record_change :
    Env → LineRow → Bool → FeedbackValue → FeedbackValue → Text → List Feedback
record_change env row same before after reason =
    if same
    then []
    else record {
      entity_id = row.id;
      value_before = before;
      value_after = after;
      changed_by = env.user;
      reason = reason;
    }
      ∷ []

-- The feedback of an update, from the line before and after it.
unfoldable pub changes : Env → LineRow → LineRow → List Feedback
changes env old new =
    let p = old.priced in
    let q = new.priced in
    record_change env new (eq_ℤ p.quantity q.quantity) (quantity_is p.quantity)
      (quantity_is q.quantity) []
    ++ (record_change env new (eq_ℤ p.our_cost q.our_cost) (our_cost_is p.our_cost)
          (our_cost_is q.our_cost) []
        ++ (record_change env new (eq_ℤ p.margin_pct q.margin_pct) (margin_pct_is p.margin_pct)
              (margin_pct_is q.margin_pct) new.margin_override_reason
            ++ (record_change env new (source_code p.cost_source == source_code q.cost_source)
                  (cost_source_is p.cost_source) (cost_source_is q.cost_source) []
                ++ record_change env new (text_eq old.description new.description)
                    (description_is old.description) (description_is new.description) [])))

abbrev pub updated : Env → Db → LineRow → Option LineRow → Outcome
updated env db old none = (db, server_error)
updated env db old (some new) =
    (record db { lines = put_line new db.lines; feedback = changes env old new ++ db.feedback }, ok)

abbrev pub with_line : Db → Option LineRow → (LineRow → Outcome) → Outcome
with_line db none f = (db, not_found)
with_line db (some row) f = f row

-- An update that leaves the line on its quote.
unfoldable pub update_line : Env → ℕ → LineEdit → Db → Outcome
update_line env id edit db = with_quote db db.quote (λ quote.
    with_line db (find_line id db.lines) (λ old.
      let new = apply_edit edit old in
      if not (is_valid new)
      then (db, bad_request)
      else if not (is_draft quote.status)
      then (db, bad_request)
      else updated env db old (price_row env new)))

abbrev pub moved : Env → Db → List VendorRfq → LineRow → Option LineRow → Outcome
moved env db rfqs old none = (db, server_error)
moved env db rfqs old (some new) = (
  record db {
    lines = db.lines ++ (new ∷ []);
    rfqs = db.rfqs ++ rfqs;
    feedback = changes env old new ++ db.feedback;
  },
  ok,
)

-- An update, seen from the quote that the line is moved to. The line stood on another quote that is
-- a draft: the status that is looked at is that of the other quote. Its requests come along.
unfoldable pub receive_line : Env → List VendorRfq → LineRow → LineEdit → Db → Outcome
receive_line env rfqs old edit db = with_quote db db.quote (λ quote.
    let new = apply_edit edit old in
    if not (is_valid new) then (db, bad_request) else moved env db rfqs old (price_row env new))

unfoldable pub drop_line : ℕ → List LineRow → List LineRow
drop_line id = keep (λ row. not (row.id == id))

-- The requests of a line go where the line goes.
abbrev pub drop_rfqs : ℕ → List VendorRfq → List VendorRfq
drop_rfqs id = keep (λ rfq. not (rfq.quote_line == id))

abbrev pub passed_on : Env → Db → LineRow → Option LineRow → Outcome
passed_on env db old none = (db, server_error)
passed_on env db old (some new) = (
  record db {
    lines = drop_line old.id db.lines;
    rfqs = drop_rfqs old.id db.rfqs;
    feedback = changes env old new ++ db.feedback;
  },
  ok,
)

-- An update, seen from the quote that the line is moved away from.
unfoldable pub pass_line : Env → ℕ → LineEdit → Db → Outcome
pass_line env id edit db = with_quote db db.quote (λ quote.
    with_line db (find_line id db.lines) (λ old.
      let new = apply_edit edit old in
      if not (is_valid new)
      then (db, bad_request)
      else if not (is_draft quote.status)
      then (db, bad_request)
      else passed_on env db old (price_row env new)))

unfoldable pub destroy_line : Env → ℕ → Db → Outcome
destroy_line env id db = with_quote db db.quote (λ quote.
    with_line db (find_line id db.lines) (λ old.
      if not (is_draft quote.status) then (db, bad_request) else (
        record db {
          lines = drop_line id db.lines;
          rfqs = drop_rfqs id db.rfqs;
          feedback =
              record {
                entity_id = id;
                value_before = description_is old.description;
                value_after = deleted;
                changed_by = env.user;
                reason = [];
              }
              ∷ db.feedback;
        },
        ok,
      )))

unfoldable pub find_rfq : ℕ → List VendorRfq → Option VendorRfq
find_rfq id [] = none
find_rfq id (rfq ∷ rfqs) = if rfq.id == id then some rfq else find_rfq id rfqs

unfoldable pub put_rfq : VendorRfq → List VendorRfq → List VendorRfq
put_rfq new [] = []
put_rfq new (rfq ∷ rfqs) = if rfq.id == new.id then new ∷ rfqs else rfq ∷ put_rfq new rfqs

-- The line with the price of the vendor, before it is priced again.
unfoldable pub take_price : Env → Decimal → LineRow → LineRow
unfolding unit
take_price env price row = record row {
  priced = record (row.priced) {
    our_cost = unit price;
    cost_source = some vendor_rfq;
    cost_effective_date = some env.cache.as_of;
    needs_review = false;
  };
}

abbrev pub reassembled : Db → List VendorRfq → Option (QuoteRow × List LineRow) → Outcome
reassembled db rfqs none = (db, server_error)
reassembled db rfqs (some (quote, rows)) =
    (record db { quote = some quote; lines = rows; rfqs = rfqs }, ok)

abbrev pub priced_again : Env → Db → QuoteRow → List VendorRfq → Option LineRow → Outcome
priced_again env db quote rfqs none = (db, server_error)
priced_again env db quote rfqs (some row) =
    reassembled db rfqs (assemble_rows env quote (put_line row db.lines))

-- `apply_rfq_price`, with the request that is saved before it in the same transaction.
unfoldable pub apply_rfq_price : Env → Db → QuoteRow → List VendorRfq → Decimal → LineRow → Outcome
apply_rfq_price env db quote rfqs price row =
    priced_again env db quote rfqs (price_row env (take_price env price row))

unfoldable pub receive_price : Env → Decimal → VendorRfq → VendorRfq
receive_price env amount rfq = record rfq {
  returned_price = some amount;
  returned_at = some env.now;
  status = received;
}

-- A price of `none` is one that is missing or not a number; one that is not finite is left out.
abbrev pub price_request : Env → Db → QuoteRow → Option VendorRfq → Option Decimal → Outcome
price_request env db quote none price = (db, not_found)
price_request env db quote (some rfq) none = (db, bad_request)
price_request env db quote (some rfq) (some amount) =
    with_line db (find_line rfq.quote_line db.lines)
      (apply_rfq_price env db quote (put_rfq (receive_price env amount rfq) db.rfqs) amount)

unfoldable pub record_price : Env → ℕ → Option Decimal → Db → Outcome
record_price env id price db =
    with_quote db db.quote (λ quote. price_request env db quote (find_rfq id db.rfqs) price)
