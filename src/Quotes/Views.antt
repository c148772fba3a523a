-- ===== src/Quotes/Views.antt =====
-- The operations on a quote: the views of backend/api/quotes/views.py, enqueue_quote_export of
-- export_ops.py, apply_rfq_price of pricing_ops.py and handle_quote_export of
-- backend/pipeline/coordinator.py. Each gives what is stored after it and the answer; an exception
-- inside a transaction leaves what was stored. What a serializer makes of a row is a function, an
-- argument of the operation. `server_error` is an exception that no handler catches.
use cbc_new.Prelude.{
  ℕ, Bool, false, not, Option, none, some, List, [], ◌∷◌, ◌++◌, any, is_empty, if◌then◌else◌,
}
use cbc_new.Prelude.Text.{Text, strip}
use cbc_new.Prelude.Int.{ℤ, pos}
use cbc_new.Pricing.Line.{price_line}
use cbc_new.Quotes.{
  draft, approved, exported, QuoteRow, LineRow, Env, assemble_rows, is_draft, Db, Response, ok,
  accepted, bad_request, not_found, conflict, server_error,
}
use cbc_new.Quotes.Draft.{
  Project, Drafted, drafted, not_draft, has_lines, unpriceable, generate_lines,
}

abbrev pub Outcome : Type 0
Outcome = Db × Response

-- `get_object`
abbrev pub with_quote : Db → Option QuoteRow → (QuoteRow → Outcome) → Outcome
with_quote db none f = (db, not_found)
with_quote db (some quote) f = f quote

unfoldable pub destroy_quote : Db → Outcome
destroy_quote db = with_quote db db.quote (λ quote.
    if is_draft quote.status
    then (record db { quote = none; lines = []; rfqs = [] }, ok)
    else (db, bad_request))

-- The lines that `assemble_quote` has saved when a line cannot be priced.
unfoldable pub priced_so_far : Env → List LineRow → List LineRow
priced_so_far env [] = []
priced_so_far env (row ∷ rows) = elim (price_line env.months env.cache false row.priced) [
  | none ↦ row ∷ rows
  | some priced ↦ record row { priced = priced } ∷ priced_so_far env rows
]

abbrev pub recalculated : Env → Db → Option (QuoteRow × List LineRow) → Outcome
recalculated env db none = (record db { lines = priced_so_far env db.lines }, server_error)
recalculated env db (some (quote, rows)) = (record db { quote = some quote; lines = rows }, ok)

unfoldable pub recalculate : Env → Db → Outcome
recalculate env db = with_quote db db.quote (λ quote.
    if not (is_draft quote.status)
    then (db, conflict)
    else recalculated env db (assemble_rows env quote db.lines))

abbrev pub is_flagged : LineRow → Bool
is_flagged row = row.priced.needs_review

unfoldable pub sign : Env → Text → QuoteRow → QuoteRow
sign env notes quote = record quote {
  status = approved;
  approved_by = env.user;
  approved_at = some env.now;
  notes = if is_empty notes then quote.notes else strip (quote.notes ++ (10 ∷ notes));
}

unfoldable pub approve : Env → Bool → Text → Db → Outcome
approve env confirm notes db =
    if not confirm
    then (db, bad_request)
    else with_quote db db.quote (λ quote.
      if not (is_draft quote.status)
      then (db, conflict)
      else if any is_flagged db.lines
      then (db, conflict)
      else (record db { quote = some (sign env notes quote) }, ok))

-- The address is stored before the queue is looked up and the message is sent, which can raise.
unfoldable pub enqueue_quote_export : Env → Bool → QuoteRow → Db → Outcome
enqueue_quote_export env sent quote db =
    let stored = some (record quote { exported_to_email = env.initiator }) in
    if sent
    then (record db { quote = stored; messages = env.initiator ∷ db.messages }, accepted)
    else (record db { quote = stored }, server_error)

unfoldable pub export : Env → Bool → Db → Outcome
export env sent db = with_quote db db.quote (λ quote.
    if is_draft quote.status then (db, conflict) else enqueue_quote_export env sent quote db)

-- `a or b` of two addresses.
abbrev pub address_or : Option Text → Option Text → Option Text
address_or none other = other
address_or (some t) other = if is_empty t then other else some t

abbrev pub mark_exported : Env → QuoteRow → QuoteRow
mark_exported env quote = record quote {
  export_key = some (quote.project, 1);
  exported_at = some env.now;
  status = exported;
}

-- The message of an export, handled: the pdf of the first version is stored, then the quote, then
-- the mail is asked for. Drawing the pdf can fail.
abbrev pub with_stored : Db → Option QuoteRow → (QuoteRow → Outcome) → Outcome
with_stored db none f = (db, server_error)
with_stored db (some quote) f = f quote

unfoldable pub handle_quote_export : Env → Bool → Db → Outcome
handle_quote_export env drawn db = with_stored db db.quote (λ quote.
    if is_draft quote.status then (db, ok) else if not drawn then (db, server_error) else (
      record db {
        quote = some (mark_exported env quote);
        mails = address_or quote.exported_to_email env.initiator ∷ db.mails;
      },
      ok,
    ))

abbrev pub generated : Db → Drafted → Outcome
generated db not_draft = (db, conflict)
generated db has_lines = (db, conflict)
generated db unpriceable = (db, server_error)
generated db (drafted quote rows) = (record db { quote = some quote; lines = rows }, ok)

unfoldable pub generate : Env → Project → Bool → Db → Outcome
generate env project replace db =
    with_quote db db.quote
      (λ quote. generated db (generate_lines env project replace quote db.lines))

-- The four columns that an update of the quote can write.
pub record QuoteEdit : Type 0 where
  pub project : ℕ
  pub freight_amount : Option ℤ
  pub tax_jurisdiction : Option Text
  pub notes : Text

abbrev pub write_quote : QuoteEdit → QuoteRow → QuoteRow
write_quote edit quote = record quote {
  project = edit.project;
  notes = edit.notes;
  totals = record (quote.totals) {
    freight_amount = edit.freight_amount;
    tax_jurisdiction = edit.tax_jurisdiction;
  };
}

unfoldable pub update_quote : QuoteEdit → Db → Outcome
update_quote edit db =
    with_quote db db.quote (λ quote. (record db { quote = some (write_quote edit quote) }, ok))

-- A created quote, for the columns that the request writes: a draft without lines.
unfoldable pub create_quote : QuoteEdit → Db
create_quote edit = record {
  quote = some (record {
    status = draft;
    project = edit.project;
    totals = record {
      freight_amount = edit.freight_amount;
      tax_jurisdiction = edit.tax_jurisdiction;
      subtotal_sale = pos 0;
      tax_rate_applied = none;
      tax_amount = pos 0;
      grand_total = pos 0;
    };
    notes = edit.notes;
    approved_by = none;
    approved_at = none;
    exported_at = none;
    export_key = none;
    exported_to_email = none;
  });
  lines = [];
  rfqs = [];
  feedback = [];
  messages = [];
  mails = [];
}
