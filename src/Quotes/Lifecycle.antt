-- ===== src/Quotes/Lifecycle.antt =====
-- The requests on a quote as steps, and what they leave of its signature (QuoteViewSet,
-- QuoteLineViewSet and VendorRFQViewSet of backend/api/quotes/views.py, and handle_quote_export of
-- backend/pipeline/coordinator.py).
use cbc_new.Prelude.{
  ℕ, ◌≡◌, ◌⊎◌, Bool, true, false, Option, none, some, List, [], ◌∷◌, any, is_some,
}
use cbc_new.Prelude.Text.{Text}
use cbc_new.Pricing.Rounding.{Decimal}
use cbc_new.Quotes.{
  QuoteStatus, draft, approved, exported, QuoteRow, LineRow, Env, Db, Response, VendorRfq,
}
use cbc_new.Quotes.Draft.{Project}
use cbc_new.Quotes.Views.{
  Outcome, destroy_quote, recalculate, approve, export, handle_quote_export, generate, QuoteEdit,
  update_quote, is_flagged,
}
use cbc_new.Quotes.Edits.{
  LineEdit, create_line, update_line, receive_line, destroy_line, record_price, pass_line,
}
use cbc_new.Quotes.Requests.{RfqEdit, create_rfq, update_rfq, destroy_rfq}
pub mod Branches
pub mod Seals
pub mod Workflow
pub mod Signed
pub mod Frozen
pub mod Clean
pub mod Audit
pub mod Reopened

-- What a request asks for.
pub data Op : Type 0 where
  deletes recalculates : Op
  exports : Bool → Op
  approves : Bool → Text → Op
  draws : Bool → Op
  generates : Bool → Op
  updates : QuoteEdit → Op
  creates : LineRow → Op
  edits : ℕ → LineEdit → Op
  receives : List VendorRfq → LineRow → LineEdit → Op
  passes : ℕ → LineEdit → Op
  removes : ℕ → Op
  prices : ℕ → Option Decimal → Op
  asks : VendorRfq → Op
  rewrites : ℕ → RfqEdit → Op
  withdraws : ℕ → Op

-- A request, with what it finds outside the quote.
pub record Request : Type 0 where
  pub env : Env
  pub project : Project
  pub op : Op

unfoldable pub respond : Env → Project → Op → Db → Outcome
respond env project deletes db = destroy_quote db
respond env project recalculates db = recalculate env db
respond env project (exports sent) db = export env sent db
respond env project (approves confirm notes) db = approve env confirm notes db
respond env project (draws drawn) db = handle_quote_export env drawn db
respond env project (generates replace) db = generate env project replace db
respond env project (updates edit) db = update_quote edit db
respond env project (creates row) db = create_line env row db
respond env project (edits id edit) db = update_line env id edit db
respond env project (receives rfqs row edit) db = receive_line env rfqs row edit db
respond env project (removes id) db = destroy_line env id db
respond env project (passes id edit) db = pass_line env id edit db
respond env project (prices id price) db = record_price env id price db
respond env project (asks rfq) db = create_rfq rfq db
respond env project (rewrites id edit) db = update_rfq id edit db
respond env project (withdraws id) db = destroy_rfq id db

unfoldable pub step : Request → Db → Db
step r db = (respond r.env r.project r.op db).0

-- Requests in the order in which they are served.
unfoldable pub run : List Request → Db → Db
run [] db = db
run (r ∷ rs) db = run rs (step r db)

-- Where the quote stands.
pub data Phase : Type 0 where
  gone : Phase
  standing : QuoteStatus → Phase

abbrev pub phase_of : Option QuoteRow → Phase
phase_of none = gone
phase_of (some quote) = standing quote.status

abbrev pub phase : Db → Phase
phase db = phase_of db.quote

-- The moves of the workflow: a draft can be dropped; it is signed by a confirmed approval while no
-- line is flagged; a signed quote is sent when its export message is handled.
pub data Moves (lines : List LineRow) : Op → Phase → Phase → Type 0 where
  stays : {op : Op} {p : Phase} → Moves lines op p p
  drops : Moves lines deletes (standing draft) gone
  signs :
      {notes : Text}
      → any is_flagged lines ≡ false
      → Moves lines (approves true notes) (standing draft) (standing approved)
  sends : Moves lines (draws true) (standing approved) (standing exported)
