-- ===== src/Quotes.antt =====
-- backend/api/quotes: the quote of a project, seen from one quote. The columns are those of
-- models.py, with the figures that pricing keeps (`Pricing`). `Draft` has draft_ops.py, `Views` the
-- operations of views.py and export_ops.py with the export handler of
-- backend/pipeline/coordinator.py, and `Lifecycle` their runs. Identifiers are numbers, times are
-- numbers. A line is one row; the lines stand in the order of their creation.
use cbc_new.Prelude.{
  ℕ, zero, suc, ◌≡◌, refl, Bool, true, false, not, ◌&&◌, Option, none, some, List, [], ◌∷◌, map,
  ltb,
}
use cbc_new.Prelude.Text.{Text}
use cbc_new.Prelude.Int.{ℤ, pos, ltb_ℤ}
use cbc_new.Pricing.Rounding.{Decimal}
use cbc_new.Pricing.Reference.{ReferenceCache}
use cbc_new.Pricing.Line.{CostSource, QuoteLine}
use cbc_new.Pricing.Assembly.{Quote, assemble_quote}
pub mod Repriced
pub mod Draft
pub mod Views
pub mod Edits
pub mod Requests
pub mod Lifecycle
mod Tests

pub data QuoteStatus : Type 0 where
  draft approved exported : QuoteStatus

-- A quote without its lines.
pub record QuoteRow : Type 0 where
  pub status : QuoteStatus
  pub project : ℕ
  pub totals : Quote
  pub notes : Text
  pub approved_by : Option ℕ
  pub approved_at : Option ℕ
  pub exported_at : Option ℕ
  pub export_key : Option (ℕ × ℕ)
  pub exported_to_email : Option Text

-- A line of the quote: the columns that pricing reads or writes are in `priced`.
pub record LineRow : Type 0 where
  pub id : ℕ
  pub opening : Option ℕ
  pub match_id : Option ℕ
  pub hardware_component : Option ℕ
  pub description : Text
  pub line_order : ℕ
  pub margin_override_reason : Text
  pub is_direct_equal : Bool
  pub substitution_note : Text
  pub priced : QuoteLine

abbrev pub priced_columns : List LineRow → List QuoteLine
priced_columns = map (λ row. row.priced)

-- The priced columns are written back, line by line.
unfoldable pub put_priced : List LineRow → List QuoteLine → List LineRow
put_priced [] priced = []
put_priced (row ∷ rows) [] = row ∷ rows
put_priced (row ∷ rows) (line ∷ lines) = record row { priced = line } ∷ put_priced rows lines

-- What a request reads from outside the quote: the freshness window, the reference data of the
-- day, the clock, the user if there is one, the initiator of the project, and the identifiers that
-- new rows get.
pub record Env : Type 0 where
  pub months : ℕ
  pub cache : ReferenceCache
  pub now : ℕ
  pub user : Option ℕ
  pub initiator : Option Text
  pub new_id : ℕ → ℕ

unfoldable pub put_assembled :
    QuoteRow → List LineRow → Option (Quote × List QuoteLine) → Option (QuoteRow × List LineRow)
put_assembled quote rows none = none
put_assembled quote rows (some (totals, lines)) =
    some (record quote { totals = totals }, put_priced rows lines)

-- `assemble_quote` on the rows: `none` is a PricingError.
unfoldable pub assemble_rows : Env → QuoteRow → List LineRow → Option (QuoteRow × List LineRow)
unfolding put_assembled
assemble_rows env quote rows =
    put_assembled quote rows
      (assemble_quote env.months env.cache quote.totals (priced_columns rows))

abbrev pub is_draft : QuoteStatus → Bool
is_draft draft = true
is_draft _ = false

pub data RfqStatus : Type 0 where
  requested received declined cancelled : RfqStatus

-- A request for a price of one line, sent to a vendor. The price is the one that was given, before its
-- column rounds it.
pub record VendorRfq : Type 0 where
  pub id : ℕ
  pub quote_line : ℕ
  pub status : RfqStatus
  pub returned_price : Option Decimal
  pub returned_at : Option ℕ

-- The five columns whose edits are recorded, and the deletion of a line.
pub data FeedbackValue : Type 0 where
  quantity_is our_cost_is margin_pct_is : ℤ → FeedbackValue
  cost_source_is : Option CostSource → FeedbackValue
  description_is : Text → FeedbackValue
  deleted : FeedbackValue

pub record Feedback : Type 0 where
  pub entity_id : ℕ
  pub value_before : FeedbackValue
  pub value_after : FeedbackValue
  pub changed_by : Option ℕ
  pub reason : Text

-- What is stored of one quote: its row unless it is deleted, its lines and their requests, the
-- feedback, the export messages that were sent and the mails that were asked for.
pub record Db : Type 0 where
  pub quote : Option QuoteRow
  pub lines : List LineRow
  pub rfqs : List VendorRfq
  pub feedback : List Feedback
  pub messages : List (Option Text)
  pub mails : List (Option Text)

pub data Response : Type 0 where
  ok accepted bad_request not_found conflict server_error : Response
