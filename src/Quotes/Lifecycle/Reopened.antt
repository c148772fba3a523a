-- ===== src/Quotes/Lifecycle/Reopened.antt =====
-- The price of a vendor asks for no status (record_price of backend/api/quotes/views.py and
-- apply_rfq_price of pricing_ops.py).
use cbc_new.Prelude.{ℕ, ◌≡◌, refl, Option, none, some, List}
use cbc_new.Pricing.Rounding.{Decimal}
use cbc_new.Pricing.Assembly.{Quote, assemble_quote}
use cbc_new.Pricing.Line.{QuoteLine}
use cbc_new.Quotes.{
  QuoteStatus, QuoteRow, LineRow, Env, Db, put_assembled, assemble_rows, priced_columns, VendorRfq,
}
use cbc_new.Quotes.Views.{Outcome}
use cbc_new.Quotes.Edits.{
  find_line, find_rfq, put_rfq, put_line, receive_price, reassembled, priced_again, price_request,
  price_row, take_price, apply_rfq_price, record_price, with_line,
}

-- Another status put on the quote.
abbrev pub restatus_quote : QuoteStatus → Option QuoteRow → Option QuoteRow
restatus_quote status none = none
restatus_quote status (some quote) = some (record quote { status = status })

abbrev pub restatus : QuoteStatus → Db → Db
restatus status db = record db { quote = restatus_quote status db.quote }

abbrev pub restatus_outcome : QuoteStatus → Outcome → Outcome
restatus_outcome status out = (restatus status out.0, out.1)

abbrev restatus_row : QuoteStatus → QuoteRow → QuoteRow
restatus_row status quote = record quote { status = status }

module _ (status : QuoteStatus) (env : Env) where
  reassembled-restatus :
      (db : Db) (q : QuoteRow) (rfqs : List VendorRfq) (rows : List LineRow)
      (o : Option (Quote × List QuoteLine))
      → reassembled (restatus status db) rfqs (put_assembled (restatus_row status q) rows o)
        ≡ restatus_outcome status (reassembled db rfqs (put_assembled q rows o))
  unfolding put_assembled
  reassembled-restatus db q rfqs rows none = refl
  reassembled-restatus db q rfqs rows (some result) = refl

  priced_again-restatus :
      (db : Db) (q : QuoteRow) (rfqs : List VendorRfq) (o : Option LineRow)
      → priced_again env (restatus status db) (restatus_row status q) rfqs o
        ≡ restatus_outcome status (priced_again env db q rfqs o)
  unfolding assemble_rows
  priced_again-restatus db q rfqs none = refl
  priced_again-restatus db q rfqs (some row) =
      reassembled-restatus db q rfqs (put_line row db.lines)
        (assemble_quote env.months env.cache q.totals (priced_columns (put_line row db.lines)))

  with_line-restatus :
      (db : Db) (q : QuoteRow) (rfqs : List VendorRfq) (amount : Decimal) (o : Option LineRow)
      → with_line
          (restatus status db)
          o
          (apply_rfq_price env (restatus status db) (restatus_row status q) rfqs amount)
        ≡ restatus_outcome status (with_line db o (apply_rfq_price env db q rfqs amount))
  unfolding apply_rfq_price
  with_line-restatus db q rfqs amount none = refl
  with_line-restatus db q rfqs amount (some row) =
      priced_again-restatus db q rfqs (price_row env (take_price env amount row))

  price_request-restatus :
      (db : Db) (q : QuoteRow) (rfq : Option VendorRfq) (price : Option Decimal)
      → price_request env (restatus status db) (restatus_row status q) rfq price
        ≡ restatus_outcome status (price_request env db q rfq price)
  price_request-restatus db q none price = refl
  price_request-restatus db q (some rfq) none = refl
  price_request-restatus db q (some rfq) (some amount) =
      with_line-restatus db q (put_rfq (receive_price env amount rfq) db.rfqs) amount
        (find_line rfq.quote_line db.lines)

  -- Recording the price of a vendor does the same to a quote whatever its status is: with another
  -- status put on the quote before it, the answer, the lines, the totals and the requests are the
  -- same, and the quote has that status after it.
  pub record_price-restatus :
      (id : ℕ) (price : Option Decimal) (db : Db)
      → record_price env id price (restatus status db)
        ≡ restatus_outcome status (record_price env id price db)
  unfolding record_price
  record_price-restatus id price db = stored db.quote
    where
      stored :
          (o : Option QuoteRow)
          → let db' = record db { quote = o } in
            record_price env id price (restatus status db')
            ≡ restatus_outcome status (record_price env id price db')
      stored none = refl
      stored (some q) =
          price_request-restatus (record db { quote = some q }) q (find_rfq id db.rfqs) price
