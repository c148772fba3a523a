-- ===== src/Quotes/Lifecycle/Branches.antt =====
-- A property of what a handler gives, from its branches (backend/api/quotes/views.py).
use cbc_new.Prelude.{◌≡◌, refl, Bool, true, false, Option, none, some, List, if◌then◌else◌}
use cbc_new.Quotes.{QuoteRow, LineRow, Db, not_found, server_error, bad_request, ok, VendorRfq}
use cbc_new.Quotes.Views.{Outcome, with_quote, with_stored}
use cbc_new.Quotes.Edits.{with_line}
use cbc_new.Quotes.Requests.{with_rfq, on_line}

module _ (P : Outcome → Type 0) where
  pub by_test :
      (b : Bool) {x y : Outcome} → (b ≡ true → P x) → (b ≡ false → P y) → P (if b then x else y)
  by_test true h g = h refl
  by_test false h g = g refl

  pub by_quote :
      (db : Db) (quote : Option QuoteRow) {f : QuoteRow → Outcome}
      → P (db, not_found)
      → ((q : QuoteRow) → quote ≡ some q → P (f q))
      → P (with_quote db quote f)
  by_quote db none h g = h
  by_quote db (some q) h g = g q refl

  pub by_line :
      (db : Db) (row : Option LineRow) {f : LineRow → Outcome}
      → P (db, not_found)
      → ((r : LineRow) → P (f r))
      → P (with_line db row f)
  by_line db none h g = h
  by_line db (some r) h g = g r

  pub by_rfq :
      (db : Db) (rfq : Option VendorRfq) {f : VendorRfq → Outcome}
      → P (db, not_found)
      → ((r : VendorRfq) → P (f r))
      → P (with_rfq db rfq f)
  by_rfq db none h g = h
  by_rfq db (some r) h g = g r

  pub by_place :
      (db : Db) (row : Option LineRow) (rfqs : List VendorRfq)
      → P (db, bad_request)
      → P (record db { rfqs = rfqs }, ok)
      → P (on_line db row rfqs)
  by_place db none rfqs h g = h
  by_place db (some row) rfqs h g = g

  pub by_stored :
      (db : Db) (quote : Option QuoteRow) {f : QuoteRow → Outcome}
      → P (db, server_error)
      → ((q : QuoteRow) → quote ≡ some q → P (f q))
      → P (with_stored db quote f)
  by_stored db none h g = h
  by_stored db (some q) h g = g q refl
