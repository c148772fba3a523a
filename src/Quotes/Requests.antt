-- ===== src/Quotes/Requests.antt =====
-- The rows of the requests to vendors: what VendorRFQViewSet of backend/api/quotes/views.py does with
-- VendorRFQSerializer of serializers.py, apart from the returned price. An update is a function of the
-- row; a line that is not of this quote is taken to be missing.
use cbc_new.Prelude.{ℕ, not, Option, none, some, List, [], ◌∷◌, ◌++◌, keep, ◌==◌}
use cbc_new.Quotes.{LineRow, VendorRfq, Db, ok, bad_request, not_found}
use cbc_new.Quotes.Views.{Outcome}
use cbc_new.Quotes.Edits.{find_line, find_rfq, put_rfq}

abbrev pub RfqEdit : Type 0
RfqEdit = VendorRfq → VendorRfq

-- The check of the serializer: the line of a saved request has to be there.
abbrev pub on_line : Db → Option LineRow → List VendorRfq → Outcome
on_line db none rfqs = (db, bad_request)
on_line db (some row) rfqs = (record db { rfqs = rfqs }, ok)

abbrev pub with_rfq : Db → Option VendorRfq → (VendorRfq → Outcome) → Outcome
with_rfq db none f = (db, not_found)
with_rfq db (some rfq) f = f rfq

unfoldable pub create_rfq : VendorRfq → Db → Outcome
create_rfq rfq db = on_line db (find_line rfq.quote_line db.lines) (db.rfqs ++ (rfq ∷ []))

unfoldable pub update_rfq : ℕ → RfqEdit → Db → Outcome
update_rfq id edit db = with_rfq db (find_rfq id db.rfqs) (λ old.
    let new = record (edit old) { id = old.id } in
    on_line db (find_line new.quote_line db.lines) (put_rfq new db.rfqs))

unfoldable pub destroy_rfq : ℕ → Db → Outcome
destroy_rfq id db =
    with_rfq db (find_rfq id db.rfqs)
      (λ old. (record db { rfqs = keep (λ rfq. not (rfq.id == id)) db.rfqs }, ok))
