-- ===== src/Quotes/Lifecycle/Signed.antt =====
-- Nothing leaves without an approval (the constraint at the head of backend/api/quotes/views.py).
use mathlib.Core.Path.{subst}
use cbc_new.Prelude.{
  ℕ, ◌≡◌, refl, sym, Bool, true, false, not, Option, none, some, List, [], ◌∷◌, any, is_some,
}
use cbc_new.Prelude.Text.{Text}
use cbc_new.Quotes.{QuoteStatus, draft, approved, exported, QuoteRow, Env, Db, is_draft}
use cbc_new.Quotes.Draft.{Project}
use cbc_new.Quotes.Views.{
  Outcome, destroy_quote, approve, sign, export, enqueue_quote_export, handle_quote_export,
  address_or, is_flagged, QuoteEdit, create_quote,
}
use cbc_new.Quotes.Lifecycle.{
  Op, deletes, recalculates, exports, approves, draws, generates, updates, creates, edits, receives,
  removes, prices, passes, asks, rewrites, withdraws, Request, respond, step, run,
}
use cbc_new.Quotes.Lifecycle.Branches.{by_test, by_quote, by_stored}
use cbc_new.Quotes.Lifecycle.Seals.{Seal, seal_of, is_signing, respond_sheet}

-- What a status says of the signature, the messages and the mails. A draft is not approved, not
-- exported, and nothing was sent for it; an approved quote has the time of its approval, is not
-- exported and was not mailed; an exported one has the times of both and its pdf.
abbrev pub IsLawful :
    QuoteStatus
    → Option ℕ
    → Option ℕ
    → Option (ℕ × ℕ)
    → List (Option Text)
    → List (Option Text)
    → Type 0
IsLawful draft approved_at exported_at key messages mails =
    (approved_at ≡ none) × (exported_at ≡ none) × (key ≡ none) × (messages ≡ []) × (mails ≡ [])
IsLawful approved approved_at exported_at key messages mails =
    (is_some approved_at ≡ true) × (exported_at ≡ none) × (key ≡ none) × (mails ≡ [])
IsLawful exported approved_at exported_at key messages mails =
    (is_some approved_at ≡ true) × (is_some exported_at ≡ true) × (is_some key ≡ true)

-- The same of what is stored; nothing was sent for a quote that is deleted.
abbrev pub IsSigned : Option Seal → List (Option Text) → List (Option Text) → Type 0
IsSigned none messages mails = (messages ≡ []) × (mails ≡ [])
IsSigned (some s) messages mails =
    IsLawful s.status s.approved_at s.exported_at s.export_key messages mails

abbrev pub IsSignedDb : Db → Type 0
IsSignedDb db = IsSigned (seal_of db.quote) db.messages db.mails

module _ (a x : Option ℕ) (k : Option (ℕ × ℕ)) (messages mails : List (Option Text)) where
  dropped :
      (s : QuoteStatus)
      → is_draft s ≡ true
      → IsLawful s a x k messages mails
      → (messages ≡ []) × (mails ≡ [])
  dropped draft d h = (h.3, h.4)
  dropped approved d h = absurd cc
  dropped exported d h = absurd cc

  signed :
      (now : ℕ) (s : QuoteStatus)
      → not (is_draft s) ≡ false
      → IsLawful s a x k messages mails
      → IsLawful approved (some now) x k messages mails
  signed now draft d h = (refl, h.1, h.2, h.4)
  signed now approved d h = absurd cc
  signed now exported d h = absurd cc

  queued :
      (m : Option Text) (s : QuoteStatus)
      → is_draft s ≡ false
      → IsLawful s a x k messages mails
      → IsLawful s a x k (m ∷ messages) mails
  queued m draft d h = absurd cc
  queued m approved d h = h
  queued m exported d h = h

  mailed :
      (now : ℕ) (key : ℕ × ℕ) (m : Option Text) (s : QuoteStatus)
      → is_draft s ≡ false
      → IsLawful s a x k messages mails
      → IsLawful exported a (some now) (some key) messages (m ∷ mails)
  mailed now key m draft d h = absurd cc
  mailed now key m approved d h = (h.0, refl, refl)
  mailed now key m exported d h = (h.0, refl, refl)

module _ (db : Db) (h : IsSignedDb db) where
  abbrev Signs : Outcome → Type 0
  Signs out = IsSignedDb out.0

  row :
      (q : QuoteRow)
      → db.quote ≡ some q
      → IsLawful q.status q.approved_at q.exported_at q.export_key db.messages db.mails
  row q e = subst (λ o. IsSigned (seal_of o) db.messages db.mails) e h

  destroy-Signs : Signs (destroy_quote db)
  unfolding destroy_quote
  destroy-Signs = by_quote Signs db db.quote h (λ q e.
      by_test Signs (is_draft q.status)
        (λ d.
          dropped q.approved_at q.exported_at q.export_key db.messages db.mails q.status d
            (row q e))
        (λ d. h))

  approve-Signs : (env : Env) (confirm : Bool) (notes : Text) → Signs (approve env confirm notes db)
  unfolding approve sign
  approve-Signs env confirm notes =
      by_test Signs (not confirm) (λ c. h)
        (λ c. by_quote Signs db db.quote h (λ q e.
          by_test Signs (not (is_draft q.status)) (λ d. h)
            (λ d.
              by_test Signs (any is_flagged db.lines) (λ f. h)
                (λ f.
                  signed q.approved_at q.exported_at q.export_key db.messages db.mails env.now
                    q.status d (row q e)))))

  export-Signs : (env : Env) (sent : Bool) → Signs (export env sent db)
  unfolding export enqueue_quote_export
  export-Signs env sent = by_quote Signs db db.quote h (λ q e.
      by_test Signs (is_draft q.status) (λ d. h)
        (λ d.
          by_test Signs sent
            (λ m.
              queued q.approved_at q.exported_at q.export_key db.messages db.mails env.initiator
                q.status d (row q e))
            (λ m. row q e)))

  draw-Signs : (env : Env) (drawn : Bool) → Signs (handle_quote_export env drawn db)
  unfolding handle_quote_export
  draw-Signs env drawn = by_stored Signs db db.quote h (λ q e.
      by_test Signs (is_draft q.status) (λ d. h)
        (λ d.
          by_test Signs (not drawn) (λ f. h)
            (λ f.
              mailed q.approved_at q.exported_at q.export_key db.messages db.mails env.now
                (q.project, 1) (address_or q.exported_to_email env.initiator) q.status d
                (row q e))))

  other-Signs :
      (env : Env) (project : Project) (op : Op)
      → is_signing op ≡ false
      → Signs (respond env project op db)
  other-Signs env project op n =
      subst (λ s. IsSigned s.signed s.messages s.mails) (sym (respond_sheet env project op db n)) h

step-IsSigned : (r : Request) (db : Db) → IsSignedDb db → IsSignedDb (step r db)
unfolding step respond
step-IsSigned r db h = next r.op
  where
    next : (op : Op) → IsSignedDb (respond r.env r.project op db).0
    next deletes = destroy-Signs db h
    next (approves confirm notes) = approve-Signs db h r.env confirm notes
    next (exports sent) = export-Signs db h r.env sent
    next (draws drawn) = draw-Signs db h r.env drawn
    next recalculates = other-Signs db h r.env r.project recalculates refl
    next (generates replace) = other-Signs db h r.env r.project (generates replace) refl
    next (updates edit) = other-Signs db h r.env r.project (updates edit) refl
    next (creates new) = other-Signs db h r.env r.project (creates new) refl
    next (edits id edit) = other-Signs db h r.env r.project (edits id edit) refl
    next (receives rfqs old edit) = other-Signs db h r.env r.project (receives rfqs old edit) refl
    next (removes id) = other-Signs db h r.env r.project (removes id) refl
    next (passes id edit) = other-Signs db h r.env r.project (passes id edit) refl
    next (asks rfq) = other-Signs db h r.env r.project (asks rfq) refl
    next (rewrites id edit) = other-Signs db h r.env r.project (rewrites id edit) refl
    next (withdraws id) = other-Signs db h r.env r.project (withdraws id) refl
    next (prices id price) = other-Signs db h r.env r.project (prices id price) refl

run-IsSigned_from : (rs : List Request) (db : Db) → IsSignedDb db → IsSignedDb (run rs db)
unfolding run
run-IsSigned_from [] db h = h
run-IsSigned_from (r ∷ rs) db h = run-IsSigned_from rs (step r db) (step-IsSigned r db h)

-- After any requests on a created quote, in any order: a draft or deleted quote has no approval, no
-- export, no export message and no mail; an approved quote has the time of its approval and was not
-- mailed; an exported one has the time of its approval, the time of its export and its pdf.
pub run-IsSigned : (edit : QuoteEdit) (rs : List Request) → IsSignedDb (run rs (create_quote edit))
unfolding create_quote
run-IsSigned edit rs = run-IsSigned_from rs (create_quote edit) (refl, refl, refl, refl, refl)
