-- ===== src/Jobs/Settled.antt =====
-- No document is left in mid-sentence (normalise_document, _extract_and_link and
-- handle_textract_completed of backend/pipeline/coordinator.py).
use cbc_new.Prelude.{
  [], ◌≡◌, ◌⊎◌, refl, Bool, true, false, Option, some, none, if◌then◌else◌, inl, inr, take, ◌++◌,
}
use cbc_new.Prelude.Text.{Text, codes, is_listed}
use cbc_new.Jobs.{
  ocr, extract, normalize, link, JobStatus, completed, skipped, failed, quarantined, DocumentStatus,
  processed, doc_failed, doc_quarantined, Exception, encrypted_document, budget_exceeded,
  document_too_large, table_budget_exceeded, config_error, boto_core_error, other_error,
  client_error, DocState, bind, give, throw, and_then,
}
use cbc_new.Jobs.Repository.{
  with_key, change_job, complete_job, set_document_status, get_or_create_job,
}
use cbc_new.Jobs.Extraction.{Stages, open_job, run_extraction}
use cbc_new.Jobs.Coordinator.{
  World, is_completed, mark_stage, mark, settle, extract_and_link, normalise_document,
  transient_bedrock_errors, Completion, succeeded, unsuccessful, handle_textract_completed,
}
use cbc_new.Jobs.Ends.{Ends, Ends-recover, Ends-continue}
use cbc_new.Jobs.Extracted.{status_of, IsCompleted, IsRead, IsCalm, extraction-IsRead}

module _ (status : DocumentStatus) where
  -- EXTRACT is completed, or skipped on the record.
  abbrev IsOver : DocState → Type 0
  IsOver s =
      (IsCalm status) s
      × ((status_of (s.jobs extract) ≡ some completed)
          ⊎ (status_of (s.jobs extract) ≡ some skipped))

  completed_of : (j : JobStatus) → is_completed j ≡ true → some j ≡ some completed
  completed_of completed h = refl
  completed_of skipped h = absurd cc
  completed_of failed h = absurd cc
  completed_of quarantined h = absurd cc
  completed_of JobStatus.pending h = absurd cc
  completed_of JobStatus.started h = absurd cc

  mark_extract :
      (detail : Text) (s : DocState)
      → (IsCalm status) s
      → Ends (λ u. IsOver) (IsCalm status) (mark_stage skipped detail extract s)
  mark_extract detail s h = marked (is_completed (with_key none (s.jobs extract)).status) refl
    where
      marked :
          (b : Bool)
          → is_completed (with_key none (s.jobs extract)).status ≡ b
          → Ends
              (λ u. IsOver)
              (IsCalm status)
              ((if b
                  then give tt
                  else change_job extract
                      (λ old. record old { status = skipped; error_detail = take 4000 detail }))
                (get_or_create_job extract none s).0)
      marked true e = (h, inl (completed_of (with_key none (s.jobs extract)).status e))
      marked false e = (h, inr refl)

  mark_link :
      (detail : Text) (s : DocState)
      → IsOver s
      → Ends (λ u. IsOver) (IsCalm status) (mark_stage skipped detail link s)
  mark_link detail s h = marked (is_completed (with_key none (s.jobs link)).status)
    where
      marked :
          (b : Bool)
          → Ends
              (λ u. IsOver)
              (IsCalm status)
              ((if b
                  then give tt
                  else change_job link
                      (λ old. record old { status = skipped; error_detail = take 4000 detail }))
                (get_or_create_job link none s).0)
      marked true = h
      marked false = h

  mark-IsCalm :
      (j : JobStatus) (detail : Text) (s : DocState)
      → (IsCalm status) s
      → Ends (λ u. (IsCalm status)) (IsCalm status) (mark j detail s)
  mark-IsCalm j detail s h =
      let s' = (get_or_create_job extract none s).0 in
      Ends-continue (λ u. (IsCalm status)) (λ u. (IsCalm status)) (IsCalm status) (IsCalm status)
        (mark_stage j detail extract s) (λ u. mark_stage j detail link)
        (first (is_completed (with_key none (s.jobs extract)).status))
        (λ u t k. second t k (is_completed (with_key none (t.jobs link)).status)) (λ t k. k)
    where
      first :
          (b : Bool)
          → Ends
              (λ u. (IsCalm status))
              (IsCalm status)
              ((if b
                  then give tt
                  else change_job extract
                      (λ old. record old { status = j; error_detail = take 4000 detail }))
                (get_or_create_job extract none s).0)
      first true = h
      first false = h

      second :
          (t : DocState)
          → (IsCalm status) t
          → (b : Bool)
          → Ends
              (λ u. (IsCalm status))
              (IsCalm status)
              ((if b
                  then give tt
                  else change_job link
                      (λ old. record old { status = j; error_detail = take 4000 detail }))
                (get_or_create_job link none t).0)
      second t k true = k
      second t k false = k

  -- Whether the extraction settled the status itself.
  abbrev IsKnown : Bool → DocState → Type 0
  IsKnown true s =
      IsCompleted normalize s × ((s.status ≡ doc_failed) ⊎ (s.status ≡ doc_quarantined))
  IsKnown false s = IsOver s

  settle-IsKnown :
      (e : Exception) (s : DocState) → (IsCalm status) s → Ends IsKnown (IsCalm status) (settle e s)
  unfolding settle
  settle-IsKnown (config_error t) s h =
      Ends-continue (λ u. IsOver) IsKnown (IsCalm status) (IsCalm status) (mark skipped t s)
        (λ u. give false)
        (Ends-continue (λ u. IsOver) (λ u. IsOver) (IsCalm status) (IsCalm status)
          (mark_stage skipped t extract s) (λ u. mark_stage skipped t link) (mark_extract t s h)
          (λ u x k. mark_link t x k) (λ x k. k))
        (λ u x k. k) (λ x k. k)
  settle-IsKnown (table_budget_exceeded t) s h =
      Ends-continue (λ u. (IsCalm status)) IsKnown (IsCalm status) (IsCalm status)
        (mark quarantined t s) (λ u. and_then (set_document_status doc_quarantined t) (give true))
        (mark-IsCalm quarantined t s h) (λ u x k. (k.0, inr refl)) (λ x k. k)
  settle-IsKnown (client_error code t) s h = coded (is_listed code transient_bedrock_errors)
    where
      coded :
          (b : Bool)
          → Ends IsKnown (IsCalm status) (
              (if b
                  then throw (client_error code t)
                  else (let detail = code ++ (codes ": " ++ t) in
                      and_then
                        (mark failed detail)
                        (and_then (set_document_status doc_failed detail) (give true))))
                s)
      coded true = h
      coded false =
          let detail = code ++ (codes ": " ++ t) in
          Ends-continue (λ u. (IsCalm status)) IsKnown (IsCalm status) (IsCalm status)
            (mark failed detail s)
            (λ u. and_then (set_document_status doc_failed detail) (give true))
            (mark-IsCalm failed detail s h) (λ u x k. (k.0, inl refl)) (λ x k. k)
  settle-IsKnown (encrypted_document t) s h = h
  settle-IsKnown (budget_exceeded t) s h = h
  settle-IsKnown (document_too_large t) s h = h
  settle-IsKnown (boto_core_error t) s h = h
  settle-IsKnown (other_error t) s h = h

  extract-IsKnown :
      (w : Stages) (s : DocState)
      → (IsCalm status) s
      → Ends IsKnown (IsCalm status) (extract_and_link w s)
  unfolding extract_and_link
  extract-IsKnown w s h =
      Ends-recover IsKnown IsKnown (IsCalm status) (IsCalm status)
        (and_then (run_extraction w) (give false) s) settle
        (Ends-continue (λ u. (IsRead status)) IsKnown (IsCalm status) (IsCalm status)
          (run_extraction w s) (λ u. give false) (extraction-IsRead status w s h)
          (λ u x k. ((k.0.0, k.0.1), inl k.1)) (λ x k. k))
        (λ b x k. k) settle-IsKnown

-- What a normalisation leaves of a document: when the handler returns, NORMALIZE is completed and
-- the document is processed, with EXTRACT completed or skipped on the record, or failed, or
-- quarantined.
abbrev pub IsSettled : DocState → Type 0
IsSettled s =
    IsCompleted normalize s
    × (((s.status ≡ processed)
          × ((status_of (s.jobs extract) ≡ some completed)
              ⊎ (status_of (s.jobs extract) ≡ some skipped)))
        ⊎ ((s.status ≡ doc_failed) ⊎ (s.status ≡ doc_quarantined)))

normalise-IsSettled :
    (w : World) (s : DocState)
    → Ends (λ u. IsSettled) (λ t. t.status ≡ s.status) (normalise_document w s)
unfolding normalise_document
normalise-IsSettled w s = ended w.normalised
  where
    last :
        (t : DocState) (b : Bool)
        → IsKnown s.status b t
        → Ends
            (λ u. IsSettled)
            (λ x. x.status ≡ s.status)
            ((if b then give tt else set_document_status processed []) t)
    last t true k = (k.0, inr k.1)
    last t false k = (k.0.0, inl (refl, k.1))

    ended :
        (e : Option Exception)
        → Ends
            (λ u. IsSettled)
            (λ t. t.status ≡ s.status)
            (normalise_document (record w { normalised = e }) s)
    ended (some e) = refl
    ended none =
        let s' = (and_then (open_job normalize) (complete_job normalize) s).0 in
        Ends-continue (IsKnown s.status) (λ u. IsSettled) (IsCalm s.status)
          (λ t. t.status ≡ s.status) (extract_and_link w.stages s')
          (λ settled. if settled then give tt else set_document_status processed [])
          (extract-IsKnown s.status w.stages s' (refl, refl)) (λ b t k. last t b k) (λ t k. k.1)

-- What the handler of a completion leaves when it returns: after a Textract job that did not succeed
-- the document is failed and OCR quarantined.
abbrev pub IsHandled : Completion → DocState → Type 0
IsHandled (unsuccessful message) s =
    (s.status ≡ doc_failed) × (status_of (s.jobs ocr) ≡ some quarantined)
IsHandled succeeded s = IsSettled s

-- When the handler of a completed Textract job returns, and its message is consumed, the document is
-- settled: where Textract did not succeed the document is failed and OCR quarantined, and else
-- NORMALIZE is completed and the document is processed with EXTRACT completed or skipped, or failed,
-- or quarantined. When the handler raises, and its message is delivered again, the document stands
-- as it stood.
pub textract_settles :
    (c : Completion) (w : World) (s : DocState)
    → Ends (λ u. IsHandled c) (λ t. t.status ≡ s.status) (handle_textract_completed c w s)
unfolding handle_textract_completed
textract_settles (unsuccessful message) w s = (refl, refl)
textract_settles succeeded w s = ended w.fetched
  where
    ended :
        (e : Option Exception)
        → Ends
            (λ u. IsHandled succeeded)
            (λ t. t.status ≡ s.status)
            (handle_textract_completed succeeded (record w { fetched = e }) s)
    ended (some e) = refl
    ended none =
        normalise-IsSettled w (bind (get_or_create_job ocr none) (λ job. complete_job ocr) s).0
