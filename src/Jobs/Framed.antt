-- ===== src/Jobs/Framed.antt =====
-- What the stages after OCR leave alone: the Textract jobs and the row of OCR
-- (normalise_document of backend/pipeline/coordinator.py and all that it runs).
use cbc_new.Prelude.{ℕ, Bool, true, false, Option, some, none, List, [], if◌then◌else◌, take, ◌++◌}
use cbc_new.Prelude.Text.{Text, codes, is_listed}
use cbc_new.Jobs.{
  ocr, extract, normalize, link, match_stage, JobStatus, skipped, failed, quarantined, processed,
  doc_failed, doc_quarantined, Job, Exception, encrypted_document, budget_exceeded,
  document_too_large, table_budget_exceeded, config_error, boto_core_error, other_error,
  client_error, DocState, Result, Action, continue, recover, give, throw, and_then,
}
use cbc_new.Jobs.Repository.{
  with_key, change_job, complete_job, set_document_status, get_or_create_job,
}
use cbc_new.Jobs.Extraction.{
  Stages, open_job, fail_with, run_price, run_match, run_link, run_tables, run_extraction,
}
use cbc_new.Jobs.Coordinator.{
  World, is_completed, mark_stage, mark, settle, extract_and_link, normalise_document,
  transient_bedrock_errors,
}
use cbc_new.Jobs.Ends.{Ends, Ends-recover, Ends-continue}

module _ (K : List ℕ → Option Job → Type 0) where
  abbrev pub Framed : DocState → Type 0
  Framed s = K s.submissions (s.jobs ocr)

  abbrev pub Frames : {A : Type 0} → DocState × Result A → Type 0
  Frames = Ends (λ a. Framed) Framed

  pub frame_then :
      {A B : Type 0} (o : DocState × Result A) (next : A → Action B)
      → Frames o
      → ((a : A) (s : DocState) → Framed s → Frames (next a s))
      → Frames (continue o next)
  frame_then o next h f =
      Ends-continue (λ a. Framed) (λ b. Framed) Framed Framed o next h f (λ s k. k)

  pub frame_handler :
      {A : Type 0} (o : DocState × Result A) (on : Exception → Action A)
      → Frames o
      → ((e : Exception) (s : DocState) → Framed s → Frames (on e s))
      → Frames (recover o on)
  frame_handler o on h f =
      Ends-recover (λ a. Framed) (λ a. Framed) Framed Framed o on h (λ a s k. k) f

  price-Frames : (w : Stages) (s : DocState) → Framed s → Frames (run_price w s)
  unfolding run_price
  price-Frames w s h = ended w.priced
    where
      ended : (e : Option Exception) → Frames (run_price (record w { priced = e }) s)
      ended none = h
      ended (some e) = h

  match-Frames : (w : Stages) (s : DocState) → Framed s → Frames (run_match w s)
  unfolding run_match
  match-Frames w s h = ended w.matched
    where
      ended : (e : Option Exception) → Frames (run_match (record w { matched = e }) s)
      ended none = price-Frames w (and_then (open_job match_stage) (complete_job match_stage) s).0 h
      ended (some e) = h

  tables-Frames : (w : Stages) (s : DocState) → Framed s → Frames (run_tables w s)
  unfolding run_tables
  tables-Frames w s h = ended w.batched w.no_tables w.extracted w.linked
    where
      ended :
          (b : Option Exception) (n : Bool) (x l : Option Exception)
          → Frames
              (run_tables (record w { batched = b; no_tables = n; extracted = x; linked = l }) s)
      ended (some e) n x l = h
      ended none true x l = h
      ended none false (some e) l = h
      ended none false none (some e) = h
      ended none false none none =
          match-Frames w
            (and_then (run_link (record w { linked = none })) (complete_job extract) s).0 h

  extraction-Frames : (w : Stages) (s : DocState) → Framed s → Frames (run_extraction w s)
  unfolding run_extraction
  extraction-Frames w s h = ended w.prepared
    where
      ended : (e : Option Exception) → Frames (run_extraction (record w { prepared = e }) s)
      ended (some e) = h
      ended none =
          frame_handler (run_tables w (open_job extract s).0) (fail_with extract)
            (tables-Frames w (open_job extract s).0 h) (λ e t k. k)

  mark-Frames : (j : JobStatus) (detail : Text) (s : DocState) → Framed s → Frames (mark j detail s)
  mark-Frames j detail s h =
      frame_then (mark_stage j detail extract s) (λ u. mark_stage j detail link)
        (first (is_completed (with_key none (s.jobs extract)).status))
        (λ u t k. second t k (is_completed (with_key none (t.jobs link)).status))
    where
      first :
          (b : Bool)
          → Frames (
              (if b
                  then give tt
                  else change_job extract
                      (λ old. record old { status = j; error_detail = take 4000 detail }))
                (get_or_create_job extract none s).0)
      first true = h
      first false = h

      second :
          (t : DocState)
          → Framed t
          → (b : Bool)
          → Frames (
              (if b
                  then give tt
                  else change_job link
                      (λ old. record old { status = j; error_detail = take 4000 detail }))
                (get_or_create_job link none t).0)
      second t k true = k
      second t k false = k

  settle-Frames : (e : Exception) (s : DocState) → Framed s → Frames (settle e s)
  unfolding settle
  settle-Frames (config_error t) s h =
      frame_then (mark skipped t s) (λ u. give false) (mark-Frames skipped t s h) (λ u x k. k)
  settle-Frames (table_budget_exceeded t) s h =
      frame_then (mark quarantined t s)
        (λ u. and_then (set_document_status doc_quarantined t) (give true))
        (mark-Frames quarantined t s h) (λ u x k. k)
  settle-Frames (client_error code t) s h = coded (is_listed code transient_bedrock_errors)
    where
      coded :
          (b : Bool)
          → Frames (
              (if b
                  then throw (client_error code t)
                  else (let detail = code ++ (codes ": " ++ t) in
                      and_then
                        (mark failed detail)
                        (and_then (set_document_status doc_failed detail) (give true))))
                s)
      coded true = h
      coded false =
          let detail = code ++ (codes ": " ++ t) in
          frame_then (mark failed detail s)
            (λ u. and_then (set_document_status doc_failed detail) (give true))
            (mark-Frames failed detail s h) (λ u x k. k)
  settle-Frames (encrypted_document t) s h = h
  settle-Frames (budget_exceeded t) s h = h
  settle-Frames (document_too_large t) s h = h
  settle-Frames (boto_core_error t) s h = h
  settle-Frames (other_error t) s h = h

  -- A normalisation keeps what is known of the Textract jobs and the row of OCR.
  pub normalise-Frames : (w : World) (s : DocState) → Framed s → Frames (normalise_document w s)
  unfolding normalise_document extract_and_link
  normalise-Frames w s h = ended w.normalised
    where
      last :
          (t : DocState) (b : Bool)
          → Framed t
          → Frames ((if b then give tt else set_document_status processed []) t)
      last t true k = k
      last t false k = k

      ended : (e : Option Exception) → Frames (normalise_document (record w { normalised = e }) s)
      ended (some e) = h
      ended none =
          let s' = (and_then (open_job normalize) (complete_job normalize) s).0 in
          frame_then (extract_and_link w.stages s')
            (λ settled. if settled then give tt else set_document_status processed [])
            (frame_handler (and_then (run_extraction w.stages) (give false) s') settle
              (frame_then (run_extraction w.stages s') (λ u. give false)
                (extraction-Frames w.stages s' h) (λ u x k. k))
              settle-Frames)
            (λ b t k. last t b k)
