-- ===== src/Jobs/Extracted.antt =====
-- EXTRACT is completed when the extraction returns, and the document stands as it stood (run of
-- backend/pipeline/stages/run_extraction.py).
use cbc_new.Prelude.{◌≡◌, refl, Bool, true, false, Option, some, none, is_some}
use cbc_new.Jobs.{
  Stage, extract, normalize, JobStatus, completed, DocumentStatus, Job, Exception, DocState, Result,
  and_then,
}
use cbc_new.Jobs.Repository.{change, complete_job}
use cbc_new.Jobs.Extraction.{
  Stages, open_job, fail_with, run_price, run_match, run_link, run_tables, run_extraction,
}
use cbc_new.Jobs.Ends.{Ends, Ends-weaken, Ends-recover}

abbrev pub status_of : Option Job → Option JobStatus
status_of none = none
status_of (some job) = some job.status

-- The job of a stage is completed.
abbrev pub IsCompleted : Stage → DocState → Type 0
IsCompleted stage s = status_of (s.jobs stage) ≡ some completed

-- NORMALIZE is completed, the document stands as it stood, and EXTRACT has a row.
abbrev IsBusy : DocumentStatus → DocState → Type 0
IsBusy status s = IsCompleted normalize s × (s.status ≡ status) × (is_some (s.jobs extract) ≡ true)

some_change : (f : Job → Job) (o : Option Job) → is_some o ≡ true → is_some (change f o) ≡ true
some_change f none h = h
some_change f (some job) h = refl

completed_change :
    (o : Option Job)
    → is_some o ≡ true
    → status_of (change (λ job. record job { status = completed }) o) ≡ some completed
completed_change none h = absurd cc
completed_change (some job) h = refl

-- What the later stages do not touch: the status of the document and the rows of NORMALIZE and
-- EXTRACT.
module _ (K : DocumentStatus → Option Job → Option Job → Type 0) where
  abbrev Kept : DocState → Type 0
  Kept s = K s.status (s.jobs normalize) (s.jobs extract)

  abbrev Keeps : DocState × Result (Unit {0}) → Type 0
  Keeps = Ends (λ u. Kept) Kept

  price-Keeps : (w : Stages) (s : DocState) → Kept s → Keeps (run_price w s)
  unfolding run_price
  price-Keeps w s h = ended w.priced
    where
      ended : (e : Option Exception) → Keeps (run_price (record w { priced = e }) s)
      ended none = h
      ended (some e) = h

  match-Keeps : (w : Stages) (s : DocState) → Kept s → Keeps (run_match w s)
  unfolding run_match
  match-Keeps w s h = ended w.matched
    where
      ended : (e : Option Exception) → Keeps (run_match (record w { matched = e }) s)
      ended none =
          price-Keeps w (and_then (open_job Stage.match_stage) (complete_job Stage.match_stage) s).0
            h
      ended (some e) = h

module _ (status : DocumentStatus) where
  abbrev pub IsRead : DocState → Type 0
  IsRead s = IsBusy status s × IsCompleted extract s

  match-IsRead :
      (w : Stages) (s : DocState) → IsRead s → Ends (λ u. IsRead) (IsBusy status) (run_match w s)
  match-IsRead w s h =
      Ends-weaken (λ u. IsRead) (λ u. IsRead) IsRead (IsBusy status) (run_match w s) (λ u t k. k)
        (λ t k. k.0)
        (match-Keeps
          (λ d n x.
            ((status_of n ≡ some completed) × (d ≡ status) × (is_some x ≡ true))
            × (status_of x ≡ some completed))
          w s h)

  tables-IsRead :
      (w : Stages) (s : DocState)
      → IsBusy status s
      → Ends (λ u. IsRead) (IsBusy status) (run_tables w s)
  unfolding run_tables
  tables-IsRead w s h = ended w.batched w.no_tables w.extracted w.linked
    where
      done : IsRead (complete_job extract s).0
      done = ((h.0, h.1, some_change _ (s.jobs extract) h.2), completed_change (s.jobs extract) h.2)

      ended :
          (b : Option Exception) (n : Bool) (x l : Option Exception)
          → Ends
              (λ u. IsRead)
              (IsBusy status)
              (run_tables (record w { batched = b; no_tables = n; extracted = x; linked = l }) s)
      ended (some e) n x l = h
      ended none true x l = done
      ended none false (some e) l = h
      ended none false none (some e) = h
      ended none false none none =
          match-IsRead w
            (and_then (run_link (record w { linked = none })) (complete_job extract) s).0
            ((h.0, h.1, some_change _ (s.jobs extract) h.2), completed_change (s.jobs extract) h.2)

  abbrev pub IsCalm : DocState → Type 0
  IsCalm s = IsCompleted normalize s × (s.status ≡ status)

  pub extraction-IsRead :
      (w : Stages) (s : DocState) → IsCalm s → Ends (λ u. IsRead) IsCalm (run_extraction w s)
  unfolding run_extraction
  extraction-IsRead w s h = ended w.prepared
    where
      ended :
          (e : Option Exception)
          → Ends (λ u. IsRead) IsCalm (run_extraction (record w { prepared = e }) s)
      ended (some e) = h
      ended none =
          let s' = (open_job extract s).0 in
          Ends-recover (λ u. IsRead) (λ u. IsRead) (IsBusy status) IsCalm (run_tables w s')
            (fail_with extract) (tables-IsRead w s' (h.0, h.1, refl)) (λ u t k. k)
            (λ e t k. (k.0, k.1))
