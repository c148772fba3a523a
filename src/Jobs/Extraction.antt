-- ===== src/Jobs/Extraction.antt =====
-- The job rows and the exceptions of backend/pipeline/stages/run_extraction.py: `run`, `_match` and
-- `_price`.
use cbc_new.Prelude.{Bool, false, Option, none, if◌then◌else◌}
use cbc_new.Jobs.{
  Stage, extract, link, match_stage, price, Exception, text_of, Action, bind, and_then, handle,
  throw, work,
}
use cbc_new.Jobs.Repository.{get_or_create_job, start_job, complete_job, fail_job}

-- What the work of the stages ends in: what comes before the job row (the settings among it), the
-- reading of the tables, whether there are none, the model, the linking, the matching and the
-- pricing, where a DraftError is no exception.
pub record Stages : Type 0 where
  pub prepared : Option Exception
  pub batched : Option Exception
  pub no_tables : Bool
  pub extracted : Option Exception
  pub linked : Option Exception
  pub matched : Option Exception
  pub priced : Option Exception

abbrev pub open_job : Stage → Action (Unit {0})
open_job stage = bind (get_or_create_job stage none) (λ job. start_job stage)

-- `repo.fail_job(job, str(exc))`, then `raise`.
abbrev pub fail_with : Stage → Exception → Action (Unit {0})
fail_with stage e = and_then (fail_job false stage (text_of e)) (throw e)

unfoldable pub run_price : Stages → Action (Unit {0})
run_price w =
    and_then (open_job price)
      (handle (and_then (work w.priced) (complete_job price)) (fail_with price))

unfoldable pub run_match : Stages → Action (Unit {0})
unfolding run_price
run_match w = and_then (open_job match_stage) (
    and_then (handle (and_then (work w.matched) (complete_job match_stage)) (fail_with match_stage))
      (run_price w))

abbrev pub run_link : Stages → Action (Unit {0})
run_link w = and_then (open_job link) (and_then (work w.linked) (complete_job link))

unfoldable pub run_tables : Stages → Action (Unit {0})
unfolding run_match
run_tables w = and_then (work w.batched) (
    if w.no_tables
    then complete_job extract
    else and_then (work w.extracted)
        (and_then (run_link w) (and_then (complete_job extract) (run_match w))))

unfoldable pub run_extraction : Stages → Action (Unit {0})
unfolding run_tables
run_extraction w =
    and_then (work w.prepared)
      (and_then (open_job extract) (handle (run_tables w) (fail_with extract)))
