-- ===== src/Pages.antt =====
-- The pages of a document: their classes, routes and manifest rows (backend/shared/enums.py and
-- backend/pipeline/routing.py and db/repository.py). `Routing` decides what to spend on a page,
-- `Manifest` keeps one row for each page.
use cbc_new.Prelude.{ℕ, Bool, true, false, Option, some, none, List}
use cbc_new.Prelude.Text.{Text}
use cbc_new.Prelude.Int.{ℤ}
pub mod Routing
pub mod Manifest
mod Tests

pub data TextLayer : Type 0 where
  rich sparse no_text vector_outlined : TextLayer

pub data PageClass : Type 0 where
  door_schedule hardware_schedule frame_schedule finish_schedule spec_text drawing title index
        unknown :
      PageClass

abbrev pub is_schedule : PageClass → Bool
is_schedule door_schedule = true
is_schedule hardware_schedule = true
is_schedule frame_schedule = true
is_schedule finish_schedule = true
is_schedule _ = false

pub data OcrRoute : Type 0 where
  textract_tables textract_text native_text skip : OcrRoute

-- A page as triage leaves it. The cost is in ten-thousandths of a dollar.
pub record Probe : Type 0 where
  pub page_number : ℕ
  pub page_hash : Text
  pub ocr_route : OcrRoute
  pub route_reason : Text
  pub ocr_cost_estimate : ℤ

-- A row of the manifest.
pub record PageRow : Type 0 where
  pub page_number : ℕ
  pub page_hash : Text
  pub ocr_route : OcrRoute
  pub route_reason : Text
  pub forced_by_user : Option ℕ
  pub ocr_cost_estimate : ℤ
