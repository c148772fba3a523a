-- ===== src/Pages/Tests.antt =====
-- Runs of the routing and of the manifest, and their theorems at inputs.
use cbc_new.Prelude.{◌≡◌, refl, false, some, ◌∷◌, []}
use cbc_new.Prelude.Text.{codes}
use cbc_new.Prelude.Dict.{lookup}
use cbc_new.Prelude.Int.{pos, ◌+ℤ◌}
use cbc_new.Pages.{
  rich, vector_outlined, spec_text, textract_tables, textract_text, native_text, skip, Probe,
  PageRow,
}
use cbc_new.Pages.Routing.{
  RouteEntry, RoutingTable, ocr_route, cost_for, native_or, outlined_or, decided, decide_entry,
  decide, IsRouted, decide-IsRouted,
}
use cbc_new.Pages.Manifest.{
  Manifest, forced_for, manifest_row, manifest_rows, estimate, write_manifest, forced_survives,
  write_manifest-again,
}

runs : Unit {0}
unfolding lookup ◌+ℤ◌ ocr_route cost_for native_or outlined_or decided decide_entry decide
    forced_for manifest_row manifest_rows estimate write_manifest
runs = tt

abbrev entry : RouteEntry
entry = record {
  route = "TEXTRACT_TEXT";
  reason = codes "prose";
  native_text_route = some "NATIVE_TEXT";
}

abbrev table : RoutingTable
table = record { routes = λ page_class. some entry; costs = ("TEXTRACT_TEXT", pos 15) ∷ [] }

reads_natively :
    decide table spec_text rich
    ≡ some (record {
      route = native_text;
      reason = codes "rich text layer present; word positions already in the file (no OCR cost)";
      cost_estimate = pos 0;
    })
unfolding runs
reads_natively = refl

decide-IsRouted_example :
    IsRouted table spec_text vector_outlined entry
      (record { route = textract_text; reason = codes "prose"; cost_estimate = pos 15 })
unfolding runs
decide-IsRouted_example =
    decide-IsRouted table spec_text vector_outlined entry
      (record { route = textract_text; reason = codes "prose"; cost_estimate = pos 15 }) refl refl

abbrev probe : Probe
probe = record {
  page_number = 47;
  page_hash = codes "ab";
  ocr_route = skip;
  route_reason = codes "drawing";
  ocr_cost_estimate = pos 0;
}

abbrev forced_page : PageRow
forced_page = record {
  page_number = 47;
  page_hash = codes "aa";
  ocr_route = textract_tables;
  route_reason = codes "forced by estimator";
  forced_by_user = some 3;
  ocr_cost_estimate = pos 0;
}

forced_survives_example :
    forced_for 47 (manifest_rows (forced_page ∷ []) (probe ∷ []))
    ≡ some (textract_tables, codes "forced by estimator", 3)
unfolding runs
forced_survives_example = forced_survives (forced_page ∷ []) (probe ∷ []) 47

abbrev manifest : Manifest
manifest = record {
  rows = forced_page ∷ [];
  page_count = 1;
  manifest_complete = false;
  estimated_ocr_cost_usd = pos 0;
}

write_manifest-again_example :
    write_manifest (probe ∷ []) (write_manifest (probe ∷ []) manifest)
    ≡ write_manifest (probe ∷ []) manifest
write_manifest-again_example = write_manifest-again (probe ∷ []) manifest
