-- ===== src/Quotes/Tests.antt =====
-- Runs of the quote operations, and their theorems at inputs.
use cbc_new.Prelude.{◌≡◌, refl, true, false, none, some, List, ◌∷◌, [], map, Option}
use cbc_new.Prelude.Text.{codes, strip, drop_space, to_upper, is_listed, join, is_blank}
use cbc_new.Prelude.Dict.{lookup, insert}
use cbc_new.Prelude.Int.{pos, ◌+ℤ◌, ◌*ℤ◌}
use cbc_new.Match.Rank.{proposed, manual}
use cbc_new.Pricing.Rounding.{round_half_up, half_up, add_decimal, money, shed}
use cbc_new.Pricing.Reference.{
  ReferenceCache, latest, effective_on, margin_effective_on, multiplier_effective_on,
  tax_effective_on,
}
use cbc_new.Pricing.Line.{
  PricedItem, is_freight, lookup_p21_last_po, from_list, source_price, source_item, source_cost,
  resolve_cost, is_stale, mark_staleness, total_from, sum_adders, band_for, apply_band,
  resolve_margin, floor_band, is_below_floor, check_floor, extend, price_freight, put_cost,
  cost_line, price_line,
}
use cbc_new.Pricing.Assembly.{
  named_or, subtotal_key, price_lines, subtotal_of, tally, put_subtotal, sum_values, tax_on,
  total_quote, assemble_quote,
}
use cbc_new.Quotes.{
  draft, approved, exported, QuoteRow, LineRow, Env, put_priced, put_assembled, assemble_rows,
  requested, Db, ok,
}
use cbc_new.Quotes.Draft.{
  DraftItem, DraftMatch, DraftOpening, DraftComponent, Project, min_rank, lowest_rank, first_of,
  best_match, group_for, describe_source, describe, blank_line, create_line as create_draft_line,
  matches_of, components_of, component_lines, opening_line, opening_lines, freight_line,
  ensure_freight_line, draft_lines, Drafted, drafted, generate_lines,
}
use cbc_new.Quotes.Draft.Choice.{IsBest, best_match-IsBest}
use cbc_new.Quotes.Draft.Made.{wanted}
use cbc_new.Quotes.Draft.Lines.{IsDraftOf, generate_lines-IsDraftOf}
use cbc_new.Quotes.Views.{
  destroy_quote, priced_so_far, recalculate, sign, approve, enqueue_quote_export, export,
  handle_quote_export, generate, update_quote, create_quote, QuoteEdit,
}
use cbc_new.Quotes.Edits.{
  is_valid, find_line, put_line, create_line, changes, update_line, receive_line, drop_line,
  destroy_line, find_rfq, put_rfq, take_price, apply_rfq_price, receive_price, record_price,
}
use cbc_new.Quotes.Lifecycle.{
  Op, deletes, recalculates, exports, approves, draws, creates, removes, Request, respond, step,
  run, standing, phase, Moves,
}
use cbc_new.Quotes.Lifecycle.Workflow.{step-Moves}
use cbc_new.Quotes.Lifecycle.Signed.{IsSignedDb, run-IsSigned}
use cbc_new.Quotes.Lifecycle.Frozen.{KeepsFigures, run-KeepsFigures}
use cbc_new.Quotes.Lifecycle.Clean.{IsClean, run-IsClean}
use cbc_new.Quotes.Lifecycle.Audit.{refused_unchanged}
use cbc_new.Quotes.Lifecycle.Reopened.{restatus, restatus_outcome, record_price-restatus}

runs : Unit {0}
unfolding half_up round_half_up add_decimal money shed latest effective_on margin_effective_on
    multiplier_effective_on tax_effective_on is_freight lookup_p21_last_po from_list source_price
    source_item source_cost resolve_cost is_stale mark_staleness total_from sum_adders band_for
    apply_band resolve_margin floor_band is_below_floor check_floor extend price_freight put_cost
    cost_line price_line named_or subtotal_key price_lines subtotal_of tally put_subtotal sum_values
    tax_on total_quote assemble_quote lookup insert ◌+ℤ◌ ◌*ℤ◌ strip drop_space to_upper join
    is_listed is_blank put_priced put_assembled assemble_rows min_rank lowest_rank first_of
    best_match group_for describe_source describe create_draft_line matches_of components_of
    component_lines opening_line opening_lines freight_line ensure_freight_line draft_lines
    generate_lines wanted destroy_quote priced_so_far recalculate sign approve enqueue_quote_export
    export handle_quote_export generate update_quote create_quote is_valid find_line put_line
    create_line changes update_line receive_line drop_line destroy_line find_rfq put_rfq take_price
    apply_rfq_price receive_price record_price respond step run
runs = tt

abbrev cache : ReferenceCache
cache = record { as_of = 500; margin_bands = []; multipliers = []; tax_rates = [] }

abbrev env : Env
env = record {
  months = 12;
  cache = cache;
  now = 77;
  user = some 5;
  initiator = some (codes "kellan@cbc.example");
  new_id = λ n. n;
}

abbrev part : PricedItem
part = record {
  vendor = "Hager";
  list_price = some (pos 10_000);
  product_type_band = "";
  csi_division = some "08";
}

abbrev item : DraftItem
item = record {
  sku = codes "BB1279";
  vendor = codes "Hager";
  description = codes "Hinge";
  line_group = none;
  priced_item = part;
}

abbrev hinge_match : DraftMatch
hinge_match = record {
  id = 21;
  opening = 1;
  hardware_component = some 9;
  status = proposed;
  rank = 2;
  catalog_item = some item;
  is_direct_equal = false;
  substitution_note = [];
}

abbrev door_match : DraftMatch
door_match = record hinge_match { id = 22; hardware_component = none; status = manual; rank = 1 }

abbrev first_door : DraftOpening
first_door = record {
  id = 1;
  door_number = codes "101A";
  size_raw = codes "3070";
  handing = codes "LH";
  finish_raw = [];
  hardware_group = codes "HW-3";
  csi_division = some "08";
}

abbrev hinge : DraftComponent
hinge = record {
  id = 9;
  hardware_group = codes "HW-3";
  resolved = true;
  description = codes "Hinges";
  manufacturer = [];
  part_number = [];
  finish_raw = [];
  quantity = some (pos 300);
}

abbrev project : Project
project = record {
  openings = first_door ∷ [];
  components = hinge ∷ record hinge { id = 10; resolved = false } ∷ [];
  matches = door_match ∷ record hinge_match { id = 20; rank = 3 } ∷ hinge_match ∷ [];
}

abbrev edit : QuoteEdit
edit = record { project = 4; freight_amount = none; tax_jurisdiction = none; notes = [] }

abbrev new_quote : Db
new_quote = create_quote edit

best_match-IsBest_example : IsBest project.matches hinge_match
unfolding runs
best_match-IsBest_example = best_match-IsBest project.matches hinge_match refl

abbrev quote_of : Option QuoteRow → Drafted → QuoteRow
quote_of other (drafted quote rows) = quote
quote_of (some quote) _ = quote
quote_of none _ = record {
  status = draft;
  project = 4;
  totals = record {
    freight_amount = none;
    tax_jurisdiction = none;
    subtotal_sale = pos 0;
    tax_rate_applied = none;
    tax_amount = pos 0;
    grand_total = pos 0;
  };
  notes = [];
  approved_by = none;
  approved_at = none;
  exported_at = none;
  export_key = none;
  exported_to_email = none;
}

abbrev rows_of : Drafted → List LineRow
rows_of (drafted quote rows) = rows
rows_of _ = []

abbrev quote : QuoteRow
quote = quote_of none Drafted.not_draft

generated : List LineRow
unfolding runs
generated = rows_of (generate_lines env project false quote [])

orders : map (λ row. row.line_order) generated ≡ (1 ∷ 2 ∷ 3 ∷ [])
unfolding generated runs
orders = refl

generate_lines-IsDraftOf_example :
    let out = generate_lines env project false quote [] in
    IsDraftOf project [] (rows_of out)
    × (quote_of none out ≡ record quote { totals = (quote_of none out).totals })
unfolding runs
generate_lines-IsDraftOf_example =
    let out = generate_lines env project false quote [] in
    generate_lines-IsDraftOf env project false quote (quote_of none out) [] (rows_of out) refl

abbrev line : LineRow
line = record {
  id = 7;
  opening = none;
  match_id = none;
  hardware_component = none;
  description = codes "Door";
  line_order = 1;
  margin_override_reason = [];
  is_direct_equal = false;
  substitution_note = [];
  priced = record blank_line { our_cost = pos 1_000_000; margin_pct = pos 2500 };
}

abbrev ask : Op → Request
ask op = record { env = env; project = project; op = op }

abbrev to_export : List Request
to_export =
    ask (creates line)
    ∷ ask (exports true)
    ∷ ask (approves true (codes "ok"))
    ∷ ask (exports true)
    ∷ ask (draws true)
    ∷ []

reaches_export : phase (run to_export new_quote) ≡ standing exported
unfolding runs
reaches_export = refl

abbrev ready : Db
ready = run (ask (creates line) ∷ []) new_quote

abbrev signed_quote : Db
signed_quote = step (ask (approves true [])) ready

step-Moves_example : Moves ready.lines (approves true []) (standing draft) (standing approved)
unfolding runs
step-Moves_example = step-Moves (ask (approves true [])) ready

run-IsSigned_example : IsSignedDb (run to_export new_quote)
run-IsSigned_example = run-IsSigned edit to_export

run-KeepsFigures_example :
    KeepsFigures signed_quote
      (run (ask (removes 7) ∷ ask recalculates ∷ ask (exports true) ∷ []) signed_quote)
unfolding runs
run-KeepsFigures_example =
    run-KeepsFigures (ask (removes 7) ∷ ask recalculates ∷ ask (exports true) ∷ []) signed_quote
      refl (refl, (refl, (refl, tt)))

run-IsClean_example : IsClean (run to_export new_quote)
run-IsClean_example = run-IsClean edit to_export (refl, (refl, (refl, (refl, (refl, tt)))))

refused_unchanged_example : step (ask deletes) signed_quote ≡ signed_quote
unfolding runs
refused_unchanged_example = refused_unchanged (ask deletes) signed_quote refl

abbrev asked : Db
asked = record signed_quote {
  rfqs =
      record {
        id = 30;
        quote_line = 7;
        status = requested;
        returned_price = none;
        returned_at = none;
      }
      ∷ [];
}

record_price-restatus_example :
    record_price env 30
      (some (record { coefficient = pos 200; places = 0 }))
      (restatus exported asked)
    ≡ restatus_outcome exported
        (record_price env 30 (some (record { coefficient = pos 200; places = 0 })) asked)
record_price-restatus_example =
    record_price-restatus exported env 30 (some (record { coefficient = pos 200; places = 0 }))
      asked

reopened : (record_price env 30 (some (record { coefficient = pos 200; places = 0 })) asked).1 ≡ ok
unfolding runs
reopened = refl
