-- ===== src/Quotes/Draft.antt =====
-- backend/api/quotes/draft_ops.py: the lines of a draft, from the openings of its project and their
-- matches. The queries of the source give the lists of `Project`: openings by door number, the
-- components of the project by hardware group and index, matches in any order.
use cbc_new.Prelude.{
  ℕ, suc, ◌+◌, Bool, true, false, not, ◌&&◌, Option, none, some, String, List, [], ◌∷◌, ◌++◌, keep,
  is_some, is_empty, any, or_else, length, if◌then◌else◌, ltb, ◌==◌,
}
use cbc_new.Prelude.Text.{Text, codes, join, text_eq}
use cbc_new.Prelude.Int.{ℤ, pos, ◌*ℤ◌}
use cbc_new.Match.Rank.{MatchStatus}
use cbc_new.Pricing.Line.{PricedItem, LineGroup, door, freight, QuoteLine, is_freight, manual}
use cbc_new.Quotes.{QuoteRow, LineRow, Env, assemble_rows, is_draft}
pub mod Choice
pub mod Rows
pub mod Made
pub mod Lines

pub record DraftItem : Type 0 where
  pub sku : Text
  pub vendor : Text
  pub description : Text
  pub line_group : Option LineGroup
  pub priced_item : PricedItem

-- A match of an opening, or of a component at an opening.
pub record DraftMatch : Type 0 where
  pub id : ℕ
  pub opening : ℕ
  pub hardware_component : Option ℕ
  pub status : MatchStatus
  pub rank : ℕ
  pub catalog_item : Option DraftItem
  pub is_direct_equal : Bool
  pub substitution_note : Text

pub record DraftOpening : Type 0 where
  pub id : ℕ
  pub door_number : Text
  pub size_raw : Text
  pub handing : Text
  pub finish_raw : Text
  pub hardware_group : Text
  pub csi_division : Option String

pub record DraftComponent : Type 0 where
  pub id : ℕ
  pub hardware_group : Text
  pub resolved : Bool
  pub description : Text
  pub manufacturer : Text
  pub part_number : Text
  pub finish_raw : Text
  pub quantity : Option ℤ

pub record Project : Type 0 where
  pub openings : List DraftOpening
  pub components : List DraftComponent
  pub matches : List DraftMatch

abbrev pub is_accepted : DraftMatch → Bool
is_accepted m = elim (m.status) [ MatchStatus.accepted ↦ true | _ ↦ false ]

abbrev pub is_proposed : DraftMatch → Bool
is_proposed m = elim (m.status) [ MatchStatus.proposed ↦ true | _ ↦ false ]

-- `min(…, key=lambda m: m.rank)`, where the first of equals wins.
unfoldable pub min_rank : DraftMatch → List DraftMatch → DraftMatch
min_rank best [] = best
min_rank best (m ∷ ms) = min_rank (if ltb m.rank best.rank then m else best) ms

unfoldable pub lowest_rank : List DraftMatch → Option DraftMatch
lowest_rank [] = none
lowest_rank (m ∷ ms) = some (min_rank m ms)

unfoldable pub first_of : Option DraftMatch → Option DraftMatch → Option DraftMatch
first_of none other = other
first_of (some m) other = some m

unfoldable pub best_match : List DraftMatch → Option DraftMatch
unfolding first_of
best_match matches =
    first_of (lowest_rank (keep is_accepted matches)) (lowest_rank (keep is_proposed matches))

unfoldable pub group_for : Option DraftItem → LineGroup
group_for none = door
group_for (some item) = or_else item.line_group door

abbrev pub nonempty : List Text → List Text
nonempty = keep (λ part. not (is_empty part))

abbrev pub item_of : Option DraftMatch → Option DraftItem
item_of none = none
item_of (some m) = m.catalog_item

unfoldable pub describe_source : DraftOpening → Option DraftComponent → Text
describe_source opening (some component) = join (
    nonempty (
      component.description ∷ component.manufacturer ∷ component.part_number ∷ component.finish_raw
      ∷ []))
describe_source opening none = join (
    nonempty (
      (codes "Door " ++ opening.door_number)
      ∷ opening.size_raw
      ∷ opening.handing
      ∷ opening.finish_raw
      ∷ []))

-- The dash of the source is one code point.
unfoldable pub describe : DraftOpening → Option DraftComponent → Option DraftItem → Text
unfolding describe_source
describe opening component none = describe_source opening component
describe opening component (some item) =
    item.vendor ++ (32 ∷ item.sku ++ (codes " — " ++ item.description))

-- The defaults of the columns of a new line.
abbrev pub blank_line : QuoteLine
blank_line = record {
  catalog_item = none;
  opening_division = none;
  line_group = door;
  quantity = pos 100;
  our_cost = pos 0;
  margin_pct = pos 0;
  cost_source = some manual;
  cost_effective_date = none;
  cost_is_stale = false;
  list_price = none;
  multiplier = none;
  vendor_multiplier = none;
  multiplier_sheet_version = "";
  adders = [];
  total_adders = pos 0;
  margin_band = none;
  margin_overridden = false;
  below_floor_flag = false;
  needs_review = false;
  sale_each = pos 0;
  extended = pos 0;
  subtotal = pos 0;
}

abbrev pub component_quantity : Option DraftComponent → ℤ
component_quantity none = pos 100
component_quantity (some c) = or_else c.quantity (pos 100)

abbrev pub priced_item_of : Option DraftItem → Option PricedItem
priced_item_of none = none
priced_item_of (some item) = some item.priced_item

abbrev note_of : Option DraftMatch → Text
note_of none = []
note_of (some m) = m.substitution_note

abbrev direct_of : Option DraftMatch → Bool
direct_of none = false
direct_of (some m) = m.is_direct_equal

abbrev match_id_of : Option DraftMatch → Option ℕ
match_id_of none = none
match_id_of (some m) = some m.id

abbrev component_id_of : Option DraftComponent → Option ℕ
component_id_of none = none
component_id_of (some c) = some c.id

unfoldable pub create_line :
    Env → DraftOpening → Option DraftMatch → Option DraftComponent → ℕ → LineRow
create_line env opening m component line_order =
    let item = item_of m in
    record {
      id = env.new_id line_order;
      opening = some opening.id;
      match_id = match_id_of m;
      hardware_component = component_id_of component;
      description = describe opening component item;
      line_order = line_order;
      margin_override_reason = [];
      is_direct_equal = direct_of m;
      substitution_note = note_of m;
      priced = record blank_line {
        catalog_item = priced_item_of item;
        opening_division = opening.csi_division;
        line_group = group_for item;
        quantity = component_quantity component;
        needs_review = not (is_some item);
      };
    }

abbrev has_component : Option ℕ → Option ℕ → Bool
has_component none none = true
has_component (some a) (some b) = a == b
has_component _ _ = false

-- The matches of one opening for one component, or for the opening itself.
unfoldable pub matches_of : Project → DraftOpening → Option ℕ → List DraftMatch
matches_of project opening component =
    keep (λ m. (m.opening == opening.id) && has_component m.hardware_component component)
      project.matches

-- The components of the opening's hardware group that are resolved.
unfoldable pub components_of : Project → DraftOpening → List DraftComponent
components_of project opening =
    if is_empty opening.hardware_group
    then []
    else keep (λ c. c.resolved && text_eq c.hardware_group opening.hardware_group)
        project.components

-- The loop over the components of one opening, below the line of the opening.
unfoldable pub component_lines :
    Env → Project → DraftOpening → ℕ → List DraftComponent → List LineRow
component_lines env project opening order [] = []
component_lines env project opening order (c ∷ cs) =
    let found = best_match (matches_of project opening (some c.id)) in
    create_line env opening found (some c) (suc order)
    ∷ component_lines env project opening (suc order) cs

unfoldable pub opening_line : Env → Project → DraftOpening → ℕ → LineRow
opening_line env project opening order =
    create_line env opening (best_match (matches_of project opening none)) none (suc order)

-- The loop over the openings; `order` is the order of the last line so far.
unfoldable pub opening_lines : Env → Project → ℕ → List DraftOpening → List LineRow
opening_lines env project order [] = []
opening_lines env project order (o ∷ os) =
    let cs = components_of project o in
    (opening_line env project o order ∷ component_lines env project o (suc order) cs)
    ++ opening_lines env project (suc order + length cs) os

abbrev pub is_freight_row : LineRow → Bool
is_freight_row row = is_freight row.priced.line_group

-- `quote.freight_amount or 0`, in ten-thousandths.
abbrev pub freight_cost : Option ℤ → ℤ
freight_cost none = pos 0
freight_cost (some amount) = amount *ℤ pos 100

unfoldable pub freight_line : Env → QuoteRow → ℕ → LineRow
freight_line env quote line_order = record {
  id = env.new_id line_order;
  opening = none;
  match_id = none;
  hardware_component = none;
  description = codes "Freight";
  line_order = line_order;
  margin_override_reason = [];
  is_direct_equal = false;
  substitution_note = [];
  priced = record blank_line {
    line_group = freight;
    our_cost = freight_cost quote.totals.freight_amount;
  };
}

unfoldable pub ensure_freight_line : Env → QuoteRow → ℕ → List LineRow → List LineRow
ensure_freight_line env quote line_order rows =
    if any is_freight_row rows then rows else rows ++ (freight_line env quote line_order ∷ [])

abbrev pub is_generated : LineRow → Bool
is_generated row = is_some row.opening

-- The lines before they are priced: those of before without an opening, the generated ones, and freight.
unfoldable pub draft_lines : Env → Project → QuoteRow → List LineRow → List LineRow
draft_lines env project quote rows =
    let made = opening_lines env project 0 project.openings in
    ensure_freight_line env quote (suc (length made))
      (keep (λ row. not (is_generated row)) rows ++ made)

pub data Drafted : Type 0 where
  not_draft has_lines unpriceable : Drafted
  drafted : QuoteRow → List LineRow → Drafted

abbrev pub drafted_as : Option (QuoteRow × List LineRow) → Drafted
drafted_as none = unpriceable
drafted_as (some (quote, rows)) = drafted quote rows

-- `not_draft` and `has_lines` are the two DraftErrors, `unpriceable` is a PricingError, after which
-- nothing is kept.
unfoldable pub generate_lines : Env → Project → Bool → QuoteRow → List LineRow → Drafted
generate_lines env project replace quote rows =
    if not (is_draft quote.status)
    then not_draft
    else if any is_generated rows && not replace
    then has_lines
    else drafted_as (assemble_rows env quote (draft_lines env project quote rows))
