-- ===== src/Pages/Routing.antt =====
-- RoutingTable.decide of backend/pipeline/routing.py. `none` as a decision is the ValueError of a
-- route that does not exist. Costs are in ten-thousandths of a dollar.
use cbc_new.Prelude.{
  ◌≡◌, ◌≢◌, refl, sym, ap, ◌∙◌, String, Bool, true, false, not, ◌&&◌, Option, none, some, or_else,
  if◌then◌else◌, Bool-cases, Option-cases, inl, inr,
}
use cbc_new.Prelude.Text.{Text, codes}
use cbc_new.Prelude.Dict.{Dict, lookup}
use cbc_new.Prelude.Int.{ℤ, pos}
use cbc_new.Pages.{
  TextLayer, rich, vector_outlined, PageClass, is_schedule, OcrRoute, textract_tables,
  textract_text, native_text, skip,
}
use mathlib.Core.Path.{subst}
use text.Mathlib.Text.{◌==◌ as str_eq}

pub record RouteEntry : Type 0 where
  pub route : String
  pub reason : Text
  pub native_text_route : Option String

pub record RoutingTable : Type 0 where
  pub routes : PageClass → Option RouteEntry
  pub costs : Dict ℤ

pub record RouteDecision : Type 0 where
  pub route : OcrRoute
  pub reason : Text
  pub cost_estimate : ℤ

abbrev pub route_name : OcrRoute → String
route_name textract_tables = "TEXTRACT_TABLES"
route_name textract_text = "TEXTRACT_TEXT"
route_name native_text = "NATIVE_TEXT"
route_name skip = "SKIP"

-- `OCRRoute(value)`
unfoldable pub ocr_route : String → Option OcrRoute
ocr_route s =
    if str_eq s "TEXTRACT_TABLES"
    then some textract_tables
    else if str_eq s "TEXTRACT_TEXT"
    then some textract_text
    else if str_eq s "NATIVE_TEXT"
    then some native_text
    else if str_eq s "SKIP"
    then some skip
    else none

unfoldable pub cost_for : RoutingTable → OcrRoute → ℤ
cost_for table route = or_else (lookup (route_name route) table.costs) (pos 0)

abbrev pub is_rich : TextLayer → Bool
is_rich rich = true
is_rich _ = false

-- `bool(native_alternative)`
abbrev pub is_named : Option String → Bool
is_named none = false
is_named (some s) = not (str_eq s "")

-- The route and its reason, after the native alternative.
unfoldable pub native_or : RouteEntry → PageClass → TextLayer → OcrRoute → Option (OcrRoute × Text)
native_or entry page_class text_layer route =
    if is_named entry.native_text_route && (is_rich text_layer && not (is_schedule page_class))
    then elim (ocr_route (or_else entry.native_text_route "")) [
      | none ↦ none
      | some native ↦ some (
        native,
        codes "rich text layer present; word positions already in the file (no OCR cost)",
      )
    ]
    else some (route, entry.reason)

-- The route of a page whose text is outlined.
unfoldable pub outlined_or : TextLayer → OcrRoute → Text → OcrRoute × Text
outlined_or vector_outlined native_text reason = (
  textract_text,
  codes "text is vector-outlined; the native layer is empty and would read as blank",
)
outlined_or text_layer route reason = (route, reason)

unfoldable pub decided : RoutingTable → TextLayer → OcrRoute × Text → RouteDecision
unfolding outlined_or cost_for
decided table text_layer (route, reason) =
    let (final, why) = outlined_or text_layer route reason in
    record { route = final; reason = why; cost_estimate = cost_for table final }

unfoldable pub decide_entry :
    RoutingTable → PageClass → TextLayer → RouteEntry → Option OcrRoute → Option RouteDecision
decide_entry table page_class text_layer entry none = none
decide_entry table page_class text_layer entry (some route) =
    elim (native_or entry page_class text_layer route) [
      | none ↦ none
      | some found ↦ some (decided table text_layer found)
    ]

abbrev pub decide_rule :
    RoutingTable → PageClass → TextLayer → Option RouteEntry → Option RouteDecision
decide_rule table page_class text_layer none =
    some
      (record { route = skip; reason = codes "no routing rule; not read"; cost_estimate = pos 0 })
decide_rule table page_class text_layer (some entry) =
    decide_entry table page_class text_layer entry (ocr_route entry.route)

-- The name of the class in the reason of a missing rule is left out.
unfoldable pub decide : RoutingTable → PageClass → TextLayer → Option RouteDecision
decide table page_class text_layer =
    decide_rule table page_class text_layer (table.routes page_class)

abbrev pub is_outlined : TextLayer → Bool
is_outlined vector_outlined = true
is_outlined _ = false

-- What a decision owes the page: a class without a rule is skipped at no cost; for a class with a
-- rule the cost is that of the route decided on, an outlined page is never read natively, and the
-- rule's own route is departed from only for an outlined page or for a rich page that is no schedule.
pub record IsRouted (table : RoutingTable) (page_class : PageClass) (text_layer : TextLayer)
    (entry : RouteEntry) (d : RouteDecision) : Type 0 where
  pub cost : d.cost_estimate ≡ cost_for table d.route
  pub legible : is_outlined text_layer ≡ true → d.route ≢ native_text
  pub ruled :
      is_outlined text_layer ≡ false
      → (is_rich text_layer && not (is_schedule page_class)) ≡ false
      → ocr_route entry.route ≡ some d.route

outlined_legible :
    (text_layer : TextLayer) (route : OcrRoute) (reason : Text)
    → is_outlined text_layer ≡ true
    → (outlined_or text_layer route reason).0 ≢ native_text
unfolding outlined_or
outlined_legible vector_outlined native_text reason h e = cc
outlined_legible vector_outlined textract_tables reason h e = cc
outlined_legible vector_outlined textract_text reason h e = cc
outlined_legible vector_outlined skip reason h e = cc
outlined_legible rich route reason h e = cc
outlined_legible TextLayer.sparse route reason h e = cc
outlined_legible TextLayer.no_text route reason h e = cc

outlined_other :
    (text_layer : TextLayer) (route : OcrRoute) (reason : Text)
    → is_outlined text_layer ≡ false
    → (outlined_or text_layer route reason).0 ≡ route
unfolding outlined_or
outlined_other rich route reason h = refl
outlined_other TextLayer.sparse route reason h = refl
outlined_other TextLayer.no_text route reason h = refl
outlined_other vector_outlined route reason h = absurd cc

native_ruled :
    (entry : RouteEntry) (page_class : PageClass) (text_layer : TextLayer) (route : OcrRoute)
    (found : OcrRoute × Text)
    → (is_rich text_layer && not (is_schedule page_class)) ≡ false
    → native_or entry page_class text_layer route ≡ some found
    → route ≡ found.0
unfolding native_or
native_ruled entry page_class text_layer route found no_native e =
    elim (Bool-cases (is_named entry.native_text_route)) [
      | inl named ↦ (let here = rw (named, no_native) at e in ap first here)
      | inr unnamed ↦ (let here = rw unnamed at e in ap first here)
    ]
  where
    first : Option (OcrRoute × Text) → OcrRoute
    first none = skip
    first (some pair) = pair.0

decided-IsRouted :
    (table : RoutingTable) (page_class : PageClass) (text_layer : TextLayer) (entry : RouteEntry)
    (route : OcrRoute) (found : OcrRoute × Text)
    → ocr_route entry.route ≡ some route
    → native_or entry page_class text_layer route ≡ some found
    → IsRouted table page_class text_layer entry (decided table text_layer found)
unfolding decided
decided-IsRouted table page_class text_layer entry route (native, reason) parsed e = record {
  cost = refl;
  legible = outlined_legible text_layer native reason;
  ruled = λ plain no_native.
      parsed
      ∙ ap some (
          native_ruled entry page_class text_layer route (native, reason) no_native e
          ∙ sym (outlined_other text_layer native reason plain));
}

decide_entry-IsRouted :
    (table : RoutingTable) (page_class : PageClass) (text_layer : TextLayer) (entry : RouteEntry)
    (o : Option OcrRoute) (d : RouteDecision)
    → ocr_route entry.route ≡ o
    → decide_entry table page_class text_layer entry o ≡ some d
    → IsRouted table page_class text_layer entry d
unfolding decide_entry
decide_entry-IsRouted table page_class text_layer entry none d parsed e = absurd cc
decide_entry-IsRouted table page_class text_layer entry (some route) d parsed e =
    elim (Option-cases (native_or entry page_class text_layer route)) [
      | inl missing ↦ absurd (let stuck = rw (missing, decide_entry) at e in cc)
      | inr (found, native) ↦
          let same : decided table text_layer found ≡ d =
            (let here = rw (native, decide_entry) at e in cc) in
          subst (λ x. IsRouted table page_class text_layer entry x) same
            (decided-IsRouted table page_class text_layer entry route found parsed native)
    ]

-- Where the table has a rule for the class of a page and the page is routed, the cost is that of the
-- route decided on, a page whose text is outlined is never read natively, and a page that is not
-- outlined, and is a schedule or not rich in text, gets the route of the rule.
pub decide-IsRouted :
    (table : RoutingTable) (page_class : PageClass) (text_layer : TextLayer) (entry : RouteEntry)
    (d : RouteDecision)
    → table.routes page_class ≡ some entry
    → decide table page_class text_layer ≡ some d
    → IsRouted table page_class text_layer entry d
unfolding decide
decide-IsRouted table page_class text_layer entry d rule e =
    decide_entry-IsRouted table page_class text_layer entry (ocr_route entry.route) d refl
      (rw rule at e)
