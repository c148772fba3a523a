-- ===== src/Lib.antt =====
-- CBC Copilot: the part of the estimating copilot that decides what is believed, proposed and
-- charged. A PDF of door schedules is read by OCR and a language model; what the model returns passes a
-- gate, becomes the fields of an opening, is matched against a catalogue, and is priced into a quote.
--
-- The parts, in the order of the data, and the files that model them:
--   * Gate (backend/pipeline/llm/validators/gate.py): `validate_field` decides on one field, from its
--     value, its citations and the texts that the model was shown; `Gate/Confidence` has `compose` and
--     `completeness_penalty`. The theorems on verdicts are in `Gate/Verdicts`, those on the text
--     search in `Gate/Grounding`.
--   * Parsers (backend/pipeline/parsers/size.py, handing.py, fire_rating.py, finish.py,
--     throat_depth.py): a raw text becomes inches, a hand, minutes, or a row of a reference table, or
--     is flagged. The regular expressions are data, and run by the backtracking matcher of
--     `Prelude/Regex`.
--   * Link (backend/pipeline/stages/link.py): `link_fields` runs the gate over a record and counts what
--     happens (`LinkStats` is passed along, as the source changes it); `Link/Opening` writes the
--     opening with the parsed values, and `Link/Hardware` the rows of a hardware set. The theorems are in
--     `Link/Fields` for one field, `Link/Record` for a record, `Link/Opening/Review` for an opening
--     and `Link/Hardware` for a hardware set.
--   * Match (backend/pipeline/stages/match.py): hard constraints in `Match`, scores in `Match/Score`,
--     the catalogue in `Match/Snapshot`, ranking and disposition in `Match/Rank`, the criteria made
--     from a linked opening in `Match/Criteria`. `Match/Safety`, `Match/Order` and
--     `Match/Disposition` have the proofs.
--   * Pricing (backend/api/quotes/pricing_ops.py, backend/api/pricing/models.py): rounding in
--     `Pricing/Rounding`, the tables with effective dates in `Pricing/Reference`, one line in
--     `Pricing/Line`, a quote in `Pricing/Assembly`; `Pricing/Margin`, `Pricing/Resourcing`,
--     `Pricing/Repricing`, `Pricing/Totals`, `Pricing/Assembled`, `Pricing/Carry` and
--     `Pricing/Reassembly` have the proofs.
--   * Quotes (backend/api/quotes): the rows in `Quotes`, the lines of a draft in `Quotes/Draft`
--     (draft_ops.py), the operations on a quote in `Quotes/Views` and those on its lines in
--     `Quotes/Edits` (views.py, serializers.py, export_ops.py), the requests to vendors in
--     `Quotes/Requests`, all of these as steps in `Quotes/Lifecycle`. What is stored is a record
--     `Db` of one quote; each operation gives the next one and the answer. `Quotes/Repriced`,
--     `Quotes/Draft/*` and `Quotes/Lifecycle/*` have the proofs.
--   * Pages (backend/pipeline/routing.py, db/repository.py): the route of a page and the manifest.
--   * Jobs (backend/pipeline/coordinator.py, db/repository.py, stages/run_extraction.py, stages/ocr.py):
--     the job rows of a document and the handlers of its messages. A handler returns or raises, and
--     what it wrote before it raised stays written; what the work of a stage ends in is an argument
--     (`World`, `Stages`), for each delivery anew. `Jobs/Ends`, `Jobs/Extracted`, `Jobs/Framed`,
--     `Jobs/Settled` and `Jobs/Billing` have the proofs.
--   * Prelude: lists, texts as lists of code points, dictionaries as association lists, integers.
--
-- Each operation is a function of the source's name. An exception is `none`, a database row is a record
-- with the columns that the code reads or writes, and a sentence for the user is a code.
--
-- What comes from outside is a parameter. Floating-point numbers are an interface (`Float`), and
-- the order of IEEE numbers without NaN a hypothesis (`IsOrdered`), which `basis_points` fulfils;
-- rapidfuzz, `str.casefold` and the Unicode word class are the interface `Fuzz`, with `ascii` as an
-- instance. Money is exact: an integer at the scale of its column, rounded where the source rounds. The
-- 28 digits of the decimal context, to which a division is rounded before `unit` and past which `money`
-- and `unit` raise, and the widths of the columns, past which a save fails, are left out.
-- No function runs on fuel: the loops are structural recursion, and the matcher of regular expressions
-- repeats only patterns of one character.
--
-- Not modelled: the dispatch and the consumer of the messages, the page differences of an addendum, the
-- OCR and model clients, the counts of a matched project, the drawing of the pdf, and the REST layer
-- apart from the quotes, most of which is input and output; the front end.
-- A process that dies between two writes, and two workers on one document at a time, are left out.
pub mod Prelude
pub mod Gate
pub mod Parsers
pub mod Link
pub mod Match
pub mod Pricing
pub mod Quotes
pub mod Pages
pub mod Jobs
