-- ===== src/Parsers.antt =====
-- backend/pipeline/parsers: the deterministic parsers of the raw strings of an opening. A result's
-- prose is a reason code here; a text is a list of ASCII code points.
pub mod Size
pub mod Handing
pub mod FireRating
pub mod Finish
pub mod ThroatDepth
