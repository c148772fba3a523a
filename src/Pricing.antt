-- ===== src/Pricing.antt =====
-- backend/api/quotes/pricing_ops.py: the pricing engine, over the columns of
-- backend/api/quotes/models.py. Amounts are integers at the scale of their column: costs, prices of
-- one unit, margins, multipliers and rates in ten-thousandths, money and quantities in hundredths.
-- The columns are so narrow that Python's 28 significant digits hold every intermediate value that
-- decides a rounding. `Reference` has the effective-dated tables, `Line` the pricing of a line and
-- `Assembly` that of a quote.
pub mod Rounding
pub mod Reference
pub mod Line
pub mod Margin
pub mod Resourcing
pub mod Repricing
pub mod Assembly
pub mod Totals
pub mod Assembled
pub mod Carry
pub mod Reassembly
pub mod Flags
mod Tests
