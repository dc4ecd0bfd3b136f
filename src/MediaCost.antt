-- ===== src/MediaCost.antt =====
-- The costs of paid operations (src/soloscale/media_cost.py): prices, estimates, the budget guard,
-- authorizations and receipts. An amount of money is a number of 10⁻¹⁸ USD, a rate of 10⁻⁹ USD for a
-- unit, a quantity of 10⁻⁹ units and a ratio of 10⁻⁹, where the source has decimals of 28 digits.
pub mod Models
pub mod Pricing
pub mod Estimates
pub mod Budget
pub mod Authorization
pub mod Receipts
mod Tests
