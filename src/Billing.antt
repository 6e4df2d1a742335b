-- ===== src/Billing.antt =====
-- packages/billing: what a unit of work costs, the wallets and their journal, and the limits.
pub mod Pricing
pub mod Wallets
pub mod Limits
pub mod Journal
