-- ===== src/Optimizer.antt =====
-- optimizer: the journal of growth events (growth_ledger.py) and the closed growth profile
-- (growth_model.py).
pub mod Journal
pub mod Chained
pub mod Values
pub mod Listed
pub mod Lineage
pub mod Acyclic
pub mod Profile
pub mod Terms
pub mod Plans
pub mod Normalize
pub mod Ranked
pub mod Invalidation
pub mod Descendants
pub mod Withdrawal
