-- ===== src/Ledger.antt =====
-- src/execution/ledger.py: `class PortfolioLedger`, one account's book and its operations.
pub mod State
pub mod Orders
pub mod Fills
pub mod Actions
pub mod Snapshot
pub mod Reconcile
