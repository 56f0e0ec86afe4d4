-- ===== src/Store/Positions.antt =====
-- state/store.py: what holds of the positions after every method, and what a restart recovers.
pub mod Invariant
pub mod Reconcile
pub mod Fills
pub mod History
