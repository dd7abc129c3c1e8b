-- ===== src/StratumApps.antt =====
-- stratum-apps: the parts that the applications share.
pub mod Fallback
pub mod Payout
