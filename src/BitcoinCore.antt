-- ===== src/BitcoinCore.antt =====
-- Part of bitcoin-core-sv2: the side of the bridge to Bitcoin Core that keeps state.
pub mod Mempool
