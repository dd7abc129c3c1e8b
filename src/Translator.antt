-- ===== src/Translator.antt =====
-- miner-apps/translator: the proxy between SV1 miners and an SV2 upstream.
pub mod JobStore
pub mod Downstream
pub mod Vardiff
pub mod Forwarding
pub mod Submission
pub mod Keepalive
pub mod Handover
pub mod Handshake
