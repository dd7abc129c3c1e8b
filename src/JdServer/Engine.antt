-- ===== src/JdServer/Engine.antt =====
-- pool-apps/jd-server/src/lib/job_declarator/job_validation/bitcoin_core_ipc.rs: the engine that
-- validates declared jobs through Bitcoin Core. The modules below: the coinbase transaction and the
-- merkle branch of a declared job, the state kept per client, and the handlers.
pub mod Coinbase
pub mod Merkle
pub mod State
pub mod Handlers
pub mod CustomJob
pub mod Agreement
