-- ===== src/JdServer.antt =====
-- The Job Declarator Server, pool-apps/jd-server/src/lib/job_declarator.
pub mod Tokens
pub mod TokenBytes
pub mod Messages
pub mod Declarator
pub mod Engine
