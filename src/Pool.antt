-- ===== src/Pool.antt =====
-- The pool, pool-apps/pool/src/lib: its channel manager and what it keeps of each downstream.
pub mod Library
pub mod Messages
pub mod Manager
pub mod Opening
pub mod Closing
pub mod Shares
pub mod CustomJobs
pub mod Templates
pub mod PrevHash
pub mod Retarget
pub mod System
pub mod Views
pub mod Refinement
pub mod Judged
