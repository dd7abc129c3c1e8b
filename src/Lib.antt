-- ===== src/Lib.antt =====
-- The Stratum V2 applications: the Job Declaration Server, which hands out tokens, has declared jobs
-- validated by Bitcoin Core and answers the pool about custom jobs; the pool's channel manager; the
-- SV1 side of the translator; and parts that the applications share or rest on.
--
-- Modules, with the code they are about:
--   JdServer.Tokens        pool-apps/jd-server/src/lib/job_declarator/token_management/mod.rs: the
--                          TokenManager as a record, one function per method, runs of calls
--   JdServer.TokenBytes    tokens as bytes on the wire
--   JdServer.Messages      the messages, errors (pool-apps/jd-server/src/lib/error.rs), and the trait
--                          JobValidationEngine (job_validation/mod.rs) as a record of functions
--   JdServer.Declarator    job_declarator/mod.rs and job_declaration_message_handler.rs: the state of
--                          JobDeclarator; a handler is a function from the state to a state and a
--                          result (Exec), in do-like chains that stop at an error or a panic
--   JdServer.Engine        job_validation/bitcoin_core_ipc.rs: coinbase, merkle path, the state of each
--                          client, and the engine's own handlers
--   BitcoinCore.Mempool    bitcoin-core-sv2/src/unix_capnp/v31x/job_declaration_protocol/mempool.rs
--   Translator.JobStore    miner-apps/translator/src/lib/sv1/job_store.rs
--   Translator.Downstream  miner-apps/translator/src/lib/sv1/downstream.rs: the state of an SV1 miner, its
--                          share cache, and the delivery of difficulty, extranonce and jobs
--   Translator.Vardiff     sv1/sv1_server/difficulty_manager.rs: rounds of variable difficulty, SetTarget,
--                          and the UpdateChannel messages
--   Translator.Submission  handle_submit of sv1/sv1_server/downstream_message_handler.rs, and
--                          validate_sv1_share of utils.rs
--   Translator.Keepalive   the keepalive jobs of sv1/sv1_server/mod.rs
--   Translator.Handshake   the other handlers of downstream_message_handler.rs
--   Translator.Handover    handle_submit_shares of sv1/sv1_server/mod.rs
--   Translator.Forwarding  sv1/sv1_server/mod.rs: SetTarget without vardiff, and disconnected miners
--   StratumApps.Fallback   stratum-apps/src/fallback_coordinator.rs, as moves in any order
--   StratumApps.Payout     stratum-apps/src/payout.rs: payout modes, their outputs, their check, and the
--                          identities that encode them
--   Pool.Library           channels_sv2 as a record of types and operations, which stay parameters
--   Pool.Messages          the pool's messages and errors (pool-apps/pool/src/lib/error.rs)
--   Pool.Manager           pool-apps/pool/src/lib/channel_manager/mod.rs and downstream/mod.rs: the state,
--                          the guard of a downstream, routing, error actions, arrivals and ends
--   Pool.Opening, Pool.Closing, Pool.Shares, Pool.CustomJobs
--                          channel_manager/mining_message_handler.rs, a function per handler
--   Pool.Templates, Pool.PrevHash
--                          channel_manager/template_distribution_message_handler.rs
--   Pool.Retarget          the vardiff of channel_manager/mod.rs
--   Pool.System            the message loop as steps over events, and its runs
--   Pool.Views, Pool.Refinement
--                          the channels as an abstract machine sees them, and the steps against it
--   Pool.Judged            what becomes of a share
--   Tests                  the theorems at concrete inputs
--   Prelude                Boolean tests, lists, and association lists for HashMap and SharedMap
--
-- How the parts interact: Declarator calls Tokens for every token, and the engine through
-- JobValidationEngine, which stays a parameter there; Engine models the one engine of the repository.
-- Where a handler awaits the engine, a function `during` stands for what other tasks do to the state.
-- In the translator, JobStore keeps the jobs of a channel and the contexts that Downstream validates
-- late shares with; Submission reads both, Handover passes accepted shares on, Keepalive adds jobs to
-- the first, and Vardiff and Forwarding set the targets that Downstream makes current with the next
-- job. Vardiff with Forwarding, Submission with Keepalive and Handshake, and Handover each have a record
-- with the part of Sv1Server that they use; a call of theirs runs alone.
--
-- The pool's handlers work on one downstream under the guard of its entry, as functions from the
-- manager and the entry to both and a result; what they send follows, and an error disconnects the
-- downstream or ends the run. CustomJobs calls the job declarator of JdServer, and connections may end
-- while it is awaited. Opening takes the payout mode from StratumApps.Payout.
--
-- Parameters: the engine, the clock, closed channels and serialisation (Env), bitcoin's decoding and
-- hashing (BitcoinCodec), a transaction's identifier and weight, CancellationToken and Notify, the
-- script of an address, the channels' library and the pool's configuration (Library), hashrates with
-- the targets and difficulties computed from them (Rates), and the hash of a block header (Hashing). A log line
-- has no counterpart. Token counters wrap at 2 ^ 64, positions at 2 ^ 16, lengths of the coinbase and
-- sums of satoshis at 2 ^ 64, job and sequence counters at 2 ^ 32, as do the pool's channel
-- identifiers; weights, client numbers and task counts are taken not to reach 2 ^ 64.
--
-- Fuel: the merkle loop has the number of its leaves, which is enough since a level of two leaves or
-- more shrinks. The job store's eviction has its fuel as an argument, and the theorem on activate
-- asks for two more than the ids in the order, which is what activate_job of Downstream gives. A
-- keepalive counter has at most ten digits.
--
-- Not modelled: network, noise and framing, configuration, monitoring, the IPC threads to Bitcoin
-- Core, the refusals of a pool's connection setup, the translator's and the job declarator client's
-- channel managers, the opening and closing of SV1 channels by the upstream, and the integration tests.
-- At the pool a lock is not poisoned, and the prefix of a channel is not released when its connection
-- ends, since the connection's own task may still hold it.
pub mod Prelude
pub mod JdServer
pub mod BitcoinCore
pub mod Translator
pub mod StratumApps
pub mod Pool
pub mod Tests
