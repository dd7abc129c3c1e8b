-- ===== src/JdServer/Engine/Handlers.antt =====
-- The handlers of `BitcoinCoreIPCEngine`. Bitcoin Core's answer is an argument, `none` where the
-- channel to it is closed, and so is what other tasks do to the states while it is awaited.
use sv2_apps_fork.Prelude.{
  ℕ, Bool, true, false, not, ◌&&◌, Option, none, some, List, length, is_some, if◌then◌else◌, ◌==◌,
  nat_eq,
}
use sv2_apps_fork.Prelude.Assoc.{Assoc, lookup, insert}
use sv2_apps_fork.JdServer.TokenBytes.{parse_token}
use sv2_apps_fork.JdServer.Messages.{
  DeclareMiningJob, ProvideMissingTransactionsSuccess, ErrorCode, invalid_mining_job_token,
  internal_error, stale_chain_tip, invalid_coinbase_tx, invalid_coinbase_tx_input,
  DeclareMiningJobResult, success, error, missing_transactions,
}
use sv2_apps_fork.JdServer.Engine.Coinbase.{
  Transaction, BitcoinCodec, Outcome, done, failed, panicked, get_coinbase_tx,
}
use sv2_apps_fork.JdServer.Engine.State.{
  ValidationContext, DeclaredCustomJob, DownstreamState, default, insert_declared_custom_job,
  remove_declared_custom_job, validation_context_for_request,
}

abbrev pub States : Type 0
States = Assoc ℕ DownstreamState

-- `JdResponse` to a `DeclareMiningJob` request.
pub data JdResponse : Type 0 where
  validated_job : (prev_hash nbits : ℕ) (txid_list : List ℕ) → JdResponse
  refused_job : (error_code : ErrorCode) (context : ValidationContext) → JdResponse
  lacking : (missing_wtxids : List ℕ) (context : ValidationContext) → JdResponse

unfoldable pub validation_context_drifted : ValidationContext → ValidationContext → Bool
validation_context_drifted previous current = not (previous.prev_hash == current.prev_hash)

abbrev pub tip_drifted : Option ValidationContext → ValidationContext → Bool
tip_drifted none current = false
tip_drifted (some previous) current = validation_context_drifted previous current

-- `with_mut`: the states, and whether the client was there.
abbrev pub update_at :
    ℕ → (DownstreamState → DownstreamState) → Option DownstreamState → States → States × Bool
update_at client f none states = (states, false)
update_at client f (some s) states = (insert client (f s) states, true)

abbrev pub with_mut : ℕ → (DownstreamState → DownstreamState) → States → States × Bool
with_mut client f states = update_at client f (lookup client states) states

-- `with_mut_or_default(downstream_id, |_| {})`
abbrev pub or_default : ℕ → Option DownstreamState → States → States
or_default client none states = insert client default states
or_default client (some s) states = states

abbrev pub stored_or_internal :
    States × Bool → DeclareMiningJobResult → States × DeclareMiningJobResult
stored_or_internal (states, true) r = (states, r)
stored_or_internal (states, false) r = (states, error internal_error)

abbrev pub context_in : ℕ → Option DownstreamState → Option ValidationContext
context_in request_id none = none
context_in request_id (some s) = validation_context_for_request request_id s

-- What Bitcoin Core's answer makes of the states, and of the declaration.
unfoldable pub answer_response :
    ℕ
    → ℕ
    → ℕ
    → DeclareMiningJob
    → Bool
    → Option ValidationContext
    → Option JdResponse
    → States
    → States × DeclareMiningJobResult
unfolding validation_context_drifted
answer_response now client token msg retry previous none states = (states, error internal_error)
answer_response now client token msg retry previous (some (validated_job prev_hash nbits txids))
      states =
    let job : DeclaredCustomJob = record {
      declare_mining_job = msg;
      validation_context = record { prev_hash = prev_hash; nbits = nbits };
      txid_list = some txids;
      validated = true;
    } in
    stored_or_internal
      (with_mut client (insert_declared_custom_job now msg.request_id token job) states) success
answer_response now client token msg retry previous (some (refused_job code context)) states = (
  (with_mut client (remove_declared_custom_job msg.request_id token) states).0,
  error (if tip_drifted previous context then stale_chain_tip else code),
)
answer_response now client token msg retry previous (some (lacking missing context)) states =
    let job : DeclaredCustomJob = record {
      declare_mining_job = msg;
      validation_context = context;
      txid_list = none;
      validated = false;
    } in
    if retry && tip_drifted previous context
    then (
      (with_mut client (remove_declared_custom_job msg.request_id token) states).0,
      error stale_chain_tip,
    )
    else stored_or_internal
        (with_mut client (insert_declared_custom_job now msg.request_id token job) states)
        (missing_transactions missing)

-- A declaration is answered, or the handler panics with the states as they were.
pub data Answer : Type 0 where
  answered : States → DeclareMiningJobResult → Answer
  crashed : Answer

abbrev pub to_answer : States × DeclareMiningJobResult → Answer
to_answer (states, r) = answered states r

module _ (codec : BitcoinCodec) where
  abbrev pub declare_checked :
      (States → States)
      → Option JdResponse
      → ℕ
      → ℕ
      → ℕ
      → DeclareMiningJob
      → Option ProvideMissingTransactionsSuccess
      → Outcome Transaction
      → States
      → Answer
  declare_checked during core now client token msg provided (done tx) states =
      let previous =
        if is_some provided then context_in msg.request_id (lookup client states) else none in
      if length tx.input == 1
      then to_answer (
          answer_response now client token msg (is_some provided) previous core
            (during (or_default client (lookup client states) states)))
      else answered states (error invalid_coinbase_tx_input)
  declare_checked during core now client token msg provided failed states =
      answered states (error invalid_coinbase_tx)
  declare_checked during core now client token msg provided panicked states = crashed

  abbrev pub declare_parsed :
      (States → States)
      → Option JdResponse
      → ℕ
      → ℕ
      → DeclareMiningJob
      → Option ProvideMissingTransactionsSuccess
      → Option ℕ
      → States
      → Answer
  declare_parsed during core now client msg provided none states =
      answered states (error invalid_mining_job_token)
  declare_parsed during core now client msg provided (some token) states =
      declare_checked during core now client token msg provided
        (get_coinbase_tx codec msg.coinbase_tx_prefix msg.coinbase_tx_suffix) states

  unfoldable pub handle_declare_mining_job :
      (States → States)
      → Option JdResponse
      → ℕ
      → ℕ
      → DeclareMiningJob
      → Option ProvideMissingTransactionsSuccess
      → States
      → Answer
  handle_declare_mining_job during core now client msg provided states =
      declare_parsed during core now client msg provided (parse_token msg.mining_job_token) states
