-- ===== src/JdServer/Declarator/Declare.antt =====
-- job_declaration_message_handler.rs: `handle_declare_mining_job` and
-- `handle_provide_missing_transactions_success`. What other tasks do to the state while a handler
-- awaits the validator is its argument `during`.
use sv2_apps_fork.Prelude.{
  ℕ, suc, ◌%◌, Option, none, some, List, [], ◌∷◌, not, if◌then◌else◌, ◌==◌, nat_eq, string_eq,
}
use sv2_apps_fork.Prelude.Assoc.{lookup, insert, without}
use sv2_apps_fork.JdServer.Tokens
use sv2_apps_fork.JdServer.Tokens.{TokenManager, ActiveTokenData}
use sv2_apps_fork.JdServer.TokenBytes.{to_le_bytes, parse_token}
use sv2_apps_fork.JdServer.Messages.{
  ErrorCode, invalid_mining_job_token, missing_txs, DeclareMiningJob,
  ProvideMissingTransactionsSuccess, JobDeclaration, declare_mining_job_success,
  declare_mining_job_error, provide_missing_transactions, DeclareMiningJobResult, success, error,
  missing_transactions, client_not_found, pending_declare_mining_job_not_found, binary_sv2, ok, err,
  panicked, JobValidationEngine, Env,
}
use sv2_apps_fork.JdServer.Declarator.{
  Downstream, JobDeclarator, Exec, ◌>>=◌, jds_shutdown, jds_disconnect, jds_log, require_client,
  client_sender, send,
}

abbrev pub activated_message : ℕ → Option ℕ → JobDeclaration
activated_message request_id none = declare_mining_job_error request_id invalid_mining_job_token
activated_message request_id (some token) =
    declare_mining_job_success request_id (to_le_bytes token)

module _ {V : Type 0} where
  -- The state after a call of the engine, and what it answers. While the call is awaited the other
  -- tasks act on the state by `during`.
  abbrev pub validate :
      JobValidationEngine V
      → (JobDeclarator V → JobDeclarator V)
      → ℕ
      → DeclareMiningJob
      → Option ProvideMissingTransactionsSuccess
      → Exec V DeclareMiningJobResult
  validate engine during client_id msg provided jd =
      let (v, r) = engine.handle_declare_mining_job jd.job_validator client_id msg provided in
      (during (record jd { job_validator = v }), ok r)

  -- The job is valid: activate the token and answer.
  abbrev pub activate_and_answer : Env → ℕ → ℕ → ℕ → Exec V JobDeclaration
  activate_and_answer env client_id token request_id jd =
      let (tm, activated) = Tokens.activate jd.token_manager env.now token client_id in
      (record jd { token_manager = tm }, ok (activated_message request_id activated))

  -- The job is refused: drop the allocated token and answer.
  abbrev pub deallocate_and_answer : ℕ → ℕ → ErrorCode → Exec V JobDeclaration
  deallocate_and_answer token request_id code jd = (
    record jd { token_manager = Tokens.deallocate jd.token_manager token },
    ok (declare_mining_job_error request_id code),
  )

  abbrev pub with_pending : ℕ → ℕ → DeclareMiningJob → Option Downstream → Exec V (Unit {0})
  with_pending now client_id msg none jd =
      (jd, err (jds_disconnect (client_not_found client_id) client_id))
  with_pending now client_id msg (some downstream) jd =
      let pending = insert msg.request_id (now, msg) downstream.pending_declare_mining_jobs in
      let downstream' : Downstream = record downstream { pending_declare_mining_jobs = pending } in
      (record jd { downstream_clients = insert client_id downstream' jd.downstream_clients }, ok tt)

  -- `downstream_clients.with(..)` that inserts into `pending_declare_mining_jobs`.
  abbrev pub store_pending : ℕ → ℕ → DeclareMiningJob → Exec V (Unit {0})
  store_pending now client_id msg jd =
      with_pending now client_id msg (lookup client_id jd.downstream_clients) jd

abbrev pub next_position : Option ℕ → Option ℕ
next_position none = none
next_position (some i) = some (suc i)

-- `iter().position(..)`
unfoldable pub position : ℕ → List ℕ → Option ℕ
position wtxid [] = none
position wtxid (x ∷ xs) =
    let rest = next_position (position wtxid xs) in if x == wtxid then some 0 else rest

-- `pos as u16`
abbrev pub push_u16 : Option ℕ → List ℕ → List ℕ
push_u16 none rest = rest
push_u16 (some i) rest = (i % 65536) ∷ rest

unfoldable pub unknown_tx_position_list : List ℕ → List ℕ → List ℕ
unfolding position
unknown_tx_position_list wtxids [] = []
unknown_tx_position_list wtxids (missing ∷ rest) =
    push_u16 (position missing wtxids) (unknown_tx_position_list wtxids rest)

module _ {V : Type 0} where
  abbrev pub as_seq064k : Env → List ℕ → Exec V (List ℕ)
  as_seq064k env positions jd =
      if env.fits_seq064k positions then (jd, ok positions) else (jd, err (jds_shutdown binary_sv2))

  abbrev pub answer_declare :
      Env → ℕ → ℕ → DeclareMiningJob → DeclareMiningJobResult → Exec V JobDeclaration
  answer_declare env client_id token msg success =
      activate_and_answer env client_id token msg.request_id
  answer_declare env client_id token msg (error code) =
      deallocate_and_answer token msg.request_id code
  answer_declare env client_id token msg (missing_transactions missing) = do
    stored ← store_pending env.now client_id msg
    positions ← as_seq064k env (unknown_tx_position_list msg.wtxid_list missing)
    (λ jd. (jd, ok (provide_missing_transactions msg.request_id positions)))

  abbrev pub refuse_token : Env → ℕ → ℕ → DeclareMiningJob → Exec V (Unit {0})
  refuse_token env client_id sender msg =
      send env client_id sender (declare_mining_job_error msg.request_id invalid_mining_job_token)

  abbrev pub declare_with_token :
      JobValidationEngine V
      → (JobDeclarator V → JobDeclarator V)
      → Env
      → ℕ
      → ℕ
      → DeclareMiningJob
      → Option ℕ
      → Exec V (Unit {0})
  declare_with_token engine during env client_id sender msg none =
      refuse_token env client_id sender msg
  declare_with_token engine during env client_id sender msg (some token) = do
    allocated ← (λ jd. (jd, ok (Tokens.is_allocated jd.token_manager token client_id)))
    if not allocated then refuse_token env client_id sender msg else do
      result ← validate engine during client_id msg none
      response ← answer_declare env client_id token msg result
      send env client_id sender response

  unfoldable pub handle_declare_mining_job :
      JobValidationEngine V
      → (JobDeclarator V → JobDeclarator V)
      → Env
      → Option ℕ
      → DeclareMiningJob
      → Exec V (Unit {0})
  handle_declare_mining_job engine during env client msg = do
    client_id ← require_client client
    sender ← client_sender client_id
    declare_with_token engine during env client_id sender msg (parse_token msg.mining_job_token)

  -- `downstream_clients.with(..)` that removes from `pending_declare_mining_jobs`.
  abbrev pub take_from : ℕ → ℕ → Option Downstream → Exec V (Option (ℕ × DeclareMiningJob))
  take_from client_id request_id none jd =
      (jd, err (jds_disconnect (client_not_found client_id) client_id))
  take_from client_id request_id (some downstream) jd =
      let pending = without request_id downstream.pending_declare_mining_jobs in
      let downstream' : Downstream = record downstream { pending_declare_mining_jobs = pending } in
      (
        record jd { downstream_clients = insert client_id downstream' jd.downstream_clients },
        ok (lookup request_id downstream.pending_declare_mining_jobs),
      )

  abbrev pub take_pending : ℕ → ℕ → Exec V (Option (ℕ × DeclareMiningJob))
  take_pending client_id request_id jd =
      take_from client_id request_id (lookup client_id jd.downstream_clients) jd

  abbrev pub require_pending : ℕ → Option (ℕ × DeclareMiningJob) → Exec V DeclareMiningJob
  require_pending request_id none jd =
      (jd, err (jds_log (pending_declare_mining_job_not_found request_id)))
  require_pending request_id (some (inserted_at, declared)) jd = (jd, ok declared)

  -- `.expect("already validated")`
  abbrev pub expect_token : Option ℕ → Exec V ℕ
  expect_token none jd = (jd, panicked)
  expect_token (some token) jd = (jd, ok token)

  -- A second round that still misses transactions is refused.
  abbrev pub answer_provided : Env → ℕ → ℕ → ℕ → DeclareMiningJobResult → Exec V JobDeclaration
  answer_provided env client_id token request_id success =
      activate_and_answer env client_id token request_id
  answer_provided env client_id token request_id (error code) =
      deallocate_and_answer token request_id code
  answer_provided env client_id token request_id (missing_transactions missing) =
      deallocate_and_answer token request_id missing_txs

  unfoldable pub handle_provide_missing_transactions_success :
      JobValidationEngine V
      → (JobDeclarator V → JobDeclarator V)
      → Env
      → Option ℕ
      → ProvideMissingTransactionsSuccess
      → Exec V (Unit {0})
  handle_provide_missing_transactions_success engine during env client msg = do
    client_id ← require_client client
    sender ← client_sender client_id
    maybe_pending ← take_pending client_id msg.request_id
    declared ← require_pending msg.request_id maybe_pending
    token ← expect_token (parse_token declared.mining_job_token)
    result ← validate engine during client_id declared (some msg)
    response ← answer_provided env client_id token msg.request_id result
    send env client_id sender response
