-- ===== src/JdServer/Declarator/Panics.antt =====
-- The `expect` on a kept declaration's token: why it never fails.
use sv2_apps_fork.Prelude.{
  ℕ, ◌≡◌, ◌≢◌, refl, inl, inr, Option, none, some, List, nat_eq, Bool-cases, Option-cases,
}
use sv2_apps_fork.Prelude.Assoc.{lookup, insert, without, lookup_of_without}
use sv2_apps_fork.JdServer.Tokens
use sv2_apps_fork.JdServer.TokenBytes.{parse_token}
use sv2_apps_fork.JdServer.Messages.{
  DeclareMiningJob, ProvideMissingTransactionsSuccess, JobDeclaration, DeclareMiningJobResult,
  success, error, missing_transactions, provide_missing_transactions, JobValidationEngine, Env,
  Result, ok, err, panicked,
}
use sv2_apps_fork.JdServer.Declarator.{Downstream, JobDeclarator, ◌>>=◌, after, send}
use sv2_apps_fork.JdServer.Declarator.Declare.{
  answer_declare, answer_provided, store_pending, declare_with_token, as_seq064k,
  handle_declare_mining_job, handle_provide_missing_transactions_success, unknown_tx_position_list,
}
use sv2_apps_fork.JdServer.Declarator.Lifecycle.{cleanup_downstream}
use sv2_apps_fork.JdServer.Declarator.Responses.{Responds, reply-Responds, answer_provided-Answers}
use sv2_apps_fork.JdServer.Declarator.Pending.{IsParsed, HoldsParsed, store_pending-HoldsParsed}

module _ {V : Type 0} (env : Env) (client : ℕ) where
  send-HoldsParsed :
      (sender : ℕ) (m : JobDeclaration) (jd : JobDeclarator V)
      → HoldsParsed jd
      → HoldsParsed (send env client sender m jd).0
  send-HoldsParsed sender m jd h = elim (Bool-cases (env.closed sender)) [
    | inl closed ↦ rw closed h
    | inr open' ↦ rw open' h
  ]

  reply-HoldsParsed :
      (sender : ℕ) (r : JobDeclarator V × Result JobDeclaration)
      → HoldsParsed r.0
      → HoldsParsed (after r.1 (send env client sender) r.0).0
  reply-HoldsParsed sender (jd, ok m) h = send-HoldsParsed sender m jd h
  reply-HoldsParsed sender (jd, err e) h = h
  reply-HoldsParsed sender (jd, panicked) h = h

  as_seq064k-HoldsParsed :
      (r : JobDeclarator V × Result (Unit {0})) (msg : DeclareMiningJob) (missing : List ℕ)
      → HoldsParsed r.0
      → HoldsParsed
          (after r.1
            (λ stored. as_seq064k env (unknown_tx_position_list msg.wtxid_list missing) >>= λ p jd'.
              (jd', ok (provide_missing_transactions msg.request_id p)))
            r.0).0
  as_seq064k-HoldsParsed (jd, ok _) msg missing h =
      elim (Bool-cases (env.fits_seq064k (unknown_tx_position_list msg.wtxid_list missing))) [
        | inl fits ↦ rw fits h
        | inr long ↦ rw long h
      ]
  as_seq064k-HoldsParsed (jd, err e) msg missing h = h
  as_seq064k-HoldsParsed (jd, panicked) msg missing h = h

  answer_declare-HoldsParsed :
      (token : ℕ) (msg : DeclareMiningJob) (r : DeclareMiningJobResult) (jd : JobDeclarator V)
      → IsParsed msg
      → HoldsParsed jd
      → HoldsParsed (answer_declare env client token msg r jd).0
  answer_declare-HoldsParsed token msg success jd parsed h = h
  answer_declare-HoldsParsed token msg (error code) jd parsed h = h
  answer_declare-HoldsParsed token msg (missing_transactions missing) jd parsed h =
      as_seq064k-HoldsParsed (store_pending env.now client msg jd) msg missing
        (store_pending-HoldsParsed env.now client msg jd parsed h)

  module _ (engine : JobValidationEngine V) (during : JobDeclarator V → JobDeclarator V)
      (keeps : (jd : JobDeclarator V) → HoldsParsed jd → HoldsParsed (during jd)) where
    declare_with_token-HoldsParsed :
        (sender : ℕ) (msg : DeclareMiningJob) (o : Option ℕ) (jd : JobDeclarator V)
        → parse_token msg.mining_job_token ≡ o
        → HoldsParsed jd
        → HoldsParsed (declare_with_token engine during env client sender msg o jd).0
    declare_with_token-HoldsParsed sender msg none jd e h = send-HoldsParsed sender _ jd h
    declare_with_token-HoldsParsed sender msg (some token) jd e h =
        elim (Bool-cases (Tokens.is_allocated jd.token_manager token client)) [
          | inl mine ↦ rw mine (
              let (v, r) = engine.handle_declare_mining_job jd.job_validator client msg none in
              let jd' = during (record jd { job_validator = v }) in
              reply-HoldsParsed sender (answer_declare env client token msg r jd')
                (answer_declare-HoldsParsed token msg r jd' (token, e) (keeps _ h)))
          | inr other ↦ rw other (send-HoldsParsed sender _ jd h)
        ]

    -- Handling a declaration keeps every kept declaration one with a token of eight bytes, provided
    -- that the tasks that run while the validator is awaited do so.
    pub handle_declare_mining_job-HoldsParsed :
        (msg : DeclareMiningJob) (jd : JobDeclarator V)
        → HoldsParsed jd
        → HoldsParsed (handle_declare_mining_job engine during env (some client) msg jd).0
    unfolding handle_declare_mining_job
    handle_declare_mining_job-HoldsParsed msg jd h =
        elim (Option-cases (lookup client jd.downstream_client_senders)) [
          | inl gone ↦ rw gone h
          | inr (sender, here) ↦ rw here (
              declare_with_token-HoldsParsed sender msg (parse_token msg.mining_job_token) jd refl
                h)
        ]

-- Clean-up of a client forgets declarations, and keeps none anew.
pub cleanup_downstream-HoldsParsed :
    {V : Type 0} (engine : JobValidationEngine V) (client : ℕ) (jd : JobDeclarator V)
    → HoldsParsed jd
    → HoldsParsed (cleanup_downstream engine client jd)
unfolding cleanup_downstream
cleanup_downstream-HoldsParsed engine client jd h c q d e found kept =
    h c q d e (lookup_of_without client c d jd.downstream_clients found) kept

module _ {V : Type 0} (env : Env) (client : ℕ) where
  after-send_ne_panicked :
      (sender : ℕ) (r : JobDeclarator V × Result JobDeclaration)
      → r.1 ≢ panicked
      → (after r.1 (send env client sender) r.0).1 ≢ panicked
  after-send_ne_panicked sender (jd, ok m) n = elim (Bool-cases (env.closed sender)) [
    | inl closed ↦ rw closed (λ e. cc)
    | inr open' ↦ rw open' (λ e. cc)
  ]
  after-send_ne_panicked sender (jd, err e) n = λ p. cc
  after-send_ne_panicked sender (jd, panicked) n = absurd (n refl)

  answer_provided_ne_panicked :
      (token request_id : ℕ) (r : DeclareMiningJobResult) (jd : JobDeclarator V)
      → (answer_provided env client token request_id r jd).1 ≢ panicked
  answer_provided_ne_panicked token request_id success jd = λ p. cc
  answer_provided_ne_panicked token request_id (error code) jd = λ p. cc
  answer_provided_ne_panicked token request_id (missing_transactions missing) jd = λ p. cc

  module _ (engine : JobValidationEngine V) (during : JobDeclarator V → JobDeclarator V)
      (quiet : (jd : JobDeclarator V) → (during jd).delivered ≡ jd.delivered) where
    -- In a state that `handle_declare_mining_job` leaves, the missing transactions of a request never
    -- make the server panic, and they are answered by exactly one message, to the client that sent
    -- them, under the request's id, unless the handler fails, when nothing is sent, provided that the tasks that
    -- run while the validator is awaited send nothing themselves.
    pub handle_provide_missing_transactions_success_settles :
        (msg : ProvideMissingTransactionsSuccess) (jd : JobDeclarator V)
        → HoldsParsed jd
        → let r =
            handle_provide_missing_transactions_success engine during env (some client) msg jd in
          Responds client msg.request_id jd r × (r.1 ≢ panicked)
    unfolding handle_provide_missing_transactions_success
    handle_provide_missing_transactions_success_settles msg jd h =
        elim (Option-cases (lookup client jd.downstream_client_senders)) [
          | inl gone ↦ rw gone (refl, λ p. cc)
          | inr (sender, here) ↦ elim (Option-cases (lookup client jd.downstream_clients)) [
            | inl gone ↦ rw (here, gone) (refl, λ p. cc)
            | inr (d, there) ↦
                elim (Option-cases (lookup msg.request_id d.pending_declare_mining_jobs)) [
                  | inl absent ↦ rw (here, there, absent) (refl, λ p. cc)
                  | inr ((at, declared), kept) ↦
                      let (token, parsed) = h client msg.request_id d (at, declared) there kept in
                      let d' : Downstream = record d {
                        pending_declare_mining_jobs =
                            without msg.request_id d.pending_declare_mining_jobs;
                      } in
                      let (v, r) =
                        engine.handle_declare_mining_job jd.job_validator client declared
                          (some msg) in
                      let jd' = during (record jd {
                        downstream_clients = insert client d' jd.downstream_clients;
                        job_validator = v;
                      }) in
                      let answer = answer_provided env client token msg.request_id r jd' in
                      rw (here, there, kept, parsed)
                        (
                          reply-Responds env client msg.request_id sender jd' jd answer here
                              (quiet _)
                              (answer_provided-Answers env client token msg.request_id r jd'),
                          after-send_ne_panicked sender answer
                              (answer_provided_ne_panicked token msg.request_id r jd'),
                        )
                ]
          ]
        ]
