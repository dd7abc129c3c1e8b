-- ===== src/JdServer/Declarator/Responses.antt =====
-- What a client is told: one response to each declaration that is handled, under its request's id.
use sv2_apps_fork.Prelude.{
  ℕ, ◌≡◌, refl, ap, ◌∙◌, inl, inr, Option, none, some, List, ◌∷◌, nat_eq, Bool-cases, Option-cases,
}
use sv2_apps_fork.Prelude.Assoc.{lookup}
use sv2_apps_fork.JdServer.Tokens
use sv2_apps_fork.JdServer.TokenBytes.{parse_token}
use sv2_apps_fork.JdServer.Messages.{
  DeclareMiningJob, JobDeclaration, allocate_mining_job_token_success, declare_mining_job_success,
  declare_mining_job_error, provide_missing_transactions, DeclareMiningJobResult, success, error,
  missing_transactions, ok, err, panicked, JobValidationEngine, Env, Result,
}
use sv2_apps_fork.JdServer.Declarator.{JobDeclarator, ◌>>=◌, after, send}
use sv2_apps_fork.JdServer.Declarator.Declare.{
  activated_message, as_seq064k, answer_declare, answer_provided, declare_with_token,
  handle_declare_mining_job,
}

abbrev pub response_id : JobDeclaration → ℕ
response_id (allocate_mining_job_token_success request_id token outputs) = request_id
response_id (declare_mining_job_success request_id token) = request_id
response_id (declare_mining_job_error request_id code) = request_id
response_id (provide_missing_transactions request_id positions) = request_id

activated_message-id :
    (request_id : ℕ) (o : Option ℕ) → response_id (activated_message request_id o) ≡ request_id
activated_message-id request_id none = refl
activated_message-id request_id (some token) = refl

module _ {V : Type 0} where
  -- An action that sends nothing, and whose answer carries the request's id.
  abbrev pub Answers : ℕ → JobDeclarator V → JobDeclarator V × Result JobDeclaration → Type 0
  Answers request_id jd (jd', ok m) = (jd'.delivered ≡ jd.delivered) × (response_id m ≡ request_id)
  Answers request_id jd (jd', err e) = jd'.delivered ≡ jd.delivered
  Answers request_id jd (jd', panicked) = jd'.delivered ≡ jd.delivered

  positions-Answers :
      (env : Env) (request_id : ℕ) (positions : List ℕ) (jd old : JobDeclarator V)
      → jd.delivered ≡ old.delivered
      → Answers request_id old (
          (as_seq064k env positions >>= λ p jd'.
          (jd', ok (provide_missing_transactions request_id p)))
            jd)
  positions-Answers env request_id positions jd old same =
      elim (Bool-cases (env.fits_seq064k positions)) [
        | inl fits ↦ rw fits (same, refl)
        | inr long ↦ rw long same
      ]

  answer_declare-Answers :
      (env : Env) (client token : ℕ) (msg : DeclareMiningJob) (r : DeclareMiningJobResult)
      (jd : JobDeclarator V)
      → Answers msg.request_id jd (answer_declare env client token msg r jd)
  answer_declare-Answers env client token msg success jd = (refl, activated_message-id _ _)
  answer_declare-Answers env client token msg (error code) jd = (refl, refl)
  answer_declare-Answers env client token msg (missing_transactions missing) jd =
      elim (Option-cases (lookup client jd.downstream_clients)) [
        | inl gone ↦ rw gone refl
        | inr (downstream, there) ↦ rw there (positions-Answers env msg.request_id _ _ jd refl)
      ]

  pub answer_provided-Answers :
      (env : Env) (client token request_id : ℕ) (r : DeclareMiningJobResult) (jd : JobDeclarator V)
      → Answers request_id jd (answer_provided env client token request_id r jd)
  answer_provided-Answers env client token request_id success jd = (refl, activated_message-id _ _)
  answer_provided-Answers env client token request_id (error code) jd = (refl, refl)
  answer_provided-Answers env client token request_id (missing_transactions missing) jd =
      (refl, refl)

  -- After a handler: where it succeeds, one message went out, to the client, under the request's id;
  -- where it fails, none did.
  abbrev pub Responds : ℕ → ℕ → JobDeclarator V → JobDeclarator V × Result (Unit {0}) → Type 0
  Responds client request_id jd (jd', ok _) =
      (sender : ℕ) × (m : JobDeclaration) × (lookup client jd.downstream_client_senders
        ≡ some sender)
      × (response_id m ≡ request_id)
      × (jd'.delivered ≡ (sender, m) ∷ jd.delivered)
  Responds client request_id jd (jd', err e) = jd'.delivered ≡ jd.delivered
  Responds client request_id jd (jd', panicked) = jd'.delivered ≡ jd.delivered

  send-Responds :
      (env : Env) (client request_id sender : ℕ) (m : JobDeclaration) (jd old : JobDeclarator V)
      → lookup client old.downstream_client_senders ≡ some sender
      → response_id m ≡ request_id
      → jd.delivered ≡ old.delivered
      → Responds client request_id old (send env client sender m jd)
  send-Responds env client request_id sender m jd old here id same =
      elim (Bool-cases (env.closed sender)) [
        | inl closed ↦ rw closed same
        | inr open' ↦ rw open' (sender, m, here, id, ap (λ l. (sender, m) ∷ l) same)
      ]

  -- The answer of an action, sent.
  pub reply-Responds :
      (env : Env) (client request_id sender : ℕ) (jd old : JobDeclarator V)
      (r : JobDeclarator V × Result JobDeclaration)
      → lookup client old.downstream_client_senders ≡ some sender
      → jd.delivered ≡ old.delivered
      → Answers request_id jd r
      → Responds client request_id old (after r.1 (send env client sender) r.0)
  reply-Responds env client request_id sender jd old (jd', ok m) here same a =
      send-Responds env client request_id sender m jd' old here a.1 (a.0 ∙ same)
  reply-Responds env client request_id sender jd old (jd', err e) here same a = a ∙ same
  reply-Responds env client request_id sender jd old (jd', panicked) here same a = a ∙ same

  module _ (engine : JobValidationEngine V) (during : JobDeclarator V → JobDeclarator V)
      (quiet : (jd : JobDeclarator V) → (during jd).delivered ≡ jd.delivered) (env : Env)
      (client : ℕ) where
    declare_with_token-Responds :
        (sender : ℕ) (msg : DeclareMiningJob) (token : Option ℕ) (jd : JobDeclarator V)
        → lookup client jd.downstream_client_senders ≡ some sender
        → Responds client msg.request_id jd
            (declare_with_token engine during env client sender msg token jd)
    declare_with_token-Responds sender msg none jd here =
        send-Responds env client msg.request_id sender _ jd jd here refl refl
    declare_with_token-Responds sender msg (some token) jd here =
        elim (Bool-cases (Tokens.is_allocated jd.token_manager token client)) [
          | inl mine ↦ rw mine (
              let (v, r) = engine.handle_declare_mining_job jd.job_validator client msg none in
              let jd' = during (record jd { job_validator = v }) in
              reply-Responds env client msg.request_id sender jd' jd
                (answer_declare env client token msg r jd') here (quiet _)
                (answer_declare-Answers env client token msg r jd'))
          | inr other ↦
              rw other (send-Responds env client msg.request_id sender _ jd jd here refl refl)
        ]

    -- A handled `DeclareMiningJob` sends exactly one message, to the client that declared, with the
    -- id of its request, and a handler that fails sends none, provided that the tasks that run while
    -- the validator is awaited send nothing themselves.
    pub handle_declare_mining_job-Responds :
        (msg : DeclareMiningJob) (jd : JobDeclarator V)
        → Responds client msg.request_id jd
            (handle_declare_mining_job engine during env (some client) msg jd)
    unfolding handle_declare_mining_job
    handle_declare_mining_job-Responds msg jd =
        elim (Option-cases (lookup client jd.downstream_client_senders)) [
          | inl gone ↦ rw gone refl
          | inr (sender, here) ↦
              rw here
                (declare_with_token-Responds sender msg (parse_token msg.mining_job_token) jd here)
        ]
