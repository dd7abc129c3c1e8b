-- ===== src/JdServer/Declarator/Disconnects.antt =====
-- A client that is cleaned up while its declaration is being validated.
use sv2_apps_fork.Prelude.{
  ℕ, ◌≡◌, ◌≢◌, refl, ◌⊎◌, inl, inr, true, none, some, ◌∷◌, nat_eq, arith, Bool-cases,
}
use mathlib.Core.Path.{ap₂}
use sv2_apps_fork.Prelude.Assoc.{lookup, lookup-without, lookup_of_retain, lookup_of_without}
use sv2_apps_fork.JdServer.Tokens
use sv2_apps_fork.JdServer.Tokens.{ActiveTokenData, AllocatedTokenData}
use sv2_apps_fork.JdServer.Tokens.Freshness.{activate_cases}
use sv2_apps_fork.JdServer.TokenBytes.{parse_token}
use sv2_apps_fork.JdServer.Messages.{
  ErrorCode, invalid_mining_job_token, DeclareMiningJob, JobDeclaration, declare_mining_job_error,
  DeclareMiningJobResult, success, error, missing_transactions, JobValidationEngine, Env, Result,
  ok, err, panicked,
}
use sv2_apps_fork.JdServer.Declarator.{JobDeclarator, after, send}
use sv2_apps_fork.JdServer.Declarator.Declare.{answer_declare, handle_declare_mining_job}
use sv2_apps_fork.JdServer.Declarator.Lifecycle.{cleanup_downstream}

-- The client owns no token, allocated or active.
pub record HasNoTokens (client : ℕ) (tm : Tokens.TokenManager) : Type 0 where
  pub allocated :
      (t : ℕ) (x : AllocatedTokenData) → lookup t tm.allocated_tokens ≡ some x → x.owner ≢ client
  pub active : (t : ℕ) (x : ActiveTokenData) → lookup t tm.active_tokens ≡ some x → x.owner ≢ client

remove_downstream-HasNoTokens :
    (tm : Tokens.TokenManager) (client : ℕ)
    → HasNoTokens client (Tokens.remove_downstream tm client)
unfolding Tokens.remove_downstream
remove_downstream-HasNoTokens tm client = record {
  allocated =
      λ t x h. let kept = (lookup_of_retain _ t x tm.allocated_tokens h).1 in λ same. ground arith;
  active =
      λ t x h. let kept = (lookup_of_retain _ t x tm.active_tokens h).1 in λ same. ground arith;
}

deallocate-HasNoTokens :
    (tm : Tokens.TokenManager) (client token : ℕ)
    → HasNoTokens client tm
    → HasNoTokens client (Tokens.deallocate tm token)
unfolding Tokens.deallocate
deallocate-HasNoTokens tm client token h = record {
  allocated = λ t x e. h.allocated t x (lookup_of_without token t x tm.allocated_tokens e);
  active = λ t x e. h.active t x e;
}

-- An activation for a client with no tokens fails and changes nothing.
activate_of_HasNoTokens :
    (tm : Tokens.TokenManager) (now token client : ℕ)
    → HasNoTokens client tm
    → Tokens.activate tm now token client ≡ (tm, none)
activate_of_HasNoTokens tm now token client h = elim (activate_cases tm now token client) [
  | inl e ↦ e
  | inr (entry, e, mine, done) ↦ absurd (h.allocated token entry e mine)
]

module _ {V : Type 0} (env : Env) (client : ℕ) where
  -- The client has no tokens, nothing was sent, and an answer, if there is one, is an error.
  abbrev Refuses : ℕ → JobDeclarator V → JobDeclarator V × Result JobDeclaration → Type 0
  Refuses request_id old (jd', ok m) =
      HasNoTokens client jd'.token_manager
      × (jd'.delivered ≡ old.delivered)
      × (code : ErrorCode) × (m ≡ declare_mining_job_error request_id code)
  Refuses request_id old (jd', err e) =
      HasNoTokens client jd'.token_manager × (jd'.delivered ≡ old.delivered)
  Refuses request_id old (jd', panicked) = ⊥

  answer-Refuses :
      (token : ℕ) (msg : DeclareMiningJob) (r : DeclareMiningJobResult) (jd : JobDeclarator V)
      → HasNoTokens client jd.token_manager
      → lookup client jd.downstream_clients ≡ none
      → Refuses msg.request_id jd (answer_declare env client token msg r jd)
  answer-Refuses token msg success jd h gone =
      rw (activate_of_HasNoTokens jd.token_manager env.now token client h)
        (h, refl, invalid_mining_job_token, refl)
  answer-Refuses token msg (error code) jd h gone =
      (deallocate-HasNoTokens jd.token_manager client token h, refl, code, refl)
  answer-Refuses token msg (missing_transactions missing) jd h gone = rw gone (h, refl)

  -- After the handler: no tokens, and at most an error was sent.
  abbrev pub EndsRefused : ℕ → ℕ → JobDeclarator V → JobDeclarator V → Type 0
  EndsRefused sender request_id old jd' =
      HasNoTokens client jd'.token_manager
      × ((jd'.delivered ≡ old.delivered)
          ⊎ ((code : ErrorCode) × (jd'.delivered
                ≡ (sender, declare_mining_job_error request_id code) ∷ old.delivered)))

  reply-EndsRefused :
      (sender request_id : ℕ) (old : JobDeclarator V) (r : JobDeclarator V × Result JobDeclaration)
      → Refuses request_id old r
      → EndsRefused sender request_id old (after r.1 (send env client sender) r.0).0
  reply-EndsRefused sender request_id old (jd, ok m) (h, same, code, eq) =
      elim (Bool-cases (env.closed sender)) [
        | inl closed ↦ rw closed (h, inl same)
        | inr open' ↦ rw open' (h, inr (code, ap₂ (λ m' l. (sender, m') ∷ l) eq same))
      ]
  reply-EndsRefused sender request_id old (jd, err e) (h, same) = (h, inl same)
  reply-EndsRefused sender request_id old (jd, panicked) h = absurd h

-- A client that is cleaned up while the validator checks its declaration ends with no token, whatever
-- the validator answers, and is sent an error or nothing: the declaration brings nothing back.
pub disconnect_while_validating :
    {V : Type 0} (engine : JobValidationEngine V) (env : Env) (client sender token : ℕ)
    (msg : DeclareMiningJob) (jd : JobDeclarator V)
    → lookup client jd.downstream_client_senders ≡ some sender
    → parse_token msg.mining_job_token ≡ some token
    → Tokens.is_allocated jd.token_manager token client ≡ true
    → EndsRefused env client sender msg.request_id jd
        (handle_declare_mining_job engine
          (cleanup_downstream engine client)
          env
          (some client)
          msg
          jd).0
unfolding handle_declare_mining_job cleanup_downstream
disconnect_while_validating engine env client sender token msg jd here good mine =
    rw (here, good, mine)
      (let (v, r) = engine.handle_declare_mining_job jd.job_validator client msg none in
        let jd' = cleanup_downstream engine client (record jd { job_validator = v }) in
        reply-EndsRefused env client sender msg.request_id jd
          (answer_declare env client token msg r jd')
          (answer-Refuses env client token msg r jd'
            (remove_downstream-HasNoTokens jd.token_manager client)
            (ground (arith, lookup-without client client jd.downstream_clients))))
