-- ===== src/JdServer/Declarator/Journey.antt =====
-- The whole way of a job: allocation, declaration, custom job.
use sv2_apps_fork.Prelude.{
  ℕ, ◌+◌, ◌<◌, ◌≡◌, refl, ap, ◌∙◌, true, false, none, some, [], ◌∷◌, nat_eq, string_eq, arith,
}
use sv2_apps_fork.Prelude.Assoc.{lookup, insert, without, lookup-insert}
use sv2_apps_fork.JdServer.Tokens
use sv2_apps_fork.JdServer.Tokens.{
  ActiveTokenData, AllocatedTokenData, allocated_entry, active_entry, u64_mod,
}
use sv2_apps_fork.JdServer.Tokens.Freshness.{activate_mine}
use sv2_apps_fork.JdServer.TokenBytes.{to_le_bytes, parse_token, parse_token-to_le_bytes}
use sv2_apps_fork.JdServer.Messages.{
  AllocateMiningJobToken, DeclareMiningJob, SetCustomMiningJob, JobDeclaration,
  allocate_mining_job_token_success, declare_mining_job_success, success, accepted, custom_success,
  JobValidationEngine, Env, ok, Result,
}
use sv2_apps_fork.JdServer.Declarator.{JobDeclarator}
use sv2_apps_fork.JdServer.Declarator.Declare.{handle_declare_mining_job}
use sv2_apps_fork.JdServer.Declarator.Lifecycle.{
  handle_allocate_mining_job_token, handle_set_custom_mining_job,
}

module _ {V : Type 0} (engine : JobValidationEngine V) (env : Env) (client sender : ℕ)
    (jd : JobDeclarator V) (ask : AllocateMiningJobToken) (declare : DeclareMiningJob)
    (custom : SetCustomMiningJob) where
  abbrev pub asked : JobDeclarator V
  asked = (handle_allocate_mining_job_token env (some client) ask jd).0

  abbrev pub declared : JobDeclarator V
  declared = (handle_declare_mining_job engine (λ s. s) env (some client) declare asked).0

  abbrev pub token : ℕ
  token = jd.token_manager.token_factory

  -- An engine that accepts, a client that is there, and a counter that does not wrap.
  pub record Ready : Type 0 where
    pub here : lookup client jd.downstream_client_senders ≡ some sender
    pub open' : env.closed sender ≡ false
    pub room : token + 2 < u64_mod
    pub accepts :
        (engine.handle_declare_mining_job jd.job_validator client declare none).1 ≡ success
    pub accepts_custom :
        (engine.handle_set_custom_mining_job
          (engine.handle_declare_mining_job jd.job_validator client declare none).0
          client
          custom
          token).1
        ≡ custom_success
    -- The client answers with the bytes that it was sent.
    pub names_token : declare.mining_job_token ≡ to_le_bytes token
    pub names_active : custom.token ≡ to_le_bytes (token + 1)

  abbrev pub allocation_message : JobDeclaration
  allocation_message =
      allocate_mining_job_token_success ask.request_id (to_le_bytes token)
        (env.serialize (record { value = 0; script_pubkey = jd.coinbase_reward_script } ∷ []))

  abbrev entry : AllocatedTokenData
  entry = allocated_entry env.now client ask.user_identifier

  -- The states after the allocation and after the declaration, the counter at `n`.
  abbrev allocated_state : ℕ → JobDeclarator V
  allocated_state n = record jd {
    token_manager = record jd.token_manager {
      token_factory = n;
      allocated_tokens = insert token entry jd.token_manager.allocated_tokens;
    };
    delivered = (sender, allocation_message) ∷ jd.delivered;
  }

  abbrev declared_state : ℕ → JobDeclarator V
  declared_state n =
      let old = allocated_state (token + 1) in
      record old {
        token_manager = record {
          token_factory = n;
          allocated_tokens = without token old.token_manager.allocated_tokens;
          active_tokens =
              insert (token + 1) (active_entry token env.now client entry)
                old.token_manager.active_tokens;
        };
        job_validator = (engine.handle_declare_mining_job jd.job_validator client declare none).0;
        delivered =
            (sender, declare_mining_job_success declare.request_id (to_le_bytes (token + 1)))
            ∷ old.delivered;
      }

  module _ (r : Ready) where
    allocated :
        handle_allocate_mining_job_token env (some client) ask jd
        ≡ (allocated_state (token + 1), ok tt)
    unfolding handle_allocate_mining_job_token
    allocated = rw (r.here, r.open') (ap (λ n. (allocated_state n, ok tt)) (omega (arith, r.room)))

    token_parses : parse_token declare.mining_job_token ≡ some token
    token_parses = rw r.names_token (parse_token-to_le_bytes token (omega (arith, r.room)))

    looked_up :
        lookup token (allocated_state (token + 1)).token_manager.allocated_tokens ≡ some entry
    looked_up = ground (arith, lookup-insert token token entry jd.token_manager.allocated_tokens)

    is_mine : Tokens.is_allocated (allocated_state (token + 1)).token_manager token client ≡ true
    unfolding Tokens.is_allocated
    is_mine = rw looked_up (ground arith)

    activates :
        Tokens.activate (allocated_state (token + 1)).token_manager env.now token client
        ≡ ((declared_state (token + 2)).token_manager, some (token + 1))
    unfolding Tokens.fetch_add
    activates =
        activate_mine (allocated_state (token + 1)).token_manager env.now token client entry
          looked_up refl
        ∙ ap (λ n. ((declared_state n).token_manager, some (token + 1))) (omega (arith, r.room))

    declares :
        handle_declare_mining_job engine
          (λ s. s)
          env
          (some client)
          declare
          (allocated_state (token + 1))
        ≡ (declared_state (token + 2), ok tt)
    unfolding handle_declare_mining_job
    declares = rw (r.here, token_parses, is_mine, r.accepts, activates, r.open') refl

    bound_token :
        Tokens.allocated_from_active (declared_state (token + 2)).token_manager (token + 1)
        ≡ some (active_entry token env.now client entry)
    unfolding Tokens.allocated_from_active
    bound_token = ground (
      arith,
      lookup-insert (token + 1) (token + 1) (active_entry token env.now client entry)
          jd.token_manager.active_tokens,
    )

    active_parses : parse_token custom.token ≡ some (token + 1)
    active_parses = rw r.names_active (parse_token-to_le_bytes (token + 1) (omega (arith, r.room)))

    accepted_at :
        (handle_set_custom_mining_job engine custom ask.user_identifier
          (declared_state (token + 2))).1
        ≡ accepted custom.channel_id custom.request_id 0
    unfolding handle_set_custom_mining_job
    accepted_at =
        rw
          (
            active_parses,
            bound_token,
            (string_eq.agrees_iff ask.user_identifier ask.user_identifier).1 refl,
            r.accepts_custom,
          )
          refl

    -- A connected client whose channel is open is allocated a token, declares with its bytes, and hands
    -- the bytes of the response to the pool under the identity it asked with, the three calls one
    -- directly after the other and at one time, with nothing else between. When the engine accepts the
    -- declaration and the custom job, and the token counter does not wrap, both responses arrive, the
    -- second token is the one after the first, and the job is accepted.
    pub job_accepted :
        (declared.delivered
          ≡ (sender, declare_mining_job_success declare.request_id (to_le_bytes (token + 1)))
            ∷ (sender, allocation_message)
            ∷ jd.delivered)
        × ((handle_set_custom_mining_job engine custom ask.user_identifier declared).1
            ≡ accepted custom.channel_id custom.request_id 0)
    job_accepted =
        let state : declared ≡ declared_state (token + 2) =
          ap (λ s. (handle_declare_mining_job engine (λ s. s) env (some client) declare s).0)
            (ap (λ (p : JobDeclarator V × Result (Unit {0})). p.0) allocated)
          ∙ ap (λ (p : JobDeclarator V × Result (Unit {0})). p.0) declares in
        (
          ap (λ (s : JobDeclarator V). s.delivered) state,
          ap (λ s. (handle_set_custom_mining_job engine custom ask.user_identifier s).1) state
              ∙ accepted_at,
        )
