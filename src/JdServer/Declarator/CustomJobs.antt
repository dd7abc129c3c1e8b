-- ===== src/JdServer/Declarator/CustomJobs.antt =====
-- `SetCustomMiningJob`: who may use an active token, and that it serves once.
use sv2_apps_fork.Prelude.{
  ℕ, ◌≡◌, refl, ap, ◌∙◌, ◌⊎◌, inl, inr, String, false, none, some, ◌==◌, nat_eq, string_eq, arith,
  Bool-cases, Option-cases,
}
use sv2_apps_fork.Prelude.Assoc.{lookup-without}
use sv2_apps_fork.JdServer.Tokens
use sv2_apps_fork.JdServer.Tokens.{ActiveTokenData}
use sv2_apps_fork.JdServer.TokenBytes.{parse_token}
use sv2_apps_fork.JdServer.Messages.{
  SetCustomMiningJob, SetCustomMiningJobResponse, accepted, refused, invalid_mining_job_token,
  SetCustomMiningJobResult, JobValidationEngine,
}
use sv2_apps_fork.JdServer.Declarator.{JobDeclarator}
use sv2_apps_fork.JdServer.Declarator.Lifecycle.{custom_response, handle_set_custom_mining_job}

-- The message names an active token, and the channel's identity is the one that it is bound to.
pub record IsEntitled (tm : Tokens.TokenManager) (msg : SetCustomMiningJob) (user : String)
    : Type 0 where
  pub token : ℕ
  pub bound : ActiveTokenData
  pub named : parse_token msg.token ≡ some token
  pub active : Tokens.allocated_from_active tm token ≡ some bound
  pub same_identity : user ≡ bound.user_identity

module _ (tm : Tokens.TokenManager) (msg : SetCustomMiningJob) (user : String) where
  not_named : parse_token msg.token ≡ none → ¬ IsEntitled tm msg user
  not_named bad p = cc (bad, p.named)

  pub not_active :
      (token : ℕ)
      → parse_token msg.token ≡ some token
      → Tokens.allocated_from_active tm token ≡ none
      → ¬ IsEntitled tm msg user
  not_active token good gone p =
      let same : p.token ≡ token = cc (good, p.named) in
      cc (gone, p.active, ap (Tokens.allocated_from_active tm) same)

  not_same :
      (token : ℕ) (bound : ActiveTokenData)
      → parse_token msg.token ≡ some token
      → Tokens.allocated_from_active tm token ≡ some bound
      → (user == bound.user_identity) ≡ false
      → ¬ IsEntitled tm msg user
  not_same token bound good there other p =
      let same : p.token ≡ token = cc (good, p.named) in
      let same_bound : p.bound ≡ bound =
        cc (there, p.active, ap (Tokens.allocated_from_active tm) same) in
      let hit =
        (string_eq.agrees_iff user bound.user_identity).1
          (p.same_identity ∙ ap (λ (x : ActiveTokenData). x.user_identity) same_bound) in
      cc (other, hit)

module _ {V : Type 0} (engine : JobValidationEngine V) (msg : SetCustomMiningJob) (user : String)
    (jd : JobDeclarator V) where
  -- What the engine says of the job, and the state when it has said so.
  abbrev pub engine_call : ℕ → ActiveTokenData → V × SetCustomMiningJobResult
  engine_call token bound =
      engine.handle_set_custom_mining_job jd.job_validator bound.owner msg bound.allocated_token

  abbrev pub used : ℕ → ActiveTokenData → JobDeclarator V
  used token bound = record jd {
    token_manager = Tokens.deactivate jd.token_manager token;
    job_validator = (engine_call token bound).0;
  }

  -- A custom job reaches the engine exactly when the channel is entitled to its token: the token is
  -- then used up, and the engine, told the owner and the allocated token, decides. In every other
  -- case the answer is a refusal, and nothing changes, so that the token's own channel may retry.
  pub handle_set_custom_mining_job_cases :
      ((e : IsEntitled jd.token_manager msg user) × (handle_set_custom_mining_job engine msg user jd
          ≡ (
            used e.token e.bound,
            custom_response msg.channel_id msg.request_id (engine_call e.token e.bound).1,
          )))
      ⊎ (¬ IsEntitled jd.token_manager msg user
          × (handle_set_custom_mining_job engine msg user jd
              ≡ (jd, refused msg.request_id msg.channel_id invalid_mining_job_token)))
  unfolding handle_set_custom_mining_job
  handle_set_custom_mining_job_cases = elim (Option-cases (parse_token msg.token)) [
    | inl bad ↦ inr (not_named jd.token_manager msg user bad, rw bad refl)
    | inr (token, good) ↦
        elim (Option-cases (Tokens.allocated_from_active jd.token_manager token)) [
          | inl gone ↦
              inr (not_active jd.token_manager msg user token good gone, rw good (rw gone refl))
          | inr (bound, there) ↦ elim (Bool-cases (user == bound.user_identity)) [
            | inl same ↦ inl (
              record {
                token = token;
                bound = bound;
                named = good;
                active = there;
                same_identity = (string_eq.agrees_iff user bound.user_identity).0 same;
              },
              rw good (rw there (rw same refl)),
            )
            | inr other ↦ inr (
              not_same jd.token_manager msg user token bound good there other,
              rw good (rw there (rw other refl)),
            )
          ]
        ]
  ]

module _ {V : Type 0} (engine : JobValidationEngine V) (msg : SetCustomMiningJob) (user : String)
    (jd : JobDeclarator V) where
  pub refused_of_not_entitled :
      ¬ IsEntitled jd.token_manager msg user
      → handle_set_custom_mining_job engine msg user jd
        ≡ (jd, refused msg.request_id msg.channel_id invalid_mining_job_token)
  refused_of_not_entitled out = elim (handle_set_custom_mining_job_cases engine msg user jd) [
    | inl (e, eq) ↦ absurd (out e)
    | inr (n, eq) ↦ eq
  ]

  used_up :
      (again : SetCustomMiningJob) (user' : String) (e : IsEntitled jd.token_manager msg user)
      → again.token ≡ msg.token
      → ¬ IsEntitled (Tokens.deactivate jd.token_manager e.token) again user'
  unfolding Tokens.deactivate Tokens.allocated_from_active
  used_up again user' e same =
      not_active (Tokens.deactivate jd.token_manager e.token) again user' e.token
        (ap parse_token same ∙ e.named)
        (ground (arith, lookup-without e.token e.token jd.token_manager.active_tokens))

-- After a custom job was accepted, the same token is refused to everyone who presents it to the state
-- that is left, and the refusal changes nothing.
pub custom_job_once :
    {V : Type 0} (engine : JobValidationEngine V) (msg again : SetCustomMiningJob)
    (user user' : String) (jd : JobDeclarator V) (channel request job : ℕ)
    → (handle_set_custom_mining_job engine msg user jd).1 ≡ accepted channel request job
    → again.token ≡ msg.token
    → let jd' = (handle_set_custom_mining_job engine msg user jd).0 in
      handle_set_custom_mining_job engine again user' jd'
      ≡ (jd', refused again.request_id again.channel_id invalid_mining_job_token)
custom_job_once {V} engine msg again user user' jd channel request job won same =
    elim (handle_set_custom_mining_job_cases engine msg user jd) [
      | inl (e, eq) ↦ rw eq (
          refused_of_not_entitled engine again user' (used engine msg user jd e.token e.bound)
            (used_up engine msg user jd again user' e same))
      | inr (n, eq) ↦ cc (won, ap (λ (p : JobDeclarator V × SetCustomMiningJobResponse). p.1) eq)
    ]
