-- ===== src/JdServer/Declarator/Spent.antt =====
-- Tokens that have served a custom job.
use sv2_apps_fork.Prelude.{ℕ, ◌≡◌, sym, ap, subst, String, List, none, some, nat_eq, inl, inr}
use sv2_apps_fork.Prelude.Assoc.{without-none, lookup-without_self}
use sv2_apps_fork.JdServer.Tokens
use sv2_apps_fork.JdServer.TokenBytes.{parse_token}
use sv2_apps_fork.JdServer.Messages.{
  SetCustomMiningJob, SetCustomMiningJobResponse, accepted, refused, invalid_mining_job_token,
  JobValidationEngine,
}
use sv2_apps_fork.JdServer.Declarator.{JobDeclarator}
use sv2_apps_fork.JdServer.Declarator.Lifecycle.{handle_set_custom_mining_job}
use sv2_apps_fork.JdServer.Declarator.CustomJobs.{
  not_active, refused_of_not_entitled, handle_set_custom_mining_job_cases,
}

module _ {V : Type 0} (engine : JobValidationEngine V) where
  -- The bytes name a token that is not active.
  abbrev pub IsSpent : List ℕ → JobDeclarator V → Type 0
  IsSpent bytes jd =
      (token : ℕ) × (parse_token bytes ≡ some token)
      × (Tokens.allocated_from_active jd.token_manager token ≡ none)

  pub accepted-IsSpent :
      (msg : SetCustomMiningJob) (user : String) (jd : JobDeclarator V) (channel request job : ℕ)
      → (handle_set_custom_mining_job engine msg user jd).1 ≡ accepted channel request job
      → IsSpent msg.token (handle_set_custom_mining_job engine msg user jd).0
  unfolding Tokens.deactivate Tokens.allocated_from_active
  accepted-IsSpent msg user jd channel request job won =
      elim (handle_set_custom_mining_job_cases engine msg user jd) [
        | inl (e, eq) ↦
            subst (λ (x : JobDeclarator V × SetCustomMiningJobResponse). IsSpent msg.token x.0)
              (sym eq)
              (e.token, e.named, lookup-without_self e.token jd.token_manager.active_tokens)
        | inr (n, eq) ↦
            absurd (cc (won, ap (λ (x : JobDeclarator V × SetCustomMiningJobResponse). x.1) eq))
      ]

  -- A custom job makes no token active.
  pub handle_set_custom_mining_job-IsSpent :
      (bytes : List ℕ) (msg : SetCustomMiningJob) (user : String) (jd : JobDeclarator V)
      → IsSpent bytes jd
      → IsSpent bytes (handle_set_custom_mining_job engine msg user jd).0
  unfolding Tokens.deactivate Tokens.allocated_from_active
  handle_set_custom_mining_job-IsSpent bytes msg user jd (token, named, spent) =
      elim (handle_set_custom_mining_job_cases engine msg user jd) [
        | inl (e, eq) ↦
            subst (λ (x : JobDeclarator V × SetCustomMiningJobResponse). IsSpent bytes x.0) (sym eq)
              (token, named, without-none e.token token jd.token_manager.active_tokens spent)
        | inr (n, eq) ↦
            subst (λ (x : JobDeclarator V × SetCustomMiningJobResponse). IsSpent bytes x.0) (sym eq)
              (token, named, spent)
      ]

  pub spent_refused :
      (msg : SetCustomMiningJob) (user : String) (jd : JobDeclarator V)
      → IsSpent msg.token jd
      → handle_set_custom_mining_job engine msg user jd
        ≡ (jd, refused msg.request_id msg.channel_id invalid_mining_job_token)
  spent_refused msg user jd (token, named, spent) =
      refused_of_not_entitled engine msg user jd
        (not_active jd.token_manager msg user token named spent)
