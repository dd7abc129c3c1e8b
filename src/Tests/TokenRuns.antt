-- ===== src/Tests/TokenRuns.antt =====
-- pool-apps/jd-server/src/lib/job_declarator/token_management/mod.rs: runs of the token manager.
use sv2_apps_fork.Prelude.{ℕ, ◌≡◌, refl, nat_eq, false, none, List, [], ◌∷◌, arith}
use sv2_apps_fork.Prelude.Assoc.{lookup, insert, without}
use mathlib.Core.List.{Memᴰ}
use sv2_apps_fork.JdServer.Tokens.{
  ActiveTokenData, TokenManager, new, activate, is_allocated, remove_downstream, janitor_round,
  allocated_from_active, Call, run, step, allocate, fetch_add,
}
use sv2_apps_fork.JdServer.Tokens.Freshness.{IsFresh, run-IsFresh}
use sv2_apps_fork.JdServer.Tokens.SingleUse.{Handed, activate_once}
use sv2_apps_fork.JdServer.Tokens.Provenance.{grants, active_was_granted}

-- Client 7 is allocated token 0 and activates it as token 1; client 8 is allocated token 2.
abbrev calls : List (ℕ × Call)
calls = (0, Call.allocates 7 "alice") ∷ (1, Call.activates 0 7) ∷ (2, Call.allocates 8 "bob") ∷ []

abbrev bound : ActiveTokenData
bound = record { allocated_token = 0; activated_at = 1; owner = 7; user_identity = "alice" }

run-IsFresh_example : IsFresh (run new calls)
run-IsFresh_example = run-IsFresh calls (omega arith)

abbrev before : TokenManager
before = run new ((0, Call.allocates 7 "alice") ∷ [])

abbrev after_activation : TokenManager
after_activation = (activate before 1 0 7).0

before-IsFresh : IsFresh before
before-IsFresh = run-IsFresh ((0, Call.allocates 7 "alice") ∷ []) (omega arith)

activate_once_example :
    Handed before after_activation 1 0 7 1
    × ((activate (run after_activation ((2, Call.janitor) ∷ [])) 3 0 7).1 ≡ none)
    × (is_allocated (run after_activation ((2, Call.janitor) ∷ [])) 0 7 ≡ false)
unfolding allocated_from_active lookup run step allocate activate insert without new fetch_add
    is_allocated remove_downstream janitor_round
activate_once_example =
    activate_once before after_activation 1 0 7 1 ((2, Call.janitor) ∷ []) 3 7 (omega arith)
      (omega arith) before-IsFresh refl

active_was_granted_example :
    Memᴰ (record { token = 0; owner = 7; user_identity = "alice" }) (grants new calls [])
unfolding allocated_from_active lookup run step allocate activate insert without new fetch_add
    is_allocated remove_downstream janitor_round
active_was_granted_example = active_was_granted calls 1 bound refl
