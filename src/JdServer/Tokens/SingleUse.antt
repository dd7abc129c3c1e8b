-- ===== src/JdServer/Tokens/SingleUse.antt =====
-- A token is activated at most once, and what an activation hands over.
use sv2_apps_fork.Prelude.{
  ℕ, ◌+◌, ◌<◌, ◌≡◌, ◌≢◌, refl, inl, inr, false, none, some, List, length, arith, nat_eq,
}
use sv2_apps_fork.Prelude.Assoc.{lookup, lookup-insert, lookup-without, retain-none}
use sv2_apps_fork.JdServer.Tokens.{
  AllocatedTokenData, TokenManager, Call, allocates, deallocates, activates, deactivates, clears,
  removes_downstream, janitor, u64_mod, allocate, deallocate, is_allocated, activate, deactivate,
  allocated_from_active, clear, remove_downstream, janitor_round, step, run, fetch_add,
  allocated_entry, active_entry,
}
use sv2_apps_fork.JdServer.Tokens.Freshness.{
  IsFresh, activated, activate_cases, activate_elim, run_induction,
}

-- The token was handed out, and is not allocated.
pub record IsBurned (token : ℕ) (tm : TokenManager) : Type 0 where
  pub below : token < tm.token_factory
  pub gone : lookup token tm.allocated_tokens ≡ none

step-IsBurned :
    (token : ℕ) (tm : TokenManager) (c : ℕ × Call)
    → tm.token_factory + 1 < u64_mod
    → IsBurned token tm
    → IsBurned token (step tm c)
unfolding step allocate deallocate deactivate clear remove_downstream janitor_round fetch_add lookup
step-IsBurned token tm (now, allocates d user) room b = record {
  below = omega arith;
  gone = ground (
    arith,
    lookup-insert tm.token_factory token (allocated_entry now d user) tm.allocated_tokens,
  );
}
step-IsBurned token tm (now, activates t d) room b =
    activate_elim (IsBurned token) tm now t d b λ entry e mine. record {
      below = omega arith;
      gone = ground (arith, lookup-without t token tm.allocated_tokens);
    }
step-IsBurned token tm (now, deallocates t) room b = record {
  below = b.below;
  gone = ground (arith, lookup-without t token tm.allocated_tokens);
}
step-IsBurned token tm (now, deactivates t) room b = record { below = b.below; gone = b.gone }
step-IsBurned token tm (now, clears) room b = record { below = b.below; gone = refl }
step-IsBurned token tm (now, removes_downstream d) room b = record {
  below = b.below;
  gone = retain-none _ token tm.allocated_tokens b.gone;
}
step-IsBurned token tm (now, janitor) room b = record {
  below = b.below;
  gone = retain-none _ token tm.allocated_tokens b.gone;
}

activate_burned :
    (tm : TokenManager) (now token d : ℕ) → IsBurned token tm → (activate tm now token d).1 ≡ none
unfolding activate
activate_burned tm now token d b = rw (b.gone, activate)

module _ (tm : TokenManager) (now token d : ℕ) (entry : AllocatedTokenData) where
  activated-IsBurned :
      tm.token_factory + 1 < u64_mod
      → IsFresh tm
      → lookup token tm.allocated_tokens ≡ some entry
      → IsBurned token (activated tm now token d entry)
  unfolding fetch_add
  activated-IsBurned room f e = record {
    below = omega (arith, f.allocated_below token entry e);
    gone = ground (arith, lookup-without token token tm.allocated_tokens);
  }

-- What an activation hands over.
pub record Handed (tm tm' : TokenManager) (now token d active : ℕ) : Type 0 where
  pub entry : AllocatedTokenData
  pub was_allocated : lookup token tm.allocated_tokens ≡ some entry
  pub was_mine : entry.owner ≡ d
  pub is_new : active ≢ token
  pub leads_back : allocated_from_active tm' active ≡ some (active_entry token now d entry)
  pub is_burned : IsBurned token tm'

activate-Handed :
    (tm tm' : TokenManager) (now token d active : ℕ)
    → tm.token_factory + 1 < u64_mod
    → IsFresh tm
    → activate tm now token d ≡ (tm', some active)
    → Handed tm tm' now token d active
unfolding allocated_from_active
activate-Handed tm tm' now token d active room f h = elim (activate_cases tm now token d) [
  | inl e ↦ absurd (ground arith)
  | inr (entry, e, mine, done) ↦
      let same_manager : tm' ≡ activated tm now token d entry = cc in
      let same_token : active ≡ tm.token_factory = cc in
      record {
        entry = entry;
        was_allocated = e;
        was_mine = mine;
        is_new = λ same. omega (arith, f.allocated_below token entry e);
        leads_back =
            rw (same_manager, same_token)
              (ground (
                arith,
                lookup-insert tm.token_factory tm.token_factory (active_entry token now d entry)
                    tm.active_tokens,
              ));
        is_burned = rw same_manager (activated-IsBurned tm now token d entry room f e);
      }
]

-- An activation that succeeds was asked by the client that the token was allocated to, and hands out
-- another token, which leads back to the allocated one, its owner and its identity. While the counter
-- does not wrap, no further calls make the allocated token activate again or count as allocated.
pub activate_once :
    (tm tm' : TokenManager) (now token d active : ℕ) (cs : List (ℕ × Call)) (now' d' : ℕ)
    → tm.token_factory + 1 < u64_mod
    → tm'.token_factory + length cs < u64_mod
    → IsFresh tm
    → activate tm now token d ≡ (tm', some active)
    → Handed tm tm' now token d active
      × ((activate (run tm' cs) now' token d').1 ≡ none)
      × (is_allocated (run tm' cs) token d' ≡ false)
unfolding is_allocated
activate_once tm tm' now token d active cs now' d' room later f h =
    let handed = activate-Handed tm tm' now token d active room f h in
    let burned =
      run_induction (IsBurned token) (step-IsBurned token) cs tm' later handed.is_burned in
    (handed, activate_burned (run tm' cs) now' token d' burned, rw burned.gone refl)
