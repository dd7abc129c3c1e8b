-- ===== src/JdServer/Tokens/Provenance.antt =====
-- Where an active token comes from, and what the clean-ups drop.
use sv2_apps_fork.Prelude.{
  ℕ, ◌-◌, ◌*◌, ◌≡◌, refl, ◌∙◌, String, false, not, Option, none, some, List, [], ◌∷◌, inl, inr, leb,
  if◌then◌else◌, arith, ◌==◌, nat_eq,
}
use mathlib.Core.List.{Memᴰ}
use sv2_apps_fork.Prelude.Assoc.{
  lookup, lookup-retain, lookup_of_retain, lookup_of_without, lookup_of_insert, retained,
}
use sv2_apps_fork.JdServer.Tokens.{
  AllocatedTokenData, ActiveTokenData, TokenManager, Call, allocates, deallocates, activates,
  deactivates, clears, removes_downstream, janitor, new, allocate, deallocate, is_allocated,
  deactivate, allocated_from_active, clear, remove_downstream, janitor_round, step, run,
  allocated_entry, active_entry, from_secs, allocated_token_timeout_secs, active_token_timeout_secs,
}
use sv2_apps_fork.JdServer.Tokens.Freshness.{activated, activate_elim}

-- A token that `allocate` gave out, to whom, and under which identity.
pub record Grant : Type 0 where
  pub token : ℕ
  pub owner : ℕ
  pub user_identity : String

abbrev pub grant_of : TokenManager → ℕ × Call → List Grant → List Grant
grant_of tm (now, allocates d user) rest =
    record { token = tm.token_factory; owner = d; user_identity = user } ∷ rest
grant_of tm _ rest = rest

-- The grants of a run, the newest first.
pub grants : TokenManager → List (ℕ × Call) → List Grant → List Grant
grants tm [] before = before
grants tm (c ∷ cs) before = grants (step tm c) cs (grant_of tm c before)

-- Every token of the manager stands for a grant to its owner, under its identity.
record IsGranted (gs : List Grant) (tm : TokenManager) : Type 0 where
  allocated :
      (t : ℕ) (x : AllocatedTokenData)
      → lookup t tm.allocated_tokens ≡ some x
      → Memᴰ (record { token = t; owner = x.owner; user_identity = x.user_identity }) gs
  active :
      (t : ℕ) (x : ActiveTokenData)
      → lookup t tm.active_tokens ≡ some x
      → Memᴰ
          (record { token = x.allocated_token; owner = x.owner; user_identity = x.user_identity })
          gs

allocate-IsGranted :
    (tm : TokenManager) (now d : ℕ) (user : String) (gs : List Grant)
    → IsGranted gs tm
    → IsGranted (grant_of tm (now, allocates d user) gs) (allocate tm now d user).0
unfolding allocate
allocate-IsGranted tm now d user gs g = record {
  allocated = λ t x h.
      elim (lookup_of_insert tm.token_factory t (allocated_entry now d user) x tm.allocated_tokens
        h) [
          | inl (same, eq) ↦ Memᴰ.head (ground arith)
          | inr old ↦ Memᴰ.tail (g.allocated t x old)
        ];
  active = λ t x h. Memᴰ.tail (g.active t x h);
}

activated-IsGranted :
    (tm : TokenManager) (now token d : ℕ) (entry : AllocatedTokenData) (gs : List Grant)
    → lookup token tm.allocated_tokens ≡ some entry
    → entry.owner ≡ d
    → IsGranted gs tm
    → IsGranted gs (activated tm now token d entry)
activated-IsGranted tm now token d entry gs e mine g = record {
  allocated = λ t x h. g.allocated t x (lookup_of_without token t x tm.allocated_tokens h);
  active = λ t x h.
      elim (lookup_of_insert tm.token_factory t (active_entry token now d entry) x tm.active_tokens
        h) [
          | inl (same, eq) ↦ rw (← eq, ← mine) (g.allocated token entry e)
          | inr old ↦ g.active t x old
        ];
}

step-IsGranted :
    (tm : TokenManager) (c : ℕ × Call) (gs : List Grant)
    → IsGranted gs tm
    → IsGranted (grant_of tm c gs) (step tm c)
unfolding step deallocate deactivate clear remove_downstream janitor_round lookup
step-IsGranted tm (now, allocates d user) gs g = allocate-IsGranted tm now d user gs g
step-IsGranted tm (now, activates t d) gs g =
    activate_elim (IsGranted gs) tm now t d g
      (λ entry e mine. activated-IsGranted tm now t d entry gs e mine g)
step-IsGranted tm (now, deallocates token) gs g = record {
  allocated = λ t x h. g.allocated t x (lookup_of_without token t x tm.allocated_tokens h);
  active = g.active;
}
step-IsGranted tm (now, deactivates token) gs g = record {
  allocated = g.allocated;
  active = λ t x h. g.active t x (lookup_of_without token t x tm.active_tokens h);
}
step-IsGranted tm (now, clears) gs g = record { allocated = λ t x h. cc; active = λ t x h. cc }
step-IsGranted tm (now, removes_downstream d) gs g = record {
  allocated = λ t x h. g.allocated t x (lookup_of_retain _ t x tm.allocated_tokens h).0;
  active = λ t x h. g.active t x (lookup_of_retain _ t x tm.active_tokens h).0;
}
step-IsGranted tm (now, janitor) gs g = record {
  allocated = λ t x h. g.allocated t x (lookup_of_retain _ t x tm.allocated_tokens h).0;
  active = λ t x h. g.active t x (lookup_of_retain _ t x tm.active_tokens h).0;
}

run-IsGranted :
    (tm : TokenManager) (cs : List (ℕ × Call)) (gs : List Grant)
    → IsGranted gs tm
    → IsGranted (grants tm cs gs) (run tm cs)
unfolding run grants
run-IsGranted tm [] gs g = g
run-IsGranted tm (c ∷ cs) gs g =
    run-IsGranted (step tm c) cs (grant_of tm c gs) (step-IsGranted tm c gs g)

new-IsGranted : IsGranted [] new
unfolding new lookup
new-IsGranted = record { allocated = λ t x h. cc; active = λ t x h. cc }

-- After any calls on a new manager, an active token carries an allocated token, an owner and an
-- identity that one call of `allocate` in that history bound together.
pub active_was_granted :
    (cs : List (ℕ × Call)) (active : ℕ) (x : ActiveTokenData)
    → allocated_from_active (run new cs) active ≡ some x
    → Memᴰ
        (record { token = x.allocated_token; owner = x.owner; user_identity = x.user_identity })
        (grants new cs [])
unfolding allocated_from_active
active_was_granted cs active x h = (run-IsGranted new cs [] new-IsGranted).active active x h

abbrev if_other : ℕ → Option ActiveTokenData → Option ActiveTokenData
if_other d none = none
if_other d (some x) = if x.owner == d then none else some x

-- Removing a client drops its tokens, allocated and active, and leaves every other client's.
pub remove_downstream_lem :
    (tm : TokenManager) (d token d' : ℕ)
    → (is_allocated (remove_downstream tm d) token d'
        ≡ (if d' == d then false else is_allocated tm token d'))
      × (allocated_from_active (remove_downstream tm d) token
          ≡ if_other d (allocated_from_active tm token))
unfolding is_allocated allocated_from_active remove_downstream
remove_downstream_lem tm d token d' = (
  ground (arith, lookup-retain (λ _ x. not (x.owner == d)) token tm.allocated_tokens),
  ground (arith, lookup-retain (λ _ x. not (x.owner == d)) token tm.active_tokens),
)

abbrev if_recent : ℕ → Option ActiveTokenData → Option ActiveTokenData
if_recent now none = none
if_recent now (some x) = if leb (now - x.activated_at) (10 * 1000000000) then some x else none

abbrev if_younger : ℕ → Option AllocatedTokenData → Option AllocatedTokenData
if_younger now none = none
if_younger now (some x) = if leb (now - x.allocated_at) (86400 * 1000000000) then some x else none

-- A round of the janitor keeps exactly the active tokens of at most 10 seconds and the allocated
-- tokens of at most 24 hours.
pub janitor_round_lem :
    (tm : TokenManager) (now token : ℕ)
    → (allocated_from_active (janitor_round tm now) token
        ≡ if_recent now (allocated_from_active tm token))
      × (lookup token (janitor_round tm now).allocated_tokens
          ≡ if_younger now (lookup token tm.allocated_tokens))
unfolding allocated_from_active janitor_round
janitor_round_lem tm now token = (
  lookup-retain _ token tm.active_tokens ∙ recent (lookup token tm.active_tokens),
  lookup-retain _ token tm.allocated_tokens ∙ younger (lookup token tm.allocated_tokens),
)
  where
    recent :
        (o : Option ActiveTokenData)
        → retained (λ _ x. leb (now - x.activated_at) (from_secs active_token_timeout_secs)) token o
          ≡ if_recent now o
    recent none = refl
    recent (some x) = refl

    younger :
        (o : Option AllocatedTokenData)
        → retained
            (λ _ x. leb (now - x.allocated_at) (from_secs allocated_token_timeout_secs))
            token
            o
          ≡ if_younger now o
    younger none = refl
    younger (some x) = refl
