-- ===== src/JdServer/Tokens.antt =====
-- pool-apps/jd-server/src/lib/job_declarator/token_management/mod.rs: the tokens of the Job
-- Declaration Protocol. A method that locks the shared maps returns the new manager; the clock is an
-- argument, in nanoseconds. Log lines are left out.
pub mod Freshness
pub mod SingleUse
pub mod Provenance
use sv2_apps_fork.Prelude.{
  ℕ, ◌+◌, ◌-◌, ◌*◌, ◌%◌, ◌^◌, String, Bool, true, false, not, Option, none, some, List, [], ◌∷◌,
  leb, if◌then◌else◌, ◌==◌, nat_eq,
}
use sv2_apps_fork.Prelude.Assoc.{Assoc, lookup, insert, without, retain}

-- `Duration::from_secs`.
abbrev pub from_secs : ℕ → ℕ
from_secs n = n * 1000000000

abbrev pub temporary_timeout_multiplier : ℕ
temporary_timeout_multiplier = 144

abbrev pub allocated_token_timeout_secs : ℕ
allocated_token_timeout_secs = temporary_timeout_multiplier * 60 * 10

abbrev pub active_token_timeout_secs : ℕ
active_token_timeout_secs = 10

abbrev pub u64_mod : ℕ
u64_mod = 2 ^ 64

pub record AllocatedTokenData : Type 0 where
  pub allocated_at : ℕ
  pub owner : ℕ
  pub user_identity : String

pub record ActiveTokenData : Type 0 where
  pub allocated_token : ℕ
  pub activated_at : ℕ
  pub owner : ℕ
  pub user_identity : String

pub record TokenManager : Type 0 where
  pub token_factory : ℕ
  pub allocated_tokens : Assoc ℕ AllocatedTokenData
  pub active_tokens : Assoc ℕ ActiveTokenData

unfoldable pub new : TokenManager
new = record { token_factory = 0; allocated_tokens = []; active_tokens = [] }

-- `AtomicU64::fetch_add(1)`, which wraps.
unfoldable pub fetch_add : ℕ → ℕ
fetch_add n = (n + 1) % u64_mod

abbrev pub allocated_entry : ℕ → ℕ → String → AllocatedTokenData
allocated_entry now downstream_id user_identity = record {
  allocated_at = now;
  owner = downstream_id;
  user_identity = user_identity;
}

abbrev pub active_entry : ℕ → ℕ → ℕ → AllocatedTokenData → ActiveTokenData
active_entry allocated_token now downstream_id entry = record {
  allocated_token = allocated_token;
  activated_at = now;
  owner = downstream_id;
  user_identity = entry.user_identity;
}

unfoldable pub allocate : TokenManager → ℕ → ℕ → String → TokenManager × ℕ
unfolding fetch_add
allocate tm now downstream_id user_identity =
    let token = tm.token_factory in
    let entry : AllocatedTokenData = record {
      allocated_at = now;
      owner = downstream_id;
      user_identity = user_identity;
    } in
    (
      record tm {
        token_factory = fetch_add tm.token_factory;
        allocated_tokens = insert token entry tm.allocated_tokens;
      },
      token,
    )

unfoldable pub deallocate : TokenManager → ℕ → TokenManager
deallocate tm token = record tm { allocated_tokens = without token tm.allocated_tokens }

abbrev owned_by : ℕ → Option AllocatedTokenData → Bool
owned_by downstream_id none = false
owned_by downstream_id (some entry) = entry.owner == downstream_id

unfoldable pub is_allocated : TokenManager → ℕ → ℕ → Bool
is_allocated tm token downstream_id = owned_by downstream_id (lookup token tm.allocated_tokens)

-- `SharedMap::remove_if`: the entry that was taken out, where the test holds of it.
abbrev pub remove_if :
    (AllocatedTokenData → Bool)
    → ℕ
    → Assoc ℕ AllocatedTokenData
    → Option (AllocatedTokenData × Assoc ℕ AllocatedTokenData)
remove_if p token m = elim (lookup token m) [
  | none ↦ none
  | some entry ↦ if p entry then some (entry, without token m) else none
]

unfoldable pub activate : TokenManager → ℕ → ℕ → ℕ → TokenManager × Option ℕ
unfolding fetch_add
activate tm now allocated_token downstream_id =
    elim (remove_if (λ entry. entry.owner == downstream_id) allocated_token tm.allocated_tokens) [
      | none ↦ (tm, none)
      | some (entry, rest) ↦
          let activated_token = tm.token_factory in
          let active : ActiveTokenData = record {
            allocated_token = allocated_token;
            activated_at = now;
            owner = downstream_id;
            user_identity = entry.user_identity;
          } in
          (
            record {
              token_factory = fetch_add tm.token_factory;
              allocated_tokens = rest;
              active_tokens = insert activated_token active tm.active_tokens;
            },
            some activated_token,
          )
    ]

unfoldable pub deactivate : TokenManager → ℕ → TokenManager
deactivate tm active_token = record tm { active_tokens = without active_token tm.active_tokens }

unfoldable pub allocated_from_active : TokenManager → ℕ → Option ActiveTokenData
allocated_from_active tm active_token = lookup active_token tm.active_tokens

unfoldable pub clear : TokenManager → TokenManager
clear tm = record tm { allocated_tokens = []; active_tokens = [] }

unfoldable pub remove_downstream : TokenManager → ℕ → TokenManager
remove_downstream tm downstream_id = record tm {
  allocated_tokens = retain (λ _ entry. not (entry.owner == downstream_id)) tm.allocated_tokens;
  active_tokens = retain (λ _ entry. not (entry.owner == downstream_id)) tm.active_tokens;
}

-- One round of the janitor task: `Instant::duration_since` stops at 0, as `-` does.
unfoldable pub janitor_round : TokenManager → ℕ → TokenManager
janitor_round tm now = record tm {
  allocated_tokens =
      retain (λ _ entry. leb (now - entry.allocated_at) (from_secs allocated_token_timeout_secs))
        tm.allocated_tokens;
  active_tokens =
      retain (λ _ entry. leb (now - entry.activated_at) (from_secs active_token_timeout_secs))
        tm.active_tokens;
}

-- What the tasks that share the manager do to it, one call at a time.
pub data Call : Type 0 where
  allocates : ℕ → String → Call
  deallocates : ℕ → Call
  activates : ℕ → ℕ → Call
  deactivates : ℕ → Call
  clears : Call
  removes_downstream : ℕ → Call
  janitor : Call

unfoldable pub step : TokenManager → ℕ × Call → TokenManager
step tm (now, allocates downstream_id user_identity) =
    (allocate tm now downstream_id user_identity).0
step tm (now, deallocates token) = deallocate tm token
step tm (now, activates token downstream_id) = (activate tm now token downstream_id).0
step tm (now, deactivates token) = deactivate tm token
step tm (now, clears) = clear tm
step tm (now, removes_downstream downstream_id) = remove_downstream tm downstream_id
step tm (now, janitor) = janitor_round tm now

unfoldable pub run : TokenManager → List (ℕ × Call) → TokenManager
run tm [] = tm
run tm (c ∷ cs) = run (step tm c) cs
