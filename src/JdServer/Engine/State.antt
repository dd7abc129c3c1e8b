-- ===== src/JdServer/Engine/State.antt =====
-- `DownstreamState`: the jobs that a client declared, and the allocated token of each.
use sv2_apps_fork.Prelude.{
  ℕ, ◌-◌, ◌≡◌, ◌≢◌, refl, sym, ◌∙◌, Bool, Option, none, some, List, [], ◌∷◌, leb, if◌then◌else◌,
  nat_eq,
}
use sv2_apps_fork.Prelude.Assoc.{
  Assoc, lookup, insert, without, lookup-insert_self, lookup-insert_ne, lookup-without_self,
}
use sv2_apps_fork.JdServer.Messages.{DeclareMiningJob}

pub record ValidationContext : Type 0 where
  pub prev_hash : ℕ
  pub nbits : ℕ

pub record DeclaredCustomJob : Type 0 where
  pub declare_mining_job : DeclareMiningJob
  pub validation_context : ValidationContext
  pub txid_list : Option (List ℕ)
  pub validated : Bool

pub record AllocatedTokenEntry : Type 0 where
  pub request_id : ℕ
  pub inserted_at : ℕ

pub record DownstreamState : Type 0 where
  pub declared_custom_jobs : Assoc ℕ DeclaredCustomJob
  pub allocated_token_entries : Assoc ℕ AllocatedTokenEntry

abbrev pub default : DownstreamState
default = record { declared_custom_jobs = []; allocated_token_entries = [] }

unfoldable pub insert_declared_custom_job :
    ℕ → ℕ → ℕ → DeclaredCustomJob → DownstreamState → DownstreamState
insert_declared_custom_job now request_id allocated_token job s = record {
  declared_custom_jobs = insert request_id job s.declared_custom_jobs;
  allocated_token_entries =
      insert allocated_token (record { request_id = request_id; inserted_at = now })
        s.allocated_token_entries;
}

unfoldable pub remove_declared_custom_job : ℕ → ℕ → DownstreamState → DownstreamState
remove_declared_custom_job request_id allocated_token s = record {
  declared_custom_jobs = without request_id s.declared_custom_jobs;
  allocated_token_entries = without allocated_token s.allocated_token_entries;
}

abbrev pub take_at :
    Option AllocatedTokenEntry → DownstreamState → DownstreamState × Option DeclaredCustomJob
take_at none s = (s, none)
take_at (some entry) s = (
  record s { declared_custom_jobs = without entry.request_id s.declared_custom_jobs },
  lookup entry.request_id s.declared_custom_jobs,
)

unfoldable pub take_declared_custom_job :
    ℕ → DownstreamState → DownstreamState × Option DeclaredCustomJob
take_declared_custom_job allocated_token s =
    take_at (lookup allocated_token s.allocated_token_entries)
      (record s { allocated_token_entries = without allocated_token s.allocated_token_entries })

-- The entries that are kept, and the jobs that are left, of a walk over the entries.
unfoldable pub prune_entries :
    ℕ
    → ℕ
    → Assoc ℕ AllocatedTokenEntry
    → Assoc ℕ DeclaredCustomJob
    → Assoc ℕ AllocatedTokenEntry × Assoc ℕ DeclaredCustomJob
prune_entries now timeout [] jobs = ([], jobs)
prune_entries now timeout ((token, entry) ∷ rest) jobs =
    let fresh = leb (now - entry.inserted_at) timeout in
    let (kept, left) =
      prune_entries now timeout rest (if fresh then jobs else without entry.request_id jobs) in
    (if fresh then (token, entry) ∷ kept else without token kept, left)

unfoldable pub prune_expired_allocations : ℕ → ℕ → DownstreamState → DownstreamState
unfolding prune_entries
prune_expired_allocations now token_timeout s =
    let (kept, left) =
      prune_entries now token_timeout s.allocated_token_entries s.declared_custom_jobs in
    record { declared_custom_jobs = left; allocated_token_entries = kept }

abbrev pub context_of : Option DeclaredCustomJob → Option ValidationContext
context_of none = none
context_of (some job) = some job.validation_context

unfoldable pub validation_context_for_request : ℕ → DownstreamState → Option ValidationContext
validation_context_for_request request_id s = context_of (lookup request_id s.declared_custom_jobs)

-- What a token takes, and that it takes nothing afterwards.
take_lem :
    (token : ℕ) (s : DownstreamState) (entry : AllocatedTokenEntry) (job : DeclaredCustomJob)
    → lookup token s.allocated_token_entries ≡ some entry
    → lookup entry.request_id s.declared_custom_jobs ≡ some job
    → ((take_declared_custom_job token s).1 ≡ some job)
      × ((take_declared_custom_job token (take_declared_custom_job token s).0).1 ≡ none)
unfolding take_declared_custom_job
take_lem token s entry job e j =
    rw e (j, rw (lookup-without_self token s.allocated_token_entries) refl)

-- A stored job is taken by its token, once, and is then gone; a job that was stored under another
-- request and another token in between does not matter.
pub take-insert :
    (now later token token' request_id request_id' : ℕ) (job job' : DeclaredCustomJob)
    (s : DownstreamState)
    → token ≢ token'
    → request_id ≢ request_id'
    → let held =
        insert_declared_custom_job later request_id' token' job'
          (insert_declared_custom_job now request_id token job s) in
      ((take_declared_custom_job token held).1 ≡ some job)
      × ((take_declared_custom_job token (take_declared_custom_job token held).0).1 ≡ none)
unfolding insert_declared_custom_job
take-insert now later token token' request_id request_id' job job' s tokens requests =
    take_lem token _ (record { request_id = request_id; inserted_at = now }) job
      (lookup-insert_ne token' token _ _ (λ e. tokens (sym e))
        ∙ lookup-insert_self token _ s.allocated_token_entries)
      (lookup-insert_ne request_id' request_id job' _ (λ e. requests (sym e))
        ∙ lookup-insert_self request_id job s.declared_custom_jobs)

-- Where a client declares a second job under the request id of a first, taking the first token hands
-- out the second job.
pub take_after_reuse :
    (now later token token' request_id : ℕ) (job job' : DeclaredCustomJob) (s : DownstreamState)
    → token ≢ token'
    → (take_declared_custom_job token (
        insert_declared_custom_job later request_id token' job'
          (insert_declared_custom_job now request_id token job s))).1
      ≡ some job'
unfolding insert_declared_custom_job
take_after_reuse now later token token' request_id job job' s tokens =
    (take_lem token _ (record { request_id = request_id; inserted_at = now }) job'
      (lookup-insert_ne token' token _ _ (λ e. tokens (sym e))
        ∙ lookup-insert_self token _ s.allocated_token_entries)
      (lookup-insert_self request_id job' _)).0
