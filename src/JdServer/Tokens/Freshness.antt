-- ===== src/JdServer/Tokens/Freshness.antt =====
-- Token numbers: none is given out twice, and an activated token has left the allocated ones.
use sv2_apps_fork.Prelude.{
  ℕ, ◌+◌, ◌≤◌, ◌<◌, ◌≡◌, refl, ◌⊎◌, inl, inr, ◌==◌, Option-cases, Bool-cases, String, none, some,
  List, [], ◌∷◌, length, arith, nat_eq,
}
use sv2_apps_fork.Prelude.Assoc.{
  lookup, lookup-insert, lookup-without, lookup_of_retain, lookup_of_without, retain-none,
  without-none, insert, without,
}
use sv2_apps_fork.JdServer.Tokens.{
  AllocatedTokenData, ActiveTokenData, TokenManager, Call, allocates, deallocates, activates,
  deactivates, clears, removes_downstream, janitor, u64_mod, new, allocate, deallocate, activate,
  deactivate, clear, remove_downstream, janitor_round, step, run, fetch_add, allocated_entry,
  active_entry,
}

pub record IsFresh (tm : TokenManager) : Type 0 where
  pub allocated_below :
      (t : ℕ) (x : AllocatedTokenData)
      → lookup t tm.allocated_tokens ≡ some x
      → t < tm.token_factory
  pub active_below :
      (t : ℕ) (x : ActiveTokenData) → lookup t tm.active_tokens ≡ some x → t < tm.token_factory
  pub apart :
      (t : ℕ) (x : ActiveTokenData)
      → lookup t tm.active_tokens ≡ some x
      → lookup t tm.allocated_tokens ≡ none
  pub spent :
      (t : ℕ) (x : ActiveTokenData)
      → lookup t tm.active_tokens ≡ some x
      → lookup x.allocated_token tm.allocated_tokens ≡ none
  pub spent_below :
      (t : ℕ) (x : ActiveTokenData)
      → lookup t tm.active_tokens ≡ some x
      → x.allocated_token < tm.token_factory

pub new-IsFresh : IsFresh new
unfolding new lookup
new-IsFresh = record {
  allocated_below = λ t x h. cc;
  active_below = λ t x h. cc;
  apart = λ t x h. cc;
  spent = λ t x h. cc;
  spent_below = λ t x h. cc;
}

-- The maps only lose entries, and the counter stays.
record Shrinks (tm tm' : TokenManager) : Type 0 where
  factory : tm'.token_factory ≡ tm.token_factory
  allocated :
      (t : ℕ) (x : AllocatedTokenData)
      → lookup t tm'.allocated_tokens ≡ some x
      → lookup t tm.allocated_tokens ≡ some x
  allocated_none :
      (t : ℕ) → lookup t tm.allocated_tokens ≡ none → lookup t tm'.allocated_tokens ≡ none
  active :
      (t : ℕ) (x : ActiveTokenData)
      → lookup t tm'.active_tokens ≡ some x
      → lookup t tm.active_tokens ≡ some x

Shrinks-IsFresh : {tm tm' : TokenManager} → Shrinks tm tm' → IsFresh tm → IsFresh tm'
Shrinks-IsFresh s f = record {
  allocated_below = λ t x h. ground (arith, s.factory, f.allocated_below t x (s.allocated t x h));
  active_below = λ t x h. ground (arith, s.factory, f.active_below t x (s.active t x h));
  apart = λ t x h. s.allocated_none t (f.apart t x (s.active t x h));
  spent = λ t x h. s.allocated_none x.allocated_token (f.spent t x (s.active t x h));
  spent_below = λ t x h. ground (arith, s.factory, f.spent_below t x (s.active t x h));
}

deallocate-Shrinks : (tm : TokenManager) (token : ℕ) → Shrinks tm (deallocate tm token)
unfolding deallocate
deallocate-Shrinks tm token = record {
  factory = refl;
  allocated = λ t x h. lookup_of_without token t x tm.allocated_tokens h;
  allocated_none = λ t h. without-none token t tm.allocated_tokens h;
  active = λ t x h. h;
}

deactivate-Shrinks : (tm : TokenManager) (token : ℕ) → Shrinks tm (deactivate tm token)
unfolding deactivate
deactivate-Shrinks tm token = record {
  factory = refl;
  allocated = λ t x h. h;
  allocated_none = λ t h. h;
  active = λ t x h. lookup_of_without token t x tm.active_tokens h;
}

clear-Shrinks : (tm : TokenManager) → Shrinks tm (clear tm)
unfolding clear lookup
clear-Shrinks tm = record {
  factory = refl;
  allocated = λ t x h. cc;
  allocated_none = λ t h. refl;
  active = λ t x h. cc;
}

remove_downstream-Shrinks : (tm : TokenManager) (d : ℕ) → Shrinks tm (remove_downstream tm d)
unfolding remove_downstream
remove_downstream-Shrinks tm d = record {
  factory = refl;
  allocated = λ t x h. (lookup_of_retain _ t x tm.allocated_tokens h).0;
  allocated_none = λ t h. retain-none _ t tm.allocated_tokens h;
  active = λ t x h. (lookup_of_retain _ t x tm.active_tokens h).0;
}

janitor_round-Shrinks : (tm : TokenManager) (now : ℕ) → Shrinks tm (janitor_round tm now)
unfolding janitor_round
janitor_round-Shrinks tm now = record {
  factory = refl;
  allocated = λ t x h. (lookup_of_retain _ t x tm.allocated_tokens h).0;
  allocated_none = λ t h. retain-none _ t tm.allocated_tokens h;
  active = λ t x h. (lookup_of_retain _ t x tm.active_tokens h).0;
}

allocate-IsFresh :
    (tm : TokenManager) (now d : ℕ) (user : String)
    → tm.token_factory + 1 < u64_mod
    → IsFresh tm
    → IsFresh (allocate tm now d user).0
unfolding allocate fetch_add
allocate-IsFresh tm now d user room f =
    let old = tm.token_factory in
    record {
      allocated_below = λ t x h. ground (
        arith,
        lookup-insert old t (allocated_entry now d user) tm.allocated_tokens,
        f.allocated_below t x,
      );
      active_below = λ t x h. ground (arith, f.active_below t x h);
      apart = λ t x h. ground (
        arith,
        lookup-insert old t (allocated_entry now d user) tm.allocated_tokens,
        f.apart t x h,
        f.active_below t x h,
      );
      spent = λ t x h. ground (
        arith,
        lookup-insert old x.allocated_token (allocated_entry now d user) tm.allocated_tokens,
        f.spent t x h,
        f.spent_below t x h,
      );
      spent_below = λ t x h. ground (arith, f.spent_below t x h);
    }

-- The new active tokens after a success.
abbrev pub activated : TokenManager → ℕ → ℕ → ℕ → AllocatedTokenData → TokenManager
activated tm now token d entry = record {
  token_factory = fetch_add tm.token_factory;
  allocated_tokens = without token tm.allocated_tokens;
  active_tokens = insert tm.token_factory (active_entry token now d entry) tm.active_tokens;
}

pub activate_cases :
    (tm : TokenManager) (now token d : ℕ)
    → (activate tm now token d ≡ (tm, none))
      ⊎ ((entry : AllocatedTokenData) × (lookup token tm.allocated_tokens ≡ some entry)
          × (entry.owner ≡ d)
          × (activate tm now token d ≡ (activated tm now token d entry, some tm.token_factory)))
unfolding activate
activate_cases tm now token d = elim (Option-cases (lookup token tm.allocated_tokens)) [
  | inl e ↦ inl (rw (e, activate))
  | inr (entry, e) ↦ elim (Bool-cases (entry.owner == d)) [
    | inl mine ↦ inr (entry, e, ground arith, ground arith)
    | inr other ↦ inl (ground arith)
  ]
]

factory_unallocated :
    (tm : TokenManager) → IsFresh tm → lookup tm.token_factory tm.allocated_tokens ≡ none
factory_unallocated tm f = elim (Option-cases (lookup tm.token_factory tm.allocated_tokens)) [
  | inl e ↦ e
  | inr (x, e) ↦ absurd (omega (arith, f.allocated_below tm.token_factory x e))
]

module _ (tm : TokenManager) (now token d : ℕ) (entry : AllocatedTokenData) where
  activated-IsFresh :
      tm.token_factory + 1 < u64_mod
      → lookup token tm.allocated_tokens ≡ some entry
      → IsFresh tm
      → IsFresh (activated tm now token d entry)
  unfolding fetch_add
  activated-IsFresh room e f =
      let old = tm.token_factory in
      record {
        allocated_below = λ t x h.
            ground (arith, lookup-without token t tm.allocated_tokens, f.allocated_below t x);
        active_below = λ t x h. ground (
          arith,
          lookup-insert old t (active_entry token now d entry) tm.active_tokens,
          f.active_below t x,
        );
        apart = λ t x h. ground (
          arith,
          lookup-insert old t (active_entry token now d entry) tm.active_tokens,
          lookup-without token t tm.allocated_tokens,
          f.apart t x,
          factory_unallocated tm f,
        );
        spent = λ t x h. ground (
          arith,
          lookup-insert old t (active_entry token now d entry) tm.active_tokens,
          lookup-without token x.allocated_token tm.allocated_tokens,
          f.spent t x,
        );
        spent_below = λ t x h. ground (
          arith,
          lookup-insert old t (active_entry token now d entry) tm.active_tokens,
          f.allocated_below token entry,
          f.spent_below t x,
        );
      }

pub activate_mine :
    (tm : TokenManager) (now token d : ℕ) (entry : AllocatedTokenData)
    → lookup token tm.allocated_tokens ≡ some entry
    → entry.owner ≡ d
    → activate tm now token d ≡ (activated tm now token d entry, some tm.token_factory)
unfolding activate
activate_mine tm now token d entry e mine = rw (e, activate) (ground arith)

-- A state property at an activation: of the old manager, and of the new one on a success.
pub activate_elim {ℓ} :
    (P : TokenManager → Type ℓ) (tm : TokenManager) (now token d : ℕ)
    → P tm
    → ((entry : AllocatedTokenData)
        → lookup token tm.allocated_tokens ≡ some entry
        → entry.owner ≡ d
        → P (activated tm now token d entry))
    → P (activate tm now token d).0
activate_elim P tm now token d old fresh = elim (activate_cases tm now token d) [
  | inl e ↦ rw e old
  | inr (entry, e, mine, done) ↦ rw done (fresh entry e mine)
]

activate-IsFresh :
    (tm : TokenManager) (now token d : ℕ)
    → tm.token_factory + 1 < u64_mod
    → IsFresh tm
    → IsFresh (activate tm now token d).0
activate-IsFresh tm now token d room f =
    activate_elim IsFresh tm now token d f
      λ entry e mine. activated-IsFresh tm now token d entry room e f

pub step-IsFresh :
    (tm : TokenManager) (c : ℕ × Call)
    → tm.token_factory + 1 < u64_mod
    → IsFresh tm
    → IsFresh (step tm c)
unfolding step
step-IsFresh tm (now, allocates d user) room f = allocate-IsFresh tm now d user room f
step-IsFresh tm (now, deallocates token) room f = Shrinks-IsFresh (deallocate-Shrinks tm token) f
step-IsFresh tm (now, activates token d) room f = activate-IsFresh tm now token d room f
step-IsFresh tm (now, deactivates token) room f = Shrinks-IsFresh (deactivate-Shrinks tm token) f
step-IsFresh tm (now, clears) room f = Shrinks-IsFresh (clear-Shrinks tm) f
step-IsFresh tm (now, removes_downstream d) room f =
    Shrinks-IsFresh (remove_downstream-Shrinks tm d) f
step-IsFresh tm (now, janitor) room f = Shrinks-IsFresh (janitor_round-Shrinks tm now) f

-- One call moves the counter by at most one, as long as it does not wrap.
pub token_factory-step :
    (tm : TokenManager) (c : ℕ × Call)
    → tm.token_factory + 1 < u64_mod
    → (tm.token_factory ≤ (step tm c).token_factory)
      × ((step tm c).token_factory ≤ tm.token_factory + 1)
unfolding step allocate deallocate deactivate clear remove_downstream janitor_round fetch_add
token_factory-step tm (now, activates token d) room =
    activate_elim
      (λ q. (tm.token_factory ≤ q.token_factory) × (q.token_factory ≤ tm.token_factory + 1)) tm now
      token d (omega arith) (λ entry e mine. omega arith)
token_factory-step tm (now, allocates d user) room = omega arith
token_factory-step tm (now, deallocates token) room = omega arith
token_factory-step tm (now, deactivates token) room = omega arith
token_factory-step tm (now, clears) room = omega arith
token_factory-step tm (now, removes_downstream d) room = omega arith
token_factory-step tm (now, janitor) room = omega arith

-- What every call keeps while the counter is below its bound holds after any calls.
pub run_induction :
    (P : TokenManager → Type 0)
    → ((tm : TokenManager) (c : ℕ × Call) → tm.token_factory + 1 < u64_mod → P tm → P (step tm c))
    → (cs : List (ℕ × Call)) (tm : TokenManager) → tm.token_factory + length cs < u64_mod
    → P tm
    → P (run tm cs)
unfolding run
run_induction P keeps [] tm room p = p
run_induction P keeps (c ∷ cs) tm room p =
    run_induction P keeps cs (step tm c) (omega (arith, token_factory-step tm c (omega arith)))
      (keeps tm c (omega arith) p)

-- After any calls on a new manager, fewer than 2 ^ 64, every token is below the counter, no token is
-- both allocated and active, and the token that an active one came from is allocated no more.
pub run-IsFresh : (cs : List (ℕ × Call)) → length cs < u64_mod → IsFresh (run new cs)
unfolding new
run-IsFresh cs room = run_induction IsFresh step-IsFresh cs new (omega arith) new-IsFresh
