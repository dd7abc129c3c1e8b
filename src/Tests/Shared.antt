-- ===== src/Tests/Shared.antt =====
-- bitcoin-core-sv2's mempool mirror, the translator's job store, and the fallback coordinator.
use sv2_apps_fork.Prelude.{
  ℕ, String, ◌⊎◌, ◌≡◌, ◌≤◌, refl, Bool, true, false, Option, none, some, List, [], ◌∷◌, arith,
}
use sv2_apps_fork.Prelude.Assoc.{lookup}
use sv2_apps_fork.BitcoinCore.Mempool.{
  MempoolMirror, Block, missing, total, add_transactions, resolve_txdata, max_mirror_weight,
}
use sv2_apps_fork.BitcoinCore.Mempool.Bounds.{add_transactions-bounded}
use sv2_apps_fork.BitcoinCore.Mempool.Resolution.{resolve_txdata_lem, found, unresolved, weights}
use sv2_apps_fork.Translator.JobStore
use sv2_apps_fork.Translator.JobStore.{Sv1JobStore, activate, get}
use sv2_apps_fork.Translator.JobStore.Invariant.{IsWellFormed}
use sv2_apps_fork.Translator.JobStore.Activation.{activate-IsWellFormed, new-IsWellFormed}
use sv2_apps_fork.StratumApps.Fallback
use sv2_apps_fork.StratumApps.Fallback.{
  Coordinator, Move, register, fetch_sub, acknowledge, cancel, load, wake, run, step, awaiting,
  returned, register_handler, leave, start_trigger, load_pending, alert_at, alert, pick,
}
use sv2_apps_fork.StratumApps.Fallback.Wakeup.{run-wakes, early_return}

-- A transaction that is its identifier, and weighs a million.
abbrev compute_wtxid : ℕ → ℕ
compute_wtxid tx = tx

abbrev weight : ℕ → ℕ
weight tx = 1000000

abbrev mirror : MempoolMirror ℕ
mirror = record {
  txdata = (1, 1) ∷ [];
  current_prev_hash = some 0;
  current_nbits = none;
  current_ntime = none;
}

abbrev block : Block ℕ
block = record { prev_blockhash = 0; bits = 0; time = 0; txdata = 0 ∷ 2 ∷ [] }

add_transactions-bounded_example :
    total compute_wtxid weight (add_transactions compute_wtxid weight (2 ∷ 3 ∷ []) mirror).txdata
    ≤ max_mirror_weight
unfolding total
add_transactions-bounded_example =
    add_transactions-bounded compute_wtxid weight (2 ∷ 3 ∷ []) mirror (omega arith)

resolve_txdata_lem_example :
    resolve_txdata compute_wtxid weight (1 ∷ 5 ∷ []) [] 4000000 mirror ≡ missing (5 ∷ [])
unfolding found unresolved weights lookup
resolve_txdata_lem_example = resolve_txdata_lem compute_wtxid weight (1 ∷ 5 ∷ []) [] 4000000 mirror

abbrev store : Sv1JobStore ℕ
store = JobStore.new 3 (some 1)

activate-IsWellFormed_example :
    (t : Sv1JobStore ℕ) × (activate 2 "a" 10 false store ≡ some t)
    × IsWellFormed t
    × (get "a" t ≡ some 10)
    × (t.max_past_jobs ≡ store.max_past_jobs)
    × ((k : String) (c : ℕ) → get k t ≡ some c → ((k ≡ "a") × (c ≡ 10)) ⊎ (get k store ≡ some c))
unfolding JobStore.new
activate-IsWellFormed_example =
    activate-IsWellFormed 2 "a" 10 false store (new-IsWellFormed 3 (some 1) (omega arith)).0
      (omega arith)

-- A token that is a flag, and a `Notify` that is its permit.
abbrev notified : Bool → Option Bool
notified true = some false
notified false = none

abbrev start : Coordinator Bool Bool
start = Fallback.new (λ k. true) (λ k. k) (λ n. true) notified false false

-- The trigger waits for one handler, which then finishes.
abbrev moves : List Move
moves = register ∷ cancel ∷ load ∷ fetch_sub ∷ acknowledge 0 ∷ []

abbrev left : Coordinator Bool Bool
left = record {
  signal = true;
  pending_tasks = 0;
  notify = true;
  handlers = 0;
  finishing = [];
  trigger = awaiting;
}

run-wakes_example :
    (n : Bool) × (step (λ k. true) (λ k. k) (λ n. true) notified wake left
      ≡ some (record left { notify = n; trigger = returned }))
unfolding run register_handler leave start_trigger load_pending alert_at alert pick Fallback.new
run-wakes_example =
    run-wakes (λ k. true) (λ k. k) (λ n. true) notified (λ k. refl) (λ n. refl) false false moves
      left refl refl refl refl

early_return_example :
    (s : Coordinator Bool Bool) × (run
        (λ k. true)
        (λ k. k)
        (λ n. true)
        notified
        (register ∷ fetch_sub ∷ register ∷ cancel ∷ load ∷ acknowledge 0 ∷ wake ∷ [])
        start
      ≡ some s)
    × (s.trigger ≡ returned)
    × (s.handlers ≡ 1)
early_return_example =
    early_return (λ k. true) (λ k. k) (λ n. true) notified (λ k. refl) (λ n. refl) false false
