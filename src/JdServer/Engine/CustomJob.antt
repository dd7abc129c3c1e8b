-- ===== src/JdServer/Engine/CustomJob.antt =====
-- `BitcoinCoreIPCEngine::handle_set_custom_mining_job`: a custom job against its declaration.
use sv2_apps_fork.Prelude.{
  ℕ, ◌≡◌, refl, Bool, true, false, Option, none, some, List, [], ◌∷◌, if◌then◌else◌, ◌==◌, nat_eq,
  arith,
}
use sv2_apps_fork.Prelude.Assoc.{lookup, insert}
use sv2_apps_fork.JdServer.Messages.{
  SetCustomMiningJob, ErrorCode, invalid_mining_job_token, stale_chain_tip, invalid_coinbase_tx,
  job_not_yet_validated, invalid_nbits, invalid_version, invalid_coinbase_tx_version,
  invalid_coinbase_prefix, invalid_coinbase_tx_input_n_sequence, invalid_coinbase_tx_outputs,
  invalid_coinbase_tx_locktime, invalid_merkle_path, SetCustomMiningJobResult, custom_success,
  custom_error,
}
use sv2_apps_fork.JdServer.Engine.Coinbase.{
  TxIn, Transaction, BitcoinCodec, Outcome, done, failed, panicked, get_coinbase_tx,
}
use sv2_apps_fork.JdServer.Engine.Merkle.{merkle_branch}
use sv2_apps_fork.JdServer.Engine.State.{
  DeclaredCustomJob, DownstreamState, take_declared_custom_job,
}
use sv2_apps_fork.JdServer.Engine.Handlers.{States}

unfoldable pub bytes_eq : List ℕ → List ℕ → Bool
bytes_eq [] [] = true
bytes_eq [] (y ∷ ys) = false
bytes_eq (x ∷ xs) [] = false
bytes_eq (x ∷ xs) (y ∷ ys) = let rest = bytes_eq xs ys in if x == y then rest else false

-- `starts_with`
unfoldable pub starts_with : List ℕ → List ℕ → Bool
starts_with xs [] = true
starts_with [] (p ∷ ps) = false
starts_with (x ∷ xs) (p ∷ ps) = let rest = starts_with xs ps in if x == p then rest else false

-- A check that returns early.
abbrev pub check :
    Bool → ErrorCode → Outcome SetCustomMiningJobResult → Outcome SetCustomMiningJobResult
check true code rest = rest
check false code rest = done (custom_error code)

module _ (codec : BitcoinCodec) (msg : SetCustomMiningJob) where
  abbrev pub check_merkle_path : Transaction → Option (List ℕ) → Outcome SetCustomMiningJobResult
  check_merkle_path tx none = done (custom_error job_not_yet_validated)
  check_merkle_path tx (some txids) =
      check
        (bytes_eq (merkle_branch codec.hash_nodes (codec.compute_txid tx ∷ txids)) msg.merkle_path)
        invalid_merkle_path (done custom_success)

  -- `input[0]`, which panics where there is none.
  abbrev pub check_input :
      Transaction → List TxIn → Option (List ℕ) → Outcome SetCustomMiningJobResult
  check_input tx [] txids = panicked
  check_input tx (input ∷ _) txids =
      check (starts_with input.script_sig msg.coinbase_prefix) invalid_coinbase_prefix (
        check (input.sequence == msg.coinbase_tx_input_n_sequence)
          invalid_coinbase_tx_input_n_sequence
          (check (bytes_eq tx.output msg.coinbase_tx_outputs) invalid_coinbase_tx_outputs (
            check (tx.lock_time == msg.coinbase_tx_locktime) invalid_coinbase_tx_locktime
              (check_merkle_path tx txids))))

  abbrev pub check_coinbase :
      Outcome Transaction → Option (List ℕ) → Outcome SetCustomMiningJobResult
  check_coinbase failed txids = done (custom_error invalid_coinbase_tx)
  check_coinbase panicked txids = panicked
  check_coinbase (done tx) txids =
      check (tx.version == msg.coinbase_tx_version) invalid_coinbase_tx_version
        (check_input tx tx.input txids)

  unfoldable pub check_job : DeclaredCustomJob → Outcome SetCustomMiningJobResult
  check_job job = check job.validated job_not_yet_validated (
      check (msg.prev_hash == job.validation_context.prev_hash) stale_chain_tip (
        check (msg.nbits == job.validation_context.nbits) invalid_nbits (
          check (msg.version == job.declare_mining_job.version) invalid_version (
            check_coinbase
              (get_coinbase_tx codec job.declare_mining_job.coinbase_tx_prefix
                job.declare_mining_job.coinbase_tx_suffix)
              job.txid_list))))

  abbrev pub check_taken :
      States × Option DeclaredCustomJob → States × Outcome SetCustomMiningJobResult
  check_taken (states, none) = (states, done (custom_error invalid_mining_job_token))
  check_taken (states, some job) = (states, check_job job)

  abbrev pub take_in : ℕ → ℕ → Option DownstreamState → States → States × Option DeclaredCustomJob
  take_in client token none states = (states, none)
  take_in client token (some s) states =
      let (s', job) = take_declared_custom_job token s in (insert client s' states, job)

  unfoldable pub handle_set_custom_mining_job :
      ℕ → ℕ → States → States × Outcome SetCustomMiningJobResult
  unfolding check_job
  handle_set_custom_mining_job client token states =
      check_taken (take_in client token (lookup client states) states)

  -- What a custom job and its declaration agree on.
  pub record Matches (job : DeclaredCustomJob) : Type 0 where
    pub tx : Transaction
    pub input : TxIn
    pub rest : List TxIn
    pub txids : List ℕ
    pub validated : job.validated ≡ true
    pub prev_hash : msg.prev_hash ≡ job.validation_context.prev_hash
    pub nbits : msg.nbits ≡ job.validation_context.nbits
    pub version : msg.version ≡ job.declare_mining_job.version
    pub decodes :
        get_coinbase_tx codec job.declare_mining_job.coinbase_tx_prefix
          job.declare_mining_job.coinbase_tx_suffix
        ≡ done tx
    pub one_input : tx.input ≡ input ∷ rest
    pub coinbase_version : tx.version ≡ msg.coinbase_tx_version
    pub prefix : starts_with input.script_sig msg.coinbase_prefix ≡ true
    pub sequence : input.sequence ≡ msg.coinbase_tx_input_n_sequence
    pub outputs : tx.output ≡ msg.coinbase_tx_outputs
    pub lock_time : tx.lock_time ≡ msg.coinbase_tx_locktime
    pub declared_txids : job.txid_list ≡ some txids
    pub path : merkle_branch codec.hash_nodes (codec.compute_txid tx ∷ txids) ≡ msg.merkle_path

pub bytes_eq_sound : (xs ys : List ℕ) → bytes_eq xs ys ≡ true → xs ≡ ys
unfolding bytes_eq
bytes_eq_sound [] [] h = refl
bytes_eq_sound [] (y ∷ ys) h = cc
bytes_eq_sound (x ∷ xs) [] h = cc
bytes_eq_sound (x ∷ xs) (y ∷ ys) h = ground (arith, bytes_eq_sound xs ys)

pub bytes_eq_refl : (xs : List ℕ) → bytes_eq xs xs ≡ true
unfolding bytes_eq
bytes_eq_refl [] = refl
bytes_eq_refl (x ∷ xs) = ground (arith, bytes_eq_refl xs)

pub check_passed :
    (b : Bool) (code : ErrorCode) (rest : Outcome SetCustomMiningJobResult)
    → check b code rest ≡ done custom_success
    → (b ≡ true) × (rest ≡ done custom_success)
check_passed true code rest h = (refl, h)
check_passed false code rest h = ground arith
