-- ===== src/Tests/Validation.antt =====
-- pool-apps/jd-server/src/lib/job_declarator/job_validation/bitcoin_core_ipc.rs: the engine.
use sv2_apps_fork.Prelude.{ℕ, ◌+◌, ◌≡◌, ◌↔◌, true, none, some, List, [], ◌∷◌, ◌++◌, inl, arith}
use sv2_apps_fork.JdServer.Messages.{custom_success}
use sv2_apps_fork.JdServer.Engine.Coinbase.{
  Transaction, BitcoinCodec, done, panicked, zeros, get_coinbase_tx, get_coinbase_tx_panics,
}
use sv2_apps_fork.JdServer.Engine.Merkle.{
  merkle_branch, MerkleRoot, climb, merkle_branch-MerkleRoot,
}
use sv2_apps_fork.JdServer.Engine.State.{
  DeclaredCustomJob, DownstreamState, insert_declared_custom_job, take_declared_custom_job,
  take_after_reuse,
}
use sv2_apps_fork.JdServer.Engine.CustomJob.{check_job, Matches}
use sv2_apps_fork.JdServer.Engine.Agreement.{check_job-iff-Matches}
use sv2_apps_fork.Tests.Fixture.{declaration, custom}

-- A script's size in one byte, and a transaction that is its bytes.
abbrev codec : BitcoinCodec
codec = record {
  decode_varint = λ bytes. elim bytes [ [] ↦ none | b ∷ bs ↦ some b ];
  varint_size = λ n. 1;
  decode_transaction = λ bytes. some (record {
    version = 2;
    input = record { script_sig = []; sequence = 0 } ∷ [];
    output = [];
    lock_time = 0;
  });
  compute_txid = λ tx. 0;
  hash_nodes = λ a b. a + b;
}

abbrev tx : Transaction
tx = record {
  version = 2;
  input = record { script_sig = []; sequence = 0 } ∷ [];
  output = [];
  lock_time = 0;
}

-- 43 bytes of zeros, a size of 4, and one byte of the script.
abbrev prefix : List ℕ
prefix = zeros 43 ++ (4 ∷ 9 ∷ [])

get_coinbase_tx_panics_example : get_coinbase_tx codec (1 ∷ 0 ∷ []) [] ≡ panicked
get_coinbase_tx_panics_example =
    get_coinbase_tx_panics codec (1 ∷ 0 ∷ []) [] 0 (inl (omega arith)) (omega arith)

merkle_branch-MerkleRoot_example :
    MerkleRoot codec.hash_nodes
      (9 ∷ 2 ∷ 3 ∷ [])
      (climb codec.hash_nodes 9 (merkle_branch codec.hash_nodes (1 ∷ 2 ∷ 3 ∷ [])))
merkle_branch-MerkleRoot_example = merkle_branch-MerkleRoot codec.hash_nodes 1 9 (2 ∷ 3 ∷ [])

abbrev job_of : List ℕ → DeclaredCustomJob
job_of txids = record {
  declare_mining_job = declaration;
  validation_context = record { prev_hash = 0; nbits = 0 };
  txid_list = some txids;
  validated = true;
}

abbrev no_jobs : DownstreamState
no_jobs = record { declared_custom_jobs = []; allocated_token_entries = [] }

take_after_reuse_example :
    (take_declared_custom_job 10 (
      insert_declared_custom_job 1 5 11
        (job_of (2 ∷ []))
        (insert_declared_custom_job 0 5 10 (job_of (1 ∷ [])) no_jobs))).1
    ≡ some (job_of (2 ∷ []))
take_after_reuse_example =
    take_after_reuse 0 1 10 11 5 (job_of (1 ∷ [])) (job_of (2 ∷ [])) no_jobs (omega arith)

check_job-iff-Matches_example :
    (check_job codec custom (job_of []) ≡ done custom_success) ↔ Matches codec custom (job_of [])
check_job-iff-Matches_example = check_job-iff-Matches codec custom (job_of [])
