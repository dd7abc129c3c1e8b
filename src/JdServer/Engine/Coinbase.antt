-- ===== src/JdServer/Engine/Coinbase.antt =====
-- `DeclaredCustomJob::get_coinbase_tx`. The codec of bitcoin is a parameter. A `usize` has 64 bits,
-- and a subtraction below zero wraps, as in a release build.
use sv2_apps_fork.Prelude.{
  ℕ, zero, suc, ◌+◌, ◌-◌, ◌%◌, ◌^◌, ◌≤◌, ◌<◌, ◌≡◌, refl, true, false, Option, none, some, ◌⊎◌, inl,
  inr, List, [], ◌∷◌, ◌++◌, length, ltb, leb, if◌then◌else◌, arith,
}

pub record TxIn : Type 0 where
  pub script_sig : List ℕ
  pub sequence : ℕ

pub record Transaction : Type 0 where
  pub version : ℕ
  pub input : List TxIn
  -- the outputs as bitcoin serialises them
  pub output : List ℕ
  pub lock_time : ℕ

-- The parts of the `bitcoin` crate that the engine calls.
pub record BitcoinCodec : Type 0 where
  -- `VarInt::consensus_decode` at the start of the bytes
  pub decode_varint : List ℕ → Option ℕ
  -- `VarInt::size`
  pub varint_size : ℕ → ℕ
  -- `Transaction::consensus_decode`
  pub decode_transaction : List ℕ → Option Transaction
  -- `Transaction::compute_txid`
  pub compute_txid : Transaction → ℕ
  -- the hash of two nodes of a merkle tree
  pub hash_nodes : ℕ → ℕ → ℕ

-- A call returns, returns `Err(())`, or panics.
pub data Outcome {ℓ} (A : Type ℓ) : Type ℓ where
  done : A → Outcome A
  failed : Outcome A
  panicked : Outcome A

abbrev pub coinbase_prefix_len : ℕ
coinbase_prefix_len = 43

abbrev pub usize_mod : ℕ
usize_mod = 2 ^ 64

-- The longest `Vec` of bytes, `isize::MAX`; a longer one panics with "capacity overflow".
abbrev pub isize_max : ℕ
isize_max = 2 ^ 63 - 1

abbrev pub wrapping_sub : ℕ → ℕ → ℕ
wrapping_sub a b = (a + usize_mod - b) % usize_mod

unfoldable pub zeros : ℕ → List ℕ
zeros zero = []
zeros (suc n) = 0 ∷ zeros n

unfoldable pub drop : ℕ → List ℕ → List ℕ
drop zero xs = xs
drop (suc n) [] = []
drop (suc n) (x ∷ xs) = drop n xs

module _ (codec : BitcoinCodec) where
  abbrev or_failed : Option Transaction → Outcome Transaction
  or_failed none = failed
  or_failed (some tx) = done tx

  -- The extranonce that fills up the script, from the script's size.
  unfoldable pub full_extranonce_size : List ℕ → ℕ → ℕ
  full_extranonce_size prefix script_sig_size =
      let script_sig_offset = coinbase_prefix_len + codec.varint_size script_sig_size in
      wrapping_sub script_sig_size (wrapping_sub (length prefix) script_sig_offset)

  abbrev pub with_size : List ℕ → List ℕ → Option ℕ → Outcome Transaction
  with_size prefix suffix none = failed
  with_size prefix suffix (some script_sig_size) =
      let size = full_extranonce_size prefix script_sig_size in
      let decoded = or_failed (codec.decode_transaction (prefix ++ (zeros size ++ suffix))) in
      if leb size isize_max then decoded else panicked

  unfoldable pub get_coinbase_tx : List ℕ → List ℕ → Outcome Transaction
  unfolding drop
  get_coinbase_tx prefix suffix =
      if ltb (length prefix) coinbase_prefix_len
      then panicked
      else with_size prefix suffix (codec.decode_varint (drop coinbase_prefix_len prefix))

  -- A prefix that holds a size and no more of the script than that size is completed by zeros to a
  -- script of exactly that size, and then decoded.
  pub get_coinbase_tx_lem :
      (prefix suffix : List ℕ) (size : ℕ)
      → codec.decode_varint (drop coinbase_prefix_len prefix) ≡ some size
      → coinbase_prefix_len + codec.varint_size size ≤ length prefix
      → length prefix ≤ coinbase_prefix_len + codec.varint_size size + size
      → length prefix < usize_mod
      → size ≤ isize_max
      → get_coinbase_tx prefix suffix
        ≡ or_failed (
            codec.decode_transaction (
              prefix
              ++ (zeros (coinbase_prefix_len + codec.varint_size size + size - length prefix)
                  ++ suffix)))
  unfolding get_coinbase_tx full_extranonce_size
  get_coinbase_tx_lem prefix suffix size decodes from upto small fits =
      let missing = coinbase_prefix_len + codec.varint_size size + size - length prefix in
      let same : full_extranonce_size prefix size ≡ missing = omega arith in
      let long : ltb (length prefix) coinbase_prefix_len ≡ false = ground arith in
      let short : leb missing isize_max ≡ true = ground arith in
      rw (decodes, same, long, short) refl

  -- A prefix of fewer than 43 bytes panics, and so does one that holds more of the script than its
  -- size, whatever the suffix is.
  pub get_coinbase_tx_panics :
      (prefix suffix : List ℕ) (size : ℕ)
      → (length prefix < coinbase_prefix_len)
        ⊎ ((codec.decode_varint (drop coinbase_prefix_len prefix) ≡ some size)
            × (coinbase_prefix_len + codec.varint_size size + size < length prefix))
      → length prefix < 2 ^ 32
      → get_coinbase_tx prefix suffix ≡ panicked
  unfolding get_coinbase_tx full_extranonce_size
  get_coinbase_tx_panics prefix suffix size (inl short) small =
      let is_short : ltb (length prefix) coinbase_prefix_len ≡ true = ground arith in
      rw is_short refl
  get_coinbase_tx_panics prefix suffix size (inr (decodes, over)) small =
      let long : ltb (length prefix) coinbase_prefix_len ≡ false = ground arith in
      let huge : leb (full_extranonce_size prefix size) isize_max ≡ false = ground arith in
      rw (decodes, long, huge) refl
