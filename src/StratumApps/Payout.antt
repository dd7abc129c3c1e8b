-- ===== src/StratumApps/Payout.antt =====
-- stratum-apps/src/payout.rs: payout modes, the coinbase outputs that a pool builds for them, and
-- the check of outputs by a miner's proxy. Sums and products of satoshis wrap at 2 ^ 64. What turns
-- a descriptor into a script, and tells an OP_RETURN script, are parameters.
pub mod Percentages
pub mod Parse
pub mod Identities
pub mod RoundTrip
use sv2_apps_fork.Prelude.{
  ℕ, zero, suc, ◌+◌, ◌-◌, ◌*◌, ◌/◌, ◌%◌, ◌^◌, ◌≡◌, Bool, true, false, not, Option, none, some, List,
  [], ◌∷◌, ◌++◌, ltb, if◌then◌else◌, ◌==◌, nat_eq, list_eq, KeyEq, ◌↔◌, arith, ◌&&◌,
}
use sv2_apps_fork.Prelude.Equality.{list_agrees_iff}
use sv2_apps_fork.JdServer.Messages.{TxOut}
use sv2_apps_fork.JdServer.Engine.Coinbase.{zeros}

abbrev pub u64_mod : ℕ
u64_mod = 2 ^ 64

abbrev pub min_legacy_solo_payout_percentage : ℕ
min_legacy_solo_payout_percentage = 90

abbrev pub Script : Type 0
Script = List ℕ

abbrev pub Text : Type 0
Text = List ℕ

pub data PayoutMode : Type 0 where
  solo : (address : Text) (script : Script) → PayoutMode
  legacy_solo : (address : Text) (script : Script) → PayoutMode
  donate : (percentage : ℕ) (address : Text) (script : Script) → PayoutMode
  full_donation : PayoutMode

pub data Validation : Type 0 where
  valid : Validation
  no_spendable_outputs : Validation
  payout_mismatch :
      (address : Text) (expected_sats expected_percentage total_spendable_sats actual_sats : ℕ)
      → Validation

abbrev pub tx_out : ℕ → Script → TxOut
tx_out value script = record { value = value; script_pubkey = script }

-- The pool's part of a value.
abbrev pub pool_sats : ℕ → ℕ → ℕ
pool_sats total percentage = (total * percentage) % u64_mod / 100

unfoldable pub coinbase_outputs : PayoutMode → ℕ → Script → List TxOut
coinbase_outputs (solo address script) total_value pool_script = tx_out total_value script ∷ []
coinbase_outputs (legacy_solo address script) total_value pool_script =
    tx_out total_value script ∷ []
coinbase_outputs (donate percentage address script) total_value pool_script =
    let pool_value = pool_sats total_value percentage in
    tx_out pool_value pool_script ∷ tx_out (total_value - pool_value) script ∷ []
coinbase_outputs full_donation total_value pool_script = tx_out total_value pool_script ∷ []

pub scripts_iff : (a b : List ℕ) → (a == b ≡ true) ↔ (a ≡ b)
scripts_iff a b = list_agrees_iff a b

abbrev tx_out_agrees : TxOut → TxOut → Bool
tx_out_agrees a b = a.value == b.value && a.script_pubkey == b.script_pubkey

pub tx_out_agrees_iff : (a b : TxOut) → (tx_out_agrees a b ≡ true) ↔ (a ≡ b)
tx_out_agrees_iff a b = ground (arith, scripts_iff a.script_pubkey b.script_pubkey)

instance abbrev pub tx_out_eq : KeyEq TxOut
tx_out_eq = record { agrees = tx_out_agrees; agrees_iff = tx_out_agrees_iff }

unfoldable pub has_same_coinbase_outputs_as : PayoutMode → PayoutMode → Script → Bool
has_same_coinbase_outputs_as mode other pool_script =
    coinbase_outputs mode 100 pool_script == coinbase_outputs other 100 pool_script

abbrev pub miner_script_pubkey : PayoutMode → Option (Text × Script)
miner_script_pubkey (solo address script) = some (address, script)
miner_script_pubkey (legacy_solo address script) = some (address, script)
miner_script_pubkey (donate percentage address script) = some (address, script)
miner_script_pubkey full_donation = none

abbrev pub expected_miner_percentage : PayoutMode → ℕ
expected_miner_percentage (solo address script) = 100
expected_miner_percentage (legacy_solo address script) = 100
expected_miner_percentage (donate percentage address script) = 100 - percentage
expected_miner_percentage full_donation = 0

abbrev pub expected_miner_sats : PayoutMode → ℕ → ℕ
expected_miner_sats (solo address script) total = total
expected_miner_sats (legacy_solo address script) total = total
expected_miner_sats (donate percentage address script) total = total - pool_sats total percentage
expected_miner_sats full_donation total = 0

-- `div_ceil(100)`
abbrev pub expected_legacy_solo_miner_sats : ℕ → ℕ
expected_legacy_solo_miner_sats total =
    ((total * min_legacy_solo_payout_percentage) % u64_mod + 99) / 100

module _ (is_op_return : Script → Bool) where
  -- The sum of the outputs that are spendable and pass the test.
  abbrev pub spendable_sats : (Script → Bool) → List TxOut → ℕ
  spendable_sats test [] = 0
  spendable_sats test (out ∷ outputs) =
      let rest = spendable_sats test outputs in
      if not (is_op_return out.script_pubkey) && test out.script_pubkey
      then (out.value + rest) % u64_mod
      else rest

  -- The comparison with what is expected: at least that in the legacy mode, else exactly that.
  abbrev pub check_miner : PayoutMode → Text → ℕ → ℕ → Validation
  check_miner (legacy_solo a s) address total actual =
      let expected = expected_legacy_solo_miner_sats total in
      if ltb actual expected
      then payout_mismatch address expected min_legacy_solo_payout_percentage total actual
      else valid
  check_miner (solo a s) address total actual =
      if actual == total then valid else payout_mismatch address total 100 total actual
  check_miner (donate p a s) address total actual =
      let expected = expected_miner_sats (donate p a s) total in
      if actual == expected
      then valid
      else payout_mismatch address expected (expected_miner_percentage (donate p a s)) total actual
  check_miner full_donation address total actual =
      if actual == 0 then valid else payout_mismatch address 0 0 total actual

  abbrev pub validate_miner : PayoutMode → Option (Text × Script) → List TxOut → Validation
  validate_miner mode none outputs = valid
  validate_miner mode (some (address, script)) outputs =
      let total = spendable_sats (λ s. true) outputs in
      if total == 0
      then no_spendable_outputs
      else check_miner mode address total (spendable_sats (λ s. s == script) outputs)

  unfoldable pub validate_coinbase_outputs : PayoutMode → List TxOut → Validation
  validate_coinbase_outputs mode outputs = validate_miner mode (miner_script_pubkey mode) outputs

  pub data PartsValidation : Type 0 where
    validated : Validation → PartsValidation
    decode_coinbase_transaction : PartsValidation

  abbrev pub validate_decoded : PayoutMode → Option (List TxOut) → PartsValidation
  validate_decoded mode none = decode_coinbase_transaction
  validate_decoded mode (some outputs) = validated (validate_coinbase_outputs mode outputs)

  -- `deserialize`, down to the outputs, is the first argument.
  unfoldable pub validate_coinbase_tx_parts :
      (List ℕ → Option (List TxOut)) → List ℕ → List ℕ → ℕ → PayoutMode → PartsValidation
  unfolding validate_coinbase_outputs
  validate_coinbase_tx_parts deserialize prefix suffix full_extranonce_size mode =
      validate_decoded mode (deserialize (prefix ++ (zeros full_extranonce_size ++ suffix)))
