-- ===== src/StratumApps/Payout/Identities.antt =====
-- What is known of a mode that an identity encodes.
use sv2_apps_fork.Prelude.{
  ℕ, ◌*◌, ◌<◌, ◌≡◌, ◌≢◌, subst, Bool, true, false, ◌&&◌, Option, none, some, List, [], ◌∷◌, ltb,
  leb, ◌==◌, nat_eq, list_eq, codes, arith, inl, inr, Bool-cases, Option-cases,
}
use sv2_apps_fork.StratumApps.Payout.{
  Script, Text, PayoutMode, solo, legacy_solo, donate, full_donation, valid, u64_mod,
  coinbase_outputs, validate_coinbase_outputs, spendable_sats,
}
use sv2_apps_fork.StratumApps.Payout.Percentages.{IsRange, PaysApart, coinbase_outputs-valid}
use sv2_apps_fork.StratumApps.Payout.Parse.{
  Parsed, ok, err, before, split, parse_u8, solo_of, donate_by, donate_of, of_parts, try_from,
}

module _ (script_from_address : Text → Option Script) where
  -- The mode's script is that of its address.
  abbrev pub HasScript : PayoutMode → Type 0
  HasScript (solo address script) = script_from_address address ≡ some script
  HasScript (legacy_solo address script) = script_from_address address ≡ some script
  HasScript (donate percentage address script) = script_from_address address ≡ some script
  HasScript full_donation = Unit {0}

  abbrev Sound : Parsed → Type 0
  Sound (ok mode) = IsRange mode × HasScript mode
  Sound (err e) = Unit {0}

  solo_of-Sound : (id : Text) (parts : List Text) → Sound (solo_of script_from_address id parts)
  solo_of-Sound id [] = tt
  solo_of-Sound id (a ∷ rest) = elim (Option-cases (script_from_address a)) [
    | inl e ↦ rw (e) tt
    | inr (s, e) ↦ rw (e) (tt, e)
  ]

  donate_by-Sound : (t a : Text) (o : Option ℕ) → Sound (donate_by script_from_address t a o)
  donate_by-Sound t a none = tt
  donate_by-Sound t a (some p) = elim (Bool-cases (leb 1 p && ltb p 100)) [
    | inl within ↦ rw (within) (elim (Option-cases (script_from_address a)) [
      | inl e ↦ rw (e) tt
      | inr (s, e) ↦ rw (e) ((ground (arith, within), ground (arith, within)), e)
    ])
    | inr outside ↦ rw (outside) tt
  ]

  donate_of-Sound : (parts : List Text) → Sound (donate_of script_from_address parts)
  donate_of-Sound [] = (tt, tt)
  donate_of-Sound (x ∷ []) = (tt, tt)
  donate_of-Sound (x ∷ a ∷ rest) = donate_by-Sound x a (parse_u8 x)

  of_parts-Sound : (id : Text) (parts : List Text) → Sound (of_parts script_from_address id parts)
  unfolding of_parts
  of_parts-Sound id [] = tt
  of_parts-Sound id (x ∷ []) = tt
  of_parts-Sound id (x ∷ y ∷ rest) = elim (Bool-cases (x == codes "sri")) [
    | inl sri ↦ rw (sri) (elim (Bool-cases (y == codes "solo")) [
      | inl e ↦ rw (e) (solo_of-Sound id rest)
      | inr e ↦ rw (e) (elim (Bool-cases (y == codes "donate")) [
        | inl d ↦ rw (d) (donate_of-Sound rest)
        | inr d ↦ rw (d) tt
      ])
    ])
    | inr other ↦ rw (other) tt
  ]

  try_from-Sound : (id : Text) → Sound (try_from script_from_address id)
  unfolding try_from
  try_from-Sound [] = tt
  try_from-Sound (c ∷ cs) =
      let address = before b'.' (c ∷ cs) in
      elim (Option-cases (script_from_address address)) [
        | inl e ↦ rw (e) (of_parts-Sound (c ∷ cs) (split b'/' (c ∷ cs)))
        | inr (s, e) ↦ rw (e) (tt, e)
      ]

  -- A donor's script is not the pool's.
  abbrev pub DonatesElsewhere : Script → PayoutMode → Type 0
  DonatesElsewhere pool_script (solo address script) = Unit {0}
  DonatesElsewhere pool_script (legacy_solo address script) = Unit {0}
  DonatesElsewhere pool_script (donate percentage address script) = pool_script ≢ script
  DonatesElsewhere pool_script full_donation = Unit {0}

  module _ (is_op_return : Script → Bool)
      (spendable : (a : Text) (s : Script)
        → script_from_address a ≡ some s
        → is_op_return s ≡ false) where
    mode-PaysApart :
        (mode : PayoutMode) (pool_script : Script)
        → HasScript mode
        → is_op_return pool_script ≡ false
        → DonatesElsewhere pool_script mode
        → PaysApart is_op_return pool_script mode
    mode-PaysApart (solo a s) pool_script h pool d = spendable a s h
    mode-PaysApart (legacy_solo a s) pool_script h pool d = spendable a s h
    mode-PaysApart (donate p a s) pool_script h pool d = (spendable a s h, pool, d)
    mode-PaysApart full_donation pool_script h pool d = pool

    -- From the identity to the check: whatever mode an identity encodes, the outputs that the pool
    -- builds for it pass the check of the miner's proxy and add up to the whole value, when the
    -- value is positive and 100 times it does not wrap, no address and not the pool has an OP_RETURN
    -- script, and a donor does not pay the pool's own script.
    pub parsed_outputs-valid :
        (id : Text) (mode : PayoutMode) (total : ℕ) (pool_script : Script)
        → try_from script_from_address id ≡ ok mode
        → is_op_return pool_script ≡ false
        → DonatesElsewhere pool_script mode
        → 0 < total
        → total * 100 < u64_mod
        → (validate_coinbase_outputs is_op_return mode (coinbase_outputs mode total pool_script)
            ≡ valid)
          × (spendable_sats is_op_return (λ s. true) (coinbase_outputs mode total pool_script)
              ≡ total)
    parsed_outputs-valid id mode total pool_script parsed pool d positive small =
        let (range, script) : IsRange mode × HasScript mode =
          subst Sound parsed (try_from-Sound id) in
        coinbase_outputs-valid is_op_return mode total pool_script range
          (mode-PaysApart mode pool_script script pool d) positive small
