-- ===== src/Pool/Judged.antt =====
-- What becomes of a share, where exactly the open channels have a vardiff.
use sv2_apps_fork.Prelude.{
  ℕ, ◌≡◌, refl, ap, ◌∙◌, true, false, ◌||◌, ◌==◌, if◌then◌else◌, Option, none, some, List, [], ◌∷◌,
  nat_eq, is_some, arith, ◌⊎◌, Bool-cases, inl, inr,
}
use sv2_apps_fork.Prelude.Tests.{pair_eq}
use sv2_apps_fork.Prelude.Assoc.{Assoc, lookup, adjusted, lookup-adjust}
use sv2_apps_fork.Pool.Messages.{
  SubmitShares, RouteMessageTo, submit_shares_success, submit_shares_error,
  submit_shares_invalid_channel_id, library_code, downstream, template_provider, channels,
  binary_sv2, Result, ok, err,
}
use sv2_apps_fork.Pool.Library.{
  ChannelOps, Library, ShareAccounting, ShareValidation, valid_share, block_found, rejected, fatal,
}
use sv2_apps_fork.Pool.Manager.{
  Downstream, ChannelManager, put_standard, put_extended, shutting_down, disconnecting,
}
use sv2_apps_fork.Pool.Shares.{share_messages, counted, submit, submit_standard, submit_extended}
use sv2_apps_fork.Pool.Views.{open_at}
use sv2_apps_fork.Pool.Refinement.Ticks.{IsTracked}

module _ (lib : Library) (client : ℕ) (msg : SubmitShares) (cm : ChannelManager lib)
    (d : Downstream lib) where
  -- The key of the channel's vardiff.
  abbrev pub own_key : ℕ × ℕ
  own_key = (client, msg.channel_id)

  -- The answer that acknowledges the shares of the channel so far.
  abbrev acknowledges : ShareAccounting → RouteMessageTo
  acknowledges a = downstream client (
      submit_shares_success msg.channel_id a.get_last_share_sequence_number
        a.get_last_batch_accepted a.get_last_batch_work_sum)

  -- A valid share is acknowledged when the accounting says so; a block always, and, unless it is of a
  -- custom job, its solution goes to the template provider first, or the pool shuts down where that is
  -- too long; a rejected share is answered by its code; another failure ends the connection.
  abbrev pub Answers : ShareAccounting → ShareValidation → Result (List RouteMessageTo) → Type 0
  Answers a valid_share r =
      ((a.should_acknowledge ≡ true) × (r ≡ ok (acknowledges a ∷ [])))
      ⊎ ((a.should_acknowledge ≡ false) × (r ≡ ok []))
  Answers a (block_found none coinbase) r = r ≡ ok (acknowledges a ∷ [])
  Answers a (block_found (some template_id) coinbase) r =
      ((lib.fits_b064k coinbase ≡ true)
        × (r
            ≡ ok (
                template_provider (record {
                  template_id = template_id;
                  version = msg.version;
                  ntime = msg.ntime;
                  nonce = msg.nonce;
                  coinbase_tx = coinbase;
                })
                ∷ acknowledges a
                ∷ [])))
      ⊎ ((lib.fits_b064k coinbase ≡ false) × (r ≡ err (shutting_down binary_sv2)))
  Answers a (rejected code) r =
      r
      ≡ ok (
          downstream client
            (submit_shares_error msg.channel_id msg.sequence_number (library_code code))
          ∷ [])
  Answers a (fatal e) r = r ≡ err (disconnecting client (channels e))

  share_messages-Answers :
      (a : ShareAccounting) (v : ShareValidation) → Answers a v (share_messages lib client msg a v)
  unfolding share_messages
  share_messages-Answers a valid_share = elim (Bool-cases a.should_acknowledge) [
    | inl holds ↦ inl (holds, rw (holds) refl)
    | inr fails ↦ inr (fails, rw (fails) refl)
  ]
  share_messages-Answers a (block_found none coinbase) = refl
  share_messages-Answers a (block_found (some template_id) coinbase) =
      elim (Bool-cases (lib.fits_b064k coinbase)) [
        | inl holds ↦ inl (holds, rw (holds) refl)
        | inr fails ↦ inr (fails, rw (fails) refl)
      ]
  share_messages-Answers a (rejected code) = refl
  share_messages-Answers a (fatal e) = refl

  -- A share of a channel in the map `m`, which `put` changes, and its answer: the channel validates it
  -- once, its vardiff counts it once, and every other vardiff and the rest of the manager stay.
  pub record Validated {C : Type 0} (ops : ChannelOps C) (m : Assoc ℕ C) (put : C → Downstream lib)
      (answer : ChannelManager lib × Downstream lib × Result (List RouteMessageTo)) : Type 0 where
    pub channel : C
    pub stored : lookup msg.channel_id m ≡ some channel
    pub validated_once : answer.1 ≡ put (ops.validate_share channel msg).0
    pub answered :
        Answers
          (ops.get_share_accounting (ops.validate_share channel msg).0)
          (ops.validate_share channel msg).1
          answer.2
    pub vardiff : lib.VardiffState
    pub had_vardiff : lookup (client, msg.channel_id) cm.vardiff ≡ some vardiff
    pub counted_once :
        (k : ℕ × ℕ)
        → lookup k answer.0.vardiff ≡ (
            if own_key == k
            then some (lib.vardiff.increment_shares_since_last_update vardiff)
            else lookup k cm.vardiff)
    pub unchanged : answer.0 ≡ record cm { vardiff = answer.0.vardiff }

  -- A share of no channel changes nothing and is refused.
  abbrev pub Unknown :
      {C : Type 0}
      → Assoc ℕ C
      → ChannelManager lib × Downstream lib × Result (List RouteMessageTo)
      → Type 0
  Unknown m answer =
      (lookup msg.channel_id m ≡ none)
      × (answer ≡ (
        cm,
        d,
        ok (
            downstream client (
              submit_shares_error msg.channel_id msg.sequence_number
                submit_shares_invalid_channel_id)
            ∷ []),
      ))

  own_count :
      (v : lib.VardiffState)
      → lookup (client, msg.channel_id) cm.vardiff ≡ some v
      → (k : ℕ × ℕ) → (own_key == k) ≡ true
      → adjusted lib.vardiff.increment_shares_since_last_update (lookup k cm.vardiff)
        ≡ some (lib.vardiff.increment_shares_since_last_update v)
  own_count v at k same = rw (← (pair_eq.agrees_iff own_key k).0 same, at) refl

  count-once :
      (v : lib.VardiffState)
      → lookup (client, msg.channel_id) cm.vardiff ≡ some v
      → (k : ℕ × ℕ)
      → lookup k (counted lib client msg cm).vardiff ≡ (
          if own_key == k
          then some (lib.vardiff.increment_shares_since_last_update v)
          else lookup k cm.vardiff)
  count-once v at k =
      lookup-adjust (client, msg.channel_id) k lib.vardiff.increment_shares_since_last_update
        cm.vardiff
      ∙ elim (Bool-cases (own_key == k)) [
        | inl same ↦ rw (same) (own_count v at k same)
        | inr other ↦ rw (other) refl
      ]

  submit_judged :
      {C : Type 0} (ops : ChannelOps C) (m : Assoc ℕ C) (put : C → Downstream lib) (oc : Option C)
      (ov : Option lib.VardiffState)
      → lookup msg.channel_id m ≡ oc
      → lookup (client, msg.channel_id) cm.vardiff ≡ ov
      → (is_some oc ≡ true → is_some ov ≡ true)
      → Unknown m (submit lib client msg ops cm d put oc ov)
        ⊎ Validated ops m put (submit lib client msg ops cm d put oc ov)
  unfolding submit
  submit_judged ops m put none ov stored at both = inl (stored, refl)
  submit_judged ops m put (some channel) none stored at both = absurd (cc (both refl))
  submit_judged ops m put (some channel) (some v) stored at both = inr (record {
    channel = channel;
    stored = stored;
    validated_once = refl;
    answered =
        share_messages-Answers (ops.get_share_accounting (ops.validate_share channel msg).0)
          (ops.validate_share channel msg).1;
    vardiff = v;
    had_vardiff = at;
    counted_once = count-once v at;
    unchanged = refl;
  })

  module _ (found : lookup client cm.downstreams ≡ some d) (tracked : IsTracked lib cm) where
    has_vardiff :
        (is_some (lookup msg.channel_id d.standard_channels)
            || is_some (lookup msg.channel_id d.extended_channels))
          ≡ true
        → is_some (lookup (client, msg.channel_id) cm.vardiff) ≡ true
    has_vardiff there =
        tracked client msg.channel_id ∙ ap (λ o. open_at lib o msg.channel_id) found ∙ there

    -- When exactly the open channels have a vardiff, a standard share of a registered connection
    -- either names no standard channel of it, changes nothing and is refused; or it is validated by
    -- its channel, answered by the result of that, and counted once by the channel's vardiff, and no
    -- other vardiff changes.
    pub submit_standard-judged :
        Unknown d.standard_channels (submit_standard lib client msg cm d)
        ⊎ Validated lib.standard d.standard_channels
            (put_standard lib msg.channel_id d)
            (submit_standard lib client msg cm d)
    unfolding submit_standard
    submit_standard-judged =
        submit_judged lib.standard d.standard_channels (put_standard lib msg.channel_id d) _ _ refl
          refl (λ e. has_vardiff (ground (arith, e)))

    -- When exactly the open channels have a vardiff, an extended share of a registered connection
    -- either names no extended channel of it, changes nothing and is refused; or it is validated by
    -- its channel, answered by the result of that, and counted once by the channel's vardiff, and no
    -- other vardiff changes.
    pub submit_extended-judged :
        Unknown d.extended_channels (submit_extended lib client msg cm d)
        ⊎ Validated lib.extended d.extended_channels
            (put_extended lib msg.channel_id d)
            (submit_extended lib client msg cm d)
    unfolding submit_extended
    submit_extended-judged =
        submit_judged lib.extended d.extended_channels (put_extended lib msg.channel_id d) _ _ refl
          refl (λ e. has_vardiff (ground (arith, e)))
