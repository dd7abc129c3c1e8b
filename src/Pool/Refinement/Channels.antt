-- ===== src/Pool/Refinement/Channels.antt =====
-- Shares and updates change the channels in place, and the closing of a channel removes it.
use sv2_apps_fork.Prelude.{
  ℕ, ◌≡◌, refl, ap, Bool, true, false, ◌||◌, Option, none, some, nat_eq, if◌then◌else◌, is_some,
  Bool-cases, inl, inr,
}
use sv2_apps_fork.Prelude.Tests.{pair_eq, KeyEq}
use sv2_apps_fork.Prelude.Assoc.{Assoc, lookup, adjust, adjusted, lookup-adjust}
use sv2_apps_fork.Pool.Messages.{SubmitShares, UpdateChannel}
use sv2_apps_fork.Pool.Library.{
  ChannelOps, ShareValidation, valid_share, block_found, rejected, fatal, ShareAccounting, Library,
  ChannelError, coded, uncoded,
}
use sv2_apps_fork.Pool.Manager.{Downstream, ChannelManager, put_standard, put_extended}
use sv2_apps_fork.Pool.Shares.{
  share_messages, submit, submit_standard, submit_extended, update_with, update, updated,
}
use sv2_apps_fork.Pool.Views.{Move, open_in}
use sv2_apps_fork.Pool.Refinement.{Local, Blames}
use sv2_apps_fork.Pool.Refinement.Handlers.{same-Local}

adjusted-is_some {ℓ} :
    {X : Type ℓ} (f : X → X) (b : Bool) (o : Option X)
    → is_some (if b then adjusted f o else o) ≡ is_some o
adjusted-is_some f true none = refl
adjusted-is_some f true (some v) = refl
adjusted-is_some f false o = refl

pub is_some-adjust {ℓ κ} :
    {K : Type ℓ} {X : Type κ} ⦃e : KeyEq K⦄ (j k : K) (f : X → X) (m : Assoc K X)
    → is_some (lookup k (adjust j f m)) ≡ is_some (lookup k m)
is_some-adjust ⦃e⦄ j k f m =
    rw (lookup-adjust j k f m) (adjusted-is_some f (e.agrees j k) (lookup k m))

module _ (lib : Library) (client : ℕ) (msg : SubmitShares) where
  share_messages-Blames :
      (accounting : ShareAccounting) (v : ShareValidation)
      → Blames client (share_messages lib client msg accounting v)
  unfolding share_messages
  share_messages-Blames accounting valid_share = tt
  share_messages-Blames accounting (block_found none coinbase) = tt
  share_messages-Blames accounting (block_found (some t) coinbase) =
      elim (Bool-cases (lib.fits_b064k coinbase)) [ inl fits ↦ rw fits tt | inr long ↦ rw long tt ]
  share_messages-Blames accounting (rejected code) = tt
  share_messages-Blames accounting (fatal e) = refl

  module _ (may : Move → Bool) (cm : ChannelManager lib) (d : Downstream lib)
      (found : lookup client cm.downstreams ≡ some d) where
    submit-Local :
        {C : Type 0} (ops : ChannelOps C) (put : C → Downstream lib) (oc : Option C)
        (ov : Option lib.VardiffState)
        → ((c : C) (k : ℕ) → open_in lib (put c) k ≡ open_in lib d k)
        → Local lib may client cm d (submit lib client msg ops cm d put oc ov)
          × Blames client (submit lib client msg ops cm d put oc ov).2
    unfolding submit
    submit-Local ops put none ov same =
        (same-Local lib may client cm d found _ refl (λ k. refl) (λ c k. refl), tt)
    submit-Local ops put (some channel) none same =
        (same-Local lib may client cm d found _ refl (λ k. refl) (λ c k. refl), tt)
    submit-Local ops put (some channel) (some v) same = (
      same-Local lib may client cm d found _ refl (same (ops.validate_share channel msg).0) (λ c k.
          is_some-adjust (client, msg.channel_id) (c, k)
            lib.vardiff.increment_shares_since_last_update cm.vardiff),
      share_messages-Blames _ _,
    )

    pub submit_standard-Local :
        Local lib may client cm d (submit_standard lib client msg cm d)
        × Blames client (submit_standard lib client msg cm d).2
    unfolding submit_standard
    submit_standard-Local =
        submit-Local lib.standard (put_standard lib msg.channel_id d)
          (lookup msg.channel_id d.standard_channels) (lookup (client, msg.channel_id) cm.vardiff)
          (λ c k.
            ap (λ b. b || is_some (lookup k d.extended_channels))
              (is_some-adjust msg.channel_id k (λ _. c) d.standard_channels))

    pub submit_extended-Local :
        Local lib may client cm d (submit_extended lib client msg cm d)
        × Blames client (submit_extended lib client msg cm d).2
    unfolding submit_extended
    submit_extended-Local =
        submit-Local lib.extended (put_extended lib msg.channel_id d)
          (lookup msg.channel_id d.extended_channels) (lookup (client, msg.channel_id) cm.vardiff)
          (λ c k.
            ap (λ b. is_some (lookup k d.standard_channels) || b)
              (is_some-adjust msg.channel_id k (λ _. c) d.extended_channels))

module _ (lib : Library) (client : ℕ) (msg : UpdateChannel) (may : Move → Bool)
    (cm : ChannelManager lib) (d : Downstream lib)
    (found : lookup client cm.downstreams ≡ some d) where
  updated-Blames :
      (target : ℕ) (e : Option ChannelError) → Blames client (updated lib client msg target e)
  updated-Blames target none = tt
  updated-Blames target (some (coded code)) = tt
  updated-Blames target (some (uncoded e)) = tt

  update_with-Local :
      (standard : Option lib.StandardChannel) (extended : Option lib.ExtendedChannel)
      → Local lib may client cm d (update_with lib client msg standard extended cm d)
        × Blames client (update_with lib client msg standard extended cm d).2
  unfolding update_with
  update_with-Local (some channel) extended = (
    same-Local lib may client cm d found _ refl
        (λ k.
          ap (λ b. b || is_some (lookup k d.extended_channels))
            (is_some-adjust msg.channel_id k (λ _. _) d.standard_channels))
        (λ c k. refl),
    updated-Blames _ _,
  )
  update_with-Local none (some channel) = (
    same-Local lib may client cm d found _ refl
        (λ k.
          ap (λ b. is_some (lookup k d.standard_channels) || b)
            (is_some-adjust msg.channel_id k (λ _. _) d.extended_channels))
        (λ c k. refl),
    updated-Blames _ _,
  )
  update_with-Local none none =
      (same-Local lib may client cm d found _ refl (λ k. refl) (λ c k. refl), tt)

  pub update-Local :
      Local lib may client cm d (update lib client msg cm d)
      × Blames client (update lib client msg cm d).2
  unfolding update
  update-Local = update_with-Local _ _
