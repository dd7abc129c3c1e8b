-- ===== src/Pool/Refinement/Ticks.antt =====
-- The vardiff over all channels opens and closes none, where exactly the open ones have a vardiff.
use sv2_apps_fork.Prelude.{
  ℕ, ◌≡◌, refl, ap, ◌∙◌, sym, Bool, true, false, ◌||◌, Option, none, some, List, [], ◌∷◌, ◌==◌,
  nat_eq, if◌then◌else◌, is_some, Bool-cases, inl, inr,
}
use sv2_apps_fork.Prelude.Tests.{pair_eq}
use sv2_apps_fork.Prelude.Assoc.{Assoc, lookup, without}
use sv2_apps_fork.Pool.Library.{ChannelOps, Library}
use sv2_apps_fork.Pool.Manager.{Downstream, ChannelManager}
use sv2_apps_fork.Pool.Retarget.{
  run_vardiff_in, run_key, run_key_with, run_keys, run_vardiff, keys_of, vardiff_at,
}
use sv2_apps_fork.Pool.Views.{
  open_of, is_open, is_tracked, tracked_of, open-adjust, open_at, tracked-without,
  forward_all-downstreams, forward_all-vardiff,
}
use sv2_apps_fork.Pool.Refinement.Channels.{is_some-adjust}
use sv2_apps_fork.Pool.Refinement.Handlers.{open_same}

dropped_false : (a b t : Bool) → t ≡ false → (if a then (if b then false else t) else t) ≡ t
dropped_false true true t e = sym e
dropped_false true false t e = refl
dropped_false false b t e = refl

module _ (lib : Library) where
  -- Exactly the open channels have a vardiff.
  abbrev pub IsTracked : ChannelManager lib → Type 0
  IsTracked cm = (c k : ℕ) → is_tracked lib cm c k ≡ is_open lib cm c k

  -- Neither view of the manager changes.
  abbrev pub Same : ChannelManager lib → ChannelManager lib → Type 0
  Same before after =
      ((c k : ℕ) → is_open lib after c k ≡ is_open lib before c k)
      × ((c k : ℕ) → is_tracked lib after c k ≡ is_tracked lib before c k)

  vardiff_at-same :
      {C : Type 0} (client channel_id : ℕ) (ops : ChannelOps C) (m : Assoc ℕ C) (o : Option C)
      (v : lib.VardiffState) (k : ℕ)
      → is_some (lookup k (vardiff_at lib client channel_id ops m o v).0.0) ≡ is_some (lookup k m)
  vardiff_at-same client channel_id ops m none v k = refl
  vardiff_at-same client channel_id ops m (some channel) v k =
      is_some-adjust channel_id k (λ _. _) m

  run_vardiff_in-same :
      {C : Type 0} (client channel_id : ℕ) (ops : ChannelOps C) (m : Assoc ℕ C)
      (v : lib.VardiffState) (k : ℕ)
      → is_some (lookup k (run_vardiff_in lib client channel_id ops m v).0.0) ≡ is_some (lookup k m)
  unfolding run_vardiff_in
  run_vardiff_in-same client channel_id ops m v k =
      vardiff_at-same client channel_id ops m (lookup channel_id m) v k

  module _ (client channel_id : ℕ) (cm : ChannelManager lib) (tracked : IsTracked cm) where
    gone_tracks :
        (c k : ℕ)
        → lookup client cm.downstreams ≡ none
        → tracked_of lib (without (client, channel_id) cm.vardiff) c k ≡ is_tracked lib cm c k
    gone_tracks c k gone = elim (Bool-cases (client == c)) [
      | inl hit ↦
          let there : lookup c cm.downstreams ≡ none =
            ap (λ x. lookup x cm.downstreams) (sym ((nat_eq.agrees_iff client c).0 hit)) ∙ gone in
          tracked-without lib client channel_id cm.vardiff c k
          ∙ dropped_false (client == c) (channel_id == k) (is_tracked lib cm c k)
              (tracked c k ∙ ap (λ o. open_at lib o k) there)
      | inr miss ↦ tracked-without lib client channel_id cm.vardiff c k ∙ rw miss refl
    ]

    -- One key of the vardiff map.
    run_key_with-Same :
        (od : Option (Downstream lib)) (ov : Option lib.VardiffState)
        → lookup client cm.downstreams ≡ od
        → Same cm (run_key_with lib client channel_id od ov cm).0
    run_key_with-Same none ov found = ((λ c k. refl), (λ c k. gone_tracks c k found))
    run_key_with-Same (some d) none found = ((λ c k. refl), (λ c k. refl))
    run_key_with-Same (some d) (some v) found =
        let s = run_vardiff_in lib client channel_id lib.standard d.standard_channels v in
        let e = run_vardiff_in lib client channel_id lib.extended d.extended_channels s.1 in
        let d' = record d { standard_channels = s.0.0; extended_channels = e.0.0 } in
        (
          (λ c k.
              open-adjust lib client d d' cm.downstreams c k found
              ∙ open_same lib client cm d found d'
                  (λ i.
                    ap (λ b. b || is_some (lookup i e.0.0))
                      (run_vardiff_in-same client channel_id lib.standard d.standard_channels v i)
                    ∙ ap (λ b. is_some (lookup i d.standard_channels) || b)
                        (run_vardiff_in-same client channel_id lib.extended d.extended_channels s.1
                          i))
                  c k),
          (λ c k. is_some-adjust (client, channel_id) (c, k) (λ _. e.1) cm.vardiff),
        )

  run_key-Same :
      (key : ℕ × ℕ) (cm : ChannelManager lib) → IsTracked cm → Same cm (run_key lib key cm).0
  unfolding run_key
  run_key-Same (client, channel_id) cm tracked =
      run_key_with-Same client channel_id cm tracked (lookup client cm.downstreams)
        (lookup (client, channel_id) cm.vardiff) refl

  pub Same-IsTracked :
      (before after : ChannelManager lib) → IsTracked before → Same before after → IsTracked after
  Same-IsTracked before after tracked s c k = s.1 c k ∙ tracked c k ∙ sym (s.0 c k)

  run_keys-Same :
      (keys : List (ℕ × ℕ)) (cm : ChannelManager lib)
      → IsTracked cm
      → Same cm (run_keys lib keys cm).0
  unfolding run_keys
  run_keys-Same [] cm tracked = ((λ c k. refl), (λ c k. refl))
  run_keys-Same (key ∷ keys) cm tracked =
      let next = (run_key lib key cm).0 in
      let p = run_key-Same key cm tracked in
      let q = run_keys-Same keys next (Same-IsTracked cm next tracked p) in
      ((λ c k. q.0 c k ∙ p.0 c k), (λ c k. q.1 c k ∙ p.1 c k))

  pub run_vardiff-Same : (cm : ChannelManager lib) → IsTracked cm → Same cm (run_vardiff lib cm)
  unfolding run_vardiff
  run_vardiff-Same cm tracked =
      let x = run_keys lib (keys_of lib cm.vardiff) cm in
      let p = run_keys-Same (keys_of lib cm.vardiff) cm tracked in
      (
        (λ c k. ap (λ m. open_of lib m c k) (forward_all-downstreams lib x.1 x.0) ∙ p.0 c k),
        (λ c k. ap (λ m. tracked_of lib m c k) (forward_all-vardiff lib x.1 x.0) ∙ p.1 c k),
      )
