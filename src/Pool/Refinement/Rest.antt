-- ===== src/Pool/Refinement/Rest.antt =====
-- Closing a channel, a custom job, and the flags and the arrival of a connection.
use sv2_apps_fork.Prelude.{
  ℕ, ◌≡◌, refl, ap, ◌∙◌, sym, subst, Bool, true, false, Option, none, some, [], ◌∷◌, ◌==◌, nat_eq,
  if◌then◌else◌, arith, Option-cases, Bool-cases, inl, inr,
}
use sv2_apps_fork.Prelude.Tests.{pair_eq}
use sv2_apps_fork.Prelude.Assoc.{Assoc, lookup, without, adjust, lookup-without}
use sv2_apps_fork.Pool.Messages.{downstream_not_found, disconnect}
use sv2_apps_fork.Pool.Library.{ChannelOps, Library}
use sv2_apps_fork.Pool.Manager.{Downstream, ChannelManager, with_registered_downstream}
use sv2_apps_fork.Pool.Closing.{close, handle_close_channel, drop_from, without_channel}
use sv2_apps_fork.Pool.System.{settle}
use sv2_apps_fork.Pool.Views.{
  Move, drops, removes, move, open_in, open_of, is_open, tracked_of, open-adjust, tracked-without,
}
use sv2_apps_fork.Pool.Refinement.{Explained, error-Explained, some-inj}

module _ (lib : Library) where
  drop_from-downstreams :
      {C : Type 0} (ops : ChannelOps C) (o : Option C) (cm : ChannelManager lib)
      → (drop_from lib ops o cm).downstreams ≡ cm.downstreams
  drop_from-downstreams ops none cm = refl
  drop_from-downstreams ops (some c) cm = refl

  drop_from-vardiff :
      {C : Type 0} (ops : ChannelOps C) (o : Option C) (cm : ChannelManager lib)
      → (drop_from lib ops o cm).vardiff ≡ cm.vardiff
  drop_from-vardiff ops none cm = refl
  drop_from-vardiff ops (some c) cm = refl

  module _ (client channel_id : ℕ) (cm : ChannelManager lib) where
    removed_in :
        (d : Downstream lib) (k : ℕ)
        → open_in lib (without_channel lib channel_id d) k
          ≡ (if channel_id == k then false else open_in lib d k)
    removed_in d k = ground (
      arith,
      lookup-without channel_id k d.standard_channels,
      lookup-without channel_id k d.extended_channels,
    )

    removed_opens :
        (d : Downstream lib) (c k : ℕ)
        → lookup client cm.downstreams ≡ some d
        → (if client == c
            then open_in lib (without_channel lib channel_id d) k
            else is_open lib cm c k)
          ≡ move (removes client channel_id) (is_open lib cm) c k
    removed_opens d c k found = elim (Bool-cases (client == c)) [
      | inl hit ↦
          let there : lookup c cm.downstreams ≡ some d =
            ap (λ x. lookup x cm.downstreams) (sym ((nat_eq.agrees_iff client c).0 hit)) ∙ found in
          rw (hit, there) (removed_in d k)
      | inr miss ↦ rw miss refl
    ]

    closed-Explained :
        (may : Move → Bool) (d : Downstream lib)
        → may (removes client channel_id) ≡ true
        → lookup client cm.downstreams ≡ some d
        → let x = close lib channel_id cm d in
          Explained lib may cm (record x.0 {
            downstreams = adjust client (λ _. x.1) x.0.downstreams;
            vardiff = without (client, channel_id) x.0.vardiff;
          })
    unfolding close
    closed-Explained may d w found =
        let e =
          drop_from-downstreams lib.extended (lookup channel_id d.extended_channels)
            (drop_from lib lib.standard (lookup channel_id d.standard_channels) cm)
          ∙ drop_from-downstreams lib.standard (lookup channel_id d.standard_channels) cm in
        let v =
          drop_from-vardiff lib.extended (lookup channel_id d.extended_channels)
            (drop_from lib lib.standard (lookup channel_id d.standard_channels) cm)
          ∙ drop_from-vardiff lib.standard (lookup channel_id d.standard_channels) cm in
        record {
          made = removes client channel_id ∷ [];
          own = (w, tt);
          opens = λ c k.
              ap
                (λ (m : Assoc ℕ (Downstream lib)).
                  open_of lib (adjust client (λ _. (close lib channel_id cm d).1) m) c k)
                e
              ∙ open-adjust lib client d (close lib channel_id cm d).1 cm.downstreams c k found
              ∙ removed_opens d c k found;
          tracks = λ c k.
              ap (λ m. tracked_of lib (without (client, channel_id) m) c k) v
              ∙ tracked-without lib client channel_id cm.vardiff c k;
        }

    pub close-Explained :
        (may : Move → Bool) (after : ChannelManager lib)
        → may (drops client) ≡ true
        → may (removes client channel_id) ≡ true
        → settle lib (handle_close_channel lib client channel_id cm) ≡ some after
        → Explained lib may cm after
    unfolding handle_close_channel with_registered_downstream close
    close-Explained may after w r h = elim (Option-cases (lookup client cm.downstreams)) [
      | inl gone ↦
          error-Explained lib may client (downstream_not_found client) (disconnect client) cm after
            w refl (rw (gone) at h)
      | inr (d, found) ↦
          subst (Explained lib may cm) (some-inj (rw (found) at h)) (closed-Explained may d r found)
    ]
