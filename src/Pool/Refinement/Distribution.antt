-- ===== src/Pool/Refinement/Distribution.antt =====
-- New templates and previous hashes against the abstract machine.
use sv2_apps_fork.Prelude.{
  ◌≡◌, refl, ap, subst, Bool, true, false, some, List, [], ◌∷◌, nat_eq, if◌then◌else◌,
}
use sv2_apps_fork.Prelude.Tests.{pair_eq}
use sv2_apps_fork.JdServer.Messages.{TxOut}
use sv2_apps_fork.Pool.Messages.{NewTemplate, SetNewPrevHash, ok, err, panicked}
use sv2_apps_fork.Pool.Library.{Library}
use sv2_apps_fork.Pool.Manager.{ChannelManager, finish}
use sv2_apps_fork.Pool.Opening.Answers.{stops}
use sv2_apps_fork.Pool.Manager.{handle_error_action}
use sv2_apps_fork.Pool.Templates.{
  Messages, try_each, handle_new_template, template_to_all, remember, template_to_downstream,
  replaced,
}
use sv2_apps_fork.Pool.PrevHash.{handle_set_new_prev_hash, hash_to_downstream}
use sv2_apps_fork.Pool.System.{settle}
use sv2_apps_fork.Pool.Views.{Move}
use sv2_apps_fork.Pool.Refinement.{
  Explained, some-inj, quiet-Explained, then-Explained, halted_error, forwarded-Explained,
}
use sv2_apps_fork.Pool.Refinement.Loops.{open-try_each, template_same, hash_same}
use sv2_apps_fork.Pool.Refinement.Errors.{Shuts, try_each-Shuts, template-Shuts, hash-Shuts}

module _ (lib : Library) where
  -- A result whose errors all shut the pool down.
  Shuts-Explained :
      (may : Move → Bool) (base cm after : ChannelManager lib) (r : Messages)
      → Explained lib may base cm
      → Shuts r
      → settle lib (finish lib (cm, r)) ≡ some after
      → Explained lib may base after
  unfolding handle_error_action
  Shuts-Explained may base cm after (ok messages) p s h =
      subst (Explained lib may base) (some-inj h)
        (then-Explained lib may base cm _ p (forwarded-Explained lib may messages cm))
  Shuts-Explained may base cm after (err e) p s h =
      absurd (halted_error lib cm after e.kind e.action (ap stops s) h)
  Shuts-Explained may base cm after panicked p s h = absurd (cc)

  template-Explained :
      (may : Move → Bool) (msg : NewTemplate) (outputs : List TxOut) (cm after : ChannelManager lib)
      → settle lib (finish lib (template_to_all lib msg outputs cm)) ≡ some after
      → Explained lib may cm after
  template-Explained may msg [] cm after h = absurd (cc)
  template-Explained may msg (out ∷ outputs) cm after h =
      let f =
        template_to_downstream lib msg (replaced out msg.coinbase_tx_value_remaining ∷ outputs) in
      let x = try_each f cm.downstreams in
      Shuts-Explained may cm (record cm { downstreams = x.0 }) after x.1
        (quiet-Explained lib may cm (record cm { downstreams = x.0 })
          (open-try_each lib f
            (template_same lib msg (replaced out msg.coinbase_tx_value_remaining ∷ outputs))
            cm.downstreams)
          (λ c k. refl))
        (try_each-Shuts f
          (template-Shuts lib msg (replaced out msg.coinbase_tx_value_remaining ∷ outputs))
          cm.downstreams)
        h

  pub hash-Explained :
      (may : Move → Bool) (msg : SetNewPrevHash) (cm after : ChannelManager lib)
      → settle lib (handle_set_new_prev_hash lib msg cm) ≡ some after
      → Explained lib may cm after
  unfolding handle_set_new_prev_hash
  hash-Explained may msg cm after h =
      let f = hash_to_downstream lib msg in
      let x = try_each f cm.downstreams in
      let cm' = record cm { downstreams = x.0; last_new_prev_hash = some msg } in
      Shuts-Explained may cm cm' after x.1
        (quiet-Explained lib may cm cm' (open-try_each lib f (hash_same lib msg) cm.downstreams)
          (λ c k. refl))
        (try_each-Shuts f (hash-Shuts lib msg) cm.downstreams) h

  remembered :
      (may : Move → Bool) (msg : NewTemplate) (cm : ChannelManager lib) (b : Bool)
      → Explained lib may cm (if b then record cm { last_future_template = some msg } else cm)
  remembered may msg cm true = quiet-Explained lib may cm _ (λ c k. refl) (λ c k. refl)
  remembered may msg cm false = quiet-Explained lib may cm _ (λ c k. refl) (λ c k. refl)

  pub new_template-Explained :
      (may : Move → Bool) (msg : NewTemplate) (cm after : ChannelManager lib)
      → settle lib (handle_new_template lib msg cm) ≡ some after
      → Explained lib may cm after
  unfolding handle_new_template
  new_template-Explained may msg cm after h =
      then-Explained lib may cm (remember lib msg cm) after
        (remembered may msg cm msg.future_template)
        (template-Explained may msg lib.pool_outputs _ after h)
