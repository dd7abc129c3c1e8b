-- ===== src/Pool/Refinement/Runs.antt =====
-- Runs of the system, from a manager in which exactly the open channels have a vardiff.
use sv2_apps_fork.Prelude.{◌≡◌, ◌∙◌, sym, subst, some, List, [], ◌∷◌, Option-cases, inl, inr}
use sv2_apps_fork.Pool.Library.{Library}
use sv2_apps_fork.Pool.Manager.{ChannelManager}
use sv2_apps_fork.Pool.System.{Event, step, run}
use sv2_apps_fork.Pool.Views.{is_open, is_tracked}
use sv2_apps_fork.Pool.Refinement.{moves-cong, some-inj}
use sv2_apps_fork.Pool.Refinement.Ticks.{IsTracked}
use sv2_apps_fork.Pool.Refinement.Steps.{step-Explained}

module _ (lib : Library) where
  step-IsTracked :
      (event : Event) (cm after : ChannelManager lib)
      → IsTracked lib cm
      → step lib event cm ≡ some after
      → IsTracked lib after
  step-IsTracked event cm after tracked h c k =
      let p = step-Explained lib event cm after tracked h in
      p.tracks c k
      ∙ moves-cong p.made (is_tracked lib cm) (is_open lib cm) tracked c k
      ∙ sym (p.opens c k)

  -- A run that has not ended leaves exactly the open channels with a vardiff, when it began with that.
  pub run-IsTracked :
      (events : List Event) (cm after : ChannelManager lib)
      → IsTracked lib cm
      → run lib events cm ≡ some after
      → IsTracked lib after
  unfolding run
  run-IsTracked [] cm after tracked h = subst (IsTracked lib) (some-inj h) tracked
  run-IsTracked (event ∷ events) cm after tracked h = elim (Option-cases (step lib event cm)) [
    | inl stopped ↦ absurd (cc (rw (stopped) at h))
    | inr (next, stepped) ↦
        run-IsTracked events next after (step-IsTracked event cm next tracked stepped)
          (rw (stepped) at h)
  ]
