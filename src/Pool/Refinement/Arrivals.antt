-- ===== src/Pool/Refinement/Arrivals.antt =====
-- The arrival of a connection and the flags of its setup against the abstract machine.
use sv2_apps_fork.Prelude.{
  ℕ, ◌≡◌, refl, ap, ◌∙◌, sym, Bool, true, false, Option, none, some, ◌==◌, nat_eq, if◌then◌else◌,
  Bool-cases, inl, inr,
}
use sv2_apps_fork.Prelude.Tests.{pair_eq}
use sv2_apps_fork.Prelude.Assoc.{
  Assoc, lookup, insert, adjust, adjusted, lookup-adjust, lookup-insert,
}
use sv2_apps_fork.Pool.Messages.{Result, ok, err, panicked}
use sv2_apps_fork.Pool.Library.{Library}
use sv2_apps_fork.Pool.Manager.{Downstream, ChannelManager, setup_flags, register, new_downstream}
use sv2_apps_fork.Pool.Views.{Move, open_in, open_at, open_of}
use sv2_apps_fork.Pool.Refinement.{Explained, quiet-Explained}

module _ (lib : Library) where
  kept_opens :
      (f : Downstream lib → Downstream lib) (k : ℕ)
      → ((d : Downstream lib) → open_in lib (f d) k ≡ open_in lib d k)
      → (b : Bool) (o : Option (Downstream lib))
      → open_at lib (if b then adjusted f o else o) k ≡ open_at lib o k
  kept_opens f k same true none = refl
  kept_opens f k same true (some d) = same d
  kept_opens f k same false o = refl

  -- A change of an entry that leaves its channels.
  adjusted_opens :
      (client : ℕ) (f : Downstream lib → Downstream lib) (m : Assoc ℕ (Downstream lib)) (c k : ℕ)
      → ((d : Downstream lib) → open_in lib (f d) k ≡ open_in lib d k)
      → open_of lib (adjust client f m) c k ≡ open_of lib m c k
  adjusted_opens client f m c k same =
      ap (λ o. open_at lib o k) (lookup-adjust client c f m)
      ∙ kept_opens f k same (client == c) (lookup c m)

  fresh_opens :
      (id : ℕ) (g : lib.GroupChannel) (m : Assoc ℕ (Downstream lib)) (c k : ℕ)
      → lookup id m ≡ none
      → open_of lib (insert id (new_downstream lib g) m) c k ≡ open_of lib m c k
  unfolding lookup
  fresh_opens id g m c k fresh = elim (Bool-cases (id == c)) [
    | inl hit ↦
        let there : lookup c m ≡ none =
          ap (λ x. lookup x m) (sym ((nat_eq.agrees_iff id c).0 hit)) ∙ fresh in
        ap (λ o. open_at lib o k) (lookup-insert id c (new_downstream lib g) m)
        ∙ rw (hit, there) refl
    | inr miss ↦
        ap (λ o. open_at lib o k) (lookup-insert id c (new_downstream lib g) m) ∙ rw miss refl
  ]

  pub flags-Explained :
      (may : Move → Bool) (client : ℕ) (standard_jobs custom_work : Bool) (cm : ChannelManager lib)
      → Explained lib may cm (setup_flags lib client standard_jobs custom_work cm)
  unfolding setup_flags
  flags-Explained may client standard_jobs custom_work cm =
      quiet-Explained lib may cm _ (λ c k. adjusted_opens client _ cm.downstreams c k (λ d. refl))
        (λ c k. refl)

  pub registered-Explained :
      (may : Move → Bool) (r : Result (Option lib.GroupChannel)) (cm : ChannelManager lib)
      → lookup cm.downstream_id_factory cm.downstreams ≡ none
      → Explained lib may cm (register lib r cm).0
  registered-Explained may (ok (some g)) cm fresh =
      quiet-Explained lib may cm (register lib (ok (some g)) cm).0
        (λ c k. fresh_opens cm.downstream_id_factory g cm.downstreams c k fresh) (λ c k. refl)
  registered-Explained may (ok none) cm fresh =
      quiet-Explained lib may cm _ (λ c k. refl) (λ c k. refl)
  registered-Explained may (err e) cm fresh =
      quiet-Explained lib may cm _ (λ c k. refl) (λ c k. refl)
  registered-Explained may panicked cm fresh =
      quiet-Explained lib may cm _ (λ c k. refl) (λ c k. refl)
