-- ===== src/Pool/Refinement/Handlers.antt =====
-- The handlers of one connection against the abstract machine.
use sv2_apps_fork.Prelude.{
  ℕ, ◌≡◌, refl, ap, ◌∙◌, sym, subst, Bool, true, ◌||◌, some, [], ◌∷◌, ◌==◌, nat_eq, if◌then◌else◌,
  is_some, arith, Bool-cases, inl, inr, ◌⊎◌,
}
use sv2_apps_fork.Prelude.Tests.{pair_eq}
use sv2_apps_fork.Prelude.Assoc.{lookup, insert, lookup-insert}
use sv2_apps_fork.Pool.Messages.{Result}
use sv2_apps_fork.Pool.Library.{Library}
use sv2_apps_fork.Pool.Manager.{Downstream, ChannelManager}
use sv2_apps_fork.Pool.Opening.{Answer}
use sv2_apps_fork.Pool.Opening.Answers.{
  halts, Kept, Grown, Added, Opens, halted, dropped, refused, opened,
}
use sv2_apps_fork.Pool.Views.{Move, adds, move, open_in, is_open, is_tracked, tracked_of}
use sv2_apps_fork.Pool.Refinement.{Blames, Local}

module _ (lib : Library) (client : ℕ) (cm : ChannelManager lib) (d : Downstream lib)
    (found : lookup client cm.downstreams ≡ some d) where
  -- An entry that holds the same channels as before is not seen to change.
  pub open_same :
      (d' : Downstream lib)
      → ((k : ℕ) → open_in lib d' k ≡ open_in lib d k)
      → (c k : ℕ)
      → (if client == c then open_in lib d' k else is_open lib cm c k) ≡ is_open lib cm c k
  open_same d' same c k = elim (Bool-cases (client == c)) [
    | inl hit ↦
        let there : lookup c cm.downstreams ≡ some d =
          ap (λ x. lookup x cm.downstreams) (sym ((nat_eq.agrees_iff client c).0 hit)) ∙ found in
        rw (hit, there) (same k)
    | inr miss ↦ rw miss refl
  ]

module _ (lib : Library) (may : Move → Bool) (client : ℕ) (cm : ChannelManager lib)
    (d : Downstream lib) (found : lookup client cm.downstreams ≡ some d) where
  pub same-Local {ℓ} :
      {A : Type ℓ} (x : ChannelManager lib × Downstream lib × Result A)
      → x.0.downstreams ≡ cm.downstreams
      → ((k : ℕ) → open_in lib x.1 k ≡ open_in lib d k)
      → ((c k : ℕ) → is_tracked lib x.0 c k ≡ is_tracked lib cm c k)
      → Local lib may client cm d x
  same-Local x downs opens tracks = record {
    made = [];
    own = tt;
    downstreams = downs;
    opens = open_same lib client cm d found x.1 opens;
    tracks = tracks;
  }

  Kept-Local :
      (request_id : ℕ) (x : Answer lib)
      → Kept lib client request_id cm d x.0 x.1
      → Local lib may client cm d x
  Kept-Local request_id x k =
      same-Local x k.0
        (λ i.
          ap (λ m. is_some (lookup i m) || is_some (lookup i x.1.extended_channels)) k.2
          ∙ ap (λ m. is_some (lookup i d.standard_channels) || is_some (lookup i m)) k.3)
        (λ c i. ap (λ m. tracked_of lib m c i) k.1)

  Grown-open_in :
      (request_id : ℕ) (d' : Downstream lib) (k : ℕ)
      → Grown lib client request_id cm d d'
      → open_in lib d' k ≡ (if d.channel_id_factory == k then true else open_in lib d k)
  Grown-open_in request_id d' k (inl (channel, s, e)) =
      rw (s, e) (ground (arith, lookup-insert d.channel_id_factory k channel d.standard_channels))
  Grown-open_in request_id d' k (inr (channel, s, e)) =
      rw (s, e) (ground (arith, lookup-insert d.channel_id_factory k channel d.extended_channels))

  added_opens :
      (request_id : ℕ) (d' : Downstream lib) (c k : ℕ)
      → Grown lib client request_id cm d d'
      → (if client == c then open_in lib d' k else is_open lib cm c k)
        ≡ move (adds client d.channel_id_factory) (is_open lib cm) c k
  added_opens request_id d' c k grown = elim (Bool-cases (client == c)) [
    | inl hit ↦
        let there : lookup c cm.downstreams ≡ some d =
          ap (λ x. lookup x cm.downstreams) (sym ((nat_eq.agrees_iff client c).0 hit)) ∙ found in
        rw (hit, there) (Grown-open_in request_id d' k grown)
    | inr miss ↦ rw miss refl
  ]

  added_tracks :
      (v : lib.VardiffState) (c k : ℕ)
      → tracked_of lib (insert (client, d.channel_id_factory) v cm.vardiff) c k
        ≡ move (adds client d.channel_id_factory) (is_tracked lib cm) c k
  added_tracks v c k =
      ground (arith, lookup-insert (client, d.channel_id_factory) (c, k) v cm.vardiff)

  Added-Local :
      (request_id : ℕ) (x : Answer lib)
      → may (adds client d.channel_id_factory) ≡ true
      → Added lib client request_id cm d x.0 x.1
      → Local lib may client cm d x
  Added-Local request_id x ok_adds (downs, (v, vardiff), grown, paid) = record {
    made = adds client d.channel_id_factory ∷ [];
    own = (ok_adds, tt);
    downstreams = downs;
    opens = λ c k. added_opens request_id x.1 c k grown;
    tracks = λ c k. ap (λ m. tracked_of lib m c k) vardiff ∙ added_tracks v c k;
  }

  pub Opens-Local :
      (request_id : ℕ) (x : Answer lib)
      → may (adds client d.channel_id_factory) ≡ true
      → Opens lib client request_id cm d x
      → (halts x.2 ≡ true) ⊎ (Local lib may client cm d x × Blames client x.2)
  Opens-Local request_id x ok_adds (halted h) = inl h
  Opens-Local request_id x ok_adds (dropped kind e k) =
      inr (Kept-Local request_id x k, subst (Blames client) (sym e) refl)
  Opens-Local request_id x ok_adds (refused messages e a k) =
      inr (Kept-Local request_id x k, subst (Blames client) (sym e) tt)
  Opens-Local request_id x ok_adds (opened messages e a grown) =
      inr (Added-Local request_id x ok_adds grown, subst (Blames client) (sym e) tt)
