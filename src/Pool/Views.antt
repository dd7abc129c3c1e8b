-- ===== src/Pool/Views.antt =====
-- The channels that are open and those that have a vardiff, as an abstract machine sees them, and how
-- the changes of the manager's maps look from there.
use sv2_apps_fork.Prelude.{
  ℕ, ◌≡◌, refl, ap, ◌∙◌, sym, Bool, true, false, not, ◌||◌, Option, none, some, List, [], ◌∷◌, ◌==◌,
  nat_eq, if◌then◌else◌, is_some, arith, Bool-cases, inl, inr,
}
use sv2_apps_fork.Prelude.Tests.{pair_eq}
use sv2_apps_fork.Prelude.Assoc.{
  Assoc, lookup, without, retain, adjust, lookup-adjust, lookup-without, lookup-retain,
}
use sv2_apps_fork.Pool.Messages.{RouteMessageTo, template_provider, downstream}
use sv2_apps_fork.Pool.Library.{Library}
use sv2_apps_fork.Pool.Manager.{Downstream, ChannelManager, forward, forward_all}

abbrev pub View : Type 0
View = ℕ → ℕ → Bool

-- The moves of the abstract machine: a set of pairs of a connection and a channel.
pub data Move : Type 0 where
  adds removes : (client channel_id : ℕ) → Move
  drops : (client : ℕ) → Move

abbrev pub move : Move → View → View
move (adds client channel_id) before c k =
    if client == c then (if channel_id == k then true else before c k) else before c k
move (removes client channel_id) before c k =
    if client == c then (if channel_id == k then false else before c k) else before c k
move (drops client) before c k = if client == c then false else before c k

abbrev pub moves : List Move → View → View
moves [] before = before
moves (m ∷ ms) before = moves ms (move m before)

module _ (lib : Library) where
  abbrev pub open_in : Downstream lib → ℕ → Bool
  open_in d k = is_some (lookup k d.standard_channels) || is_some (lookup k d.extended_channels)

  abbrev pub open_at : Option (Downstream lib) → ℕ → Bool
  open_at none k = false
  open_at (some d) k = open_in d k

  abbrev pub open_of : Assoc ℕ (Downstream lib) → View
  open_of downstreams c k = open_at (lookup c downstreams) k

  -- A channel is open: its connection is registered and holds it in one of its two maps.
  abbrev pub is_open : ChannelManager lib → View
  is_open cm = open_of cm.downstreams

  abbrev pub tracked_of : Assoc (ℕ × ℕ) lib.VardiffState → View
  tracked_of vardiff c k = is_some (lookup (c, k) vardiff)

  abbrev pub is_tracked : ChannelManager lib → View
  is_tracked cm = tracked_of cm.vardiff

  pub forward_all-downstreams :
      (messages : List RouteMessageTo) (cm : ChannelManager lib)
      → (forward_all lib messages cm).downstreams ≡ cm.downstreams
  unfolding forward_all forward
  forward_all-downstreams [] cm = refl
  forward_all-downstreams (template_provider s ∷ ms) cm = forward_all-downstreams ms _
  forward_all-downstreams (downstream c m ∷ ms) cm = forward_all-downstreams ms _

  pub forward_all-vardiff :
      (messages : List RouteMessageTo) (cm : ChannelManager lib)
      → (forward_all lib messages cm).vardiff ≡ cm.vardiff
  unfolding forward_all forward
  forward_all-vardiff [] cm = refl
  forward_all-vardiff (template_provider s ∷ ms) cm = forward_all-vardiff ms _
  forward_all-vardiff (downstream c m ∷ ms) cm = forward_all-vardiff ms _

  pub open-adjust :
      (client : ℕ) (d d' : Downstream lib) (m : Assoc ℕ (Downstream lib)) (c k : ℕ)
      → lookup client m ≡ some d
      → open_of (adjust client (λ _. d') m) c k
        ≡ (if client == c then open_in d' k else open_of m c k)
  open-adjust client d d' m c k at = elim (Bool-cases (client == c)) [
    | inl same ↦
        let eq = (nat_eq.agrees_iff client c).0 same in
        let there : lookup c m ≡ some d = ap (λ x. lookup x m) (sym eq) ∙ at in
        rw (lookup-adjust client c (λ (_ : Downstream lib). d') m, same, there) refl
    | inr other ↦ rw (lookup-adjust client c (λ (_ : Downstream lib). d') m, other) refl
  ]

  pub open-without :
      (client : ℕ) (m : Assoc ℕ (Downstream lib)) (c k : ℕ)
      → open_of (without client m) c k ≡ (if client == c then false else open_of m c k)
  open-without client m c k = elim (Bool-cases (client == c)) [
    | inl same ↦ rw (lookup-without client c m, same) refl
    | inr other ↦ rw (lookup-without client c m, other) refl
  ]

  pub tracked-retain :
      (client : ℕ) (m : Assoc (ℕ × ℕ) lib.VardiffState) (c k : ℕ)
      → tracked_of (retain (λ (key : ℕ × ℕ) v. not (key.0 == client)) m) c k
        ≡ (if client == c then false else tracked_of m c k)
  tracked-retain client m c k = ground (
    arith,
    lookup-retain (λ (key : ℕ × ℕ) v. not (key.0 == client)) (c, k) m,
    nat_eq.agrees_iff client c,
    nat_eq.agrees_iff c client,
  )

  pub tracked-without :
      (client channel_id : ℕ) (m : Assoc (ℕ × ℕ) lib.VardiffState) (c k : ℕ)
      → tracked_of (without (client, channel_id) m) c k
        ≡ move (removes client channel_id) (tracked_of m) c k
  tracked-without client channel_id m c k =
      ground (arith, lookup-without (client, channel_id) (c, k) m)
