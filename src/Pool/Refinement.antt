-- ===== src/Pool/Refinement.antt =====
-- The steps of the manager against the abstract machine of Views: what a step does to the channels
-- and to the vardiffs is the same list of moves, all allowed to the step.
pub mod Handlers
pub mod Channels
pub mod Runs
pub mod Jobs
pub mod Arrivals
pub mod Distribution
pub mod Steps
pub mod Ticks
pub mod Errors
pub mod Loops
pub mod Rest
use sv2_apps_fork.Prelude.{subst}
use sv2_apps_fork.Prelude.{
  ℕ, ◌≡◌, refl, ap, ◌∙◌, sym, Bool, true, false, not, ◌||◌, Option, none, some, List, [], ◌∷◌, ◌++◌,
  ◌==◌, nat_eq, if◌then◌else◌, is_some, arith, Option-cases, Bool-cases, inl, inr, ◌⊎◌,
}
use sv2_apps_fork.Prelude.Tests.{pair_eq}
use sv2_apps_fork.Prelude.Assoc.{Assoc, lookup, insert, without, adjust, lookup-insert}
use sv2_apps_fork.Pool.Messages.{
  RouteMessageTo, Action, disconnect, shutdown, log, PoolErrorKind, PoolError, downstream_not_found,
  Result, ok, err, panicked,
}
use sv2_apps_fork.Pool.Library.{Library}
use sv2_apps_fork.Pool.Manager.{
  Downstream, ChannelManager, remove_downstream, with_registered_downstream, Guarded, finish,
  disconnecting, forward_all, handle_error_action, write_back,
}
use sv2_apps_fork.Pool.Opening.Answers.{halts, stops}
use sv2_apps_fork.Pool.System.{settle}
use sv2_apps_fork.Pool.Views.{
  View, Move, adds, removes, drops, move, moves, open_in, open_of, is_open, tracked_of, is_tracked,
  forward_all-downstreams, forward_all-vardiff, open-adjust, open-without, tracked-retain,
}

pub some-inj {ℓ} : {A : Type ℓ} {a b : A} → some a ≡ some b → a ≡ b
some-inj h = cc h

abbrev pub EveryMove : (Move → Bool) → List Move → Type 0
EveryMove may [] = Unit
EveryMove may (m ∷ ms) = (may m ≡ true) × EveryMove may ms

move-cong :
    (m : Move) (f g : View) → ((c k : ℕ) → f c k ≡ g c k) → (c k : ℕ) → move m f c k ≡ move m g c k
move-cong (adds x y) f g h c k = rw (h c k) refl
move-cong (removes x y) f g h c k = rw (h c k) refl
move-cong (drops x) f g h c k = rw (h c k) refl

pub moves-cong :
    (ms : List Move) (f g : View)
    → ((c k : ℕ) → f c k ≡ g c k)
    → (c k : ℕ) → moves ms f c k ≡ moves ms g c k
moves-cong [] f g h = h
moves-cong (m ∷ ms) f g h = moves-cong ms (move m f) (move m g) (move-cong m f g h)

moves-append :
    (ms ns : List Move) (f : View) (c k : ℕ) → moves (ms ++ ns) f c k ≡ moves ns (moves ms f) c k
moves-append [] ns f c k = refl
moves-append (m ∷ ms) ns f c k = moves-append ms ns (move m f) c k

every-append :
    (may : Move → Bool) (ms ns : List Move)
    → EveryMove may ms
    → EveryMove may ns
    → EveryMove may (ms ++ ns)
every-append may [] ns p q = q
every-append may (m ∷ ms) ns p q = (p.0, every-append may ms ns p.1 q)

-- One list of moves, by the connections `may`, takes the open channels and the tracked ones of the
-- manager `before` to those of `after`.
pub record Explained (lib : Library) (may : Move → Bool) (before after : ChannelManager lib)
    : Type 0 where
  pub made : List Move
  pub own : EveryMove may made
  pub opens : (c k : ℕ) → is_open lib after c k ≡ moves made (is_open lib before) c k
  pub tracks : (c k : ℕ) → is_tracked lib after c k ≡ moves made (is_tracked lib before) c k

-- The action of an error, if it disconnects, disconnects the client.
abbrev pub BlamesAction : ℕ → Action → Type 0
BlamesAction client (disconnect c) = c ≡ client
BlamesAction client _ = Unit

abbrev pub Blames {ℓ} : {A : Type ℓ} → ℕ → Result A → Type 0
Blames client (err e) = BlamesAction client e.action
Blames client _ = Unit

module _ (lib : Library) where
  pub quiet-Explained :
      (may : Move → Bool) (before after : ChannelManager lib)
      → ((c k : ℕ) → is_open lib after c k ≡ is_open lib before c k)
      → ((c k : ℕ) → is_tracked lib after c k ≡ is_tracked lib before c k)
      → Explained lib may before after
  quiet-Explained may before after o t = record { made = []; own = tt; opens = o; tracks = t }

  pub then-Explained :
      (may : Move → Bool) (a b c : ChannelManager lib)
      → Explained lib may a b
      → Explained lib may b c
      → Explained lib may a c
  then-Explained may a b c p q = record {
    made = p.made ++ q.made;
    own = every-append may p.made q.made p.own q.own;
    opens = λ x k.
        q.opens x k
        ∙ moves-cong q.made (is_open lib b) (moves p.made (is_open lib a)) p.opens x k
        ∙ sym (moves-append p.made q.made (is_open lib a) x k);
    tracks = λ x k.
        q.tracks x k
        ∙ moves-cong q.made (is_tracked lib b) (moves p.made (is_tracked lib a)) p.tracks x k
        ∙ sym (moves-append p.made q.made (is_tracked lib a) x k);
  }

  pub removed-Explained :
      (may : Move → Bool) (client : ℕ) (cm : ChannelManager lib)
      → may (drops client) ≡ true
      → Explained lib may cm (remove_downstream lib client cm)
  unfolding remove_downstream
  removed-Explained may client cm w = record {
    made = drops client ∷ [];
    own = (w, tt);
    opens = λ c k. open-without lib client cm.downstreams c k;
    tracks = λ c k. tracked-retain lib client cm.vardiff c k;
  }

  pub error-Explained :
      (may : Move → Bool) (client : ℕ) (kind : PoolErrorKind) (a : Action)
      (cm after : ChannelManager lib)
      → may (drops client) ≡ true
      → BlamesAction client a
      → settle lib (cm, err (record { kind = kind; action = a })) ≡ some after
      → Explained lib may cm after
  unfolding handle_error_action
  error-Explained may client kind log cm after w b h =
      subst (Explained lib may cm) (some-inj h)
        (quiet-Explained may cm cm (λ c k. refl) (λ c k. refl))
  error-Explained may client kind (disconnect c) cm after w b h =
      subst (Explained lib may cm) (some-inj h)
        (removed-Explained may c cm (ap (λ x. may (drops x)) b ∙ w))
  error-Explained may client kind shutdown cm after w b h = absurd (cc)

  -- What a guarded piece of work does, seen from the connection's entry `d`.
  pub record Local {ℓ} {A : Type ℓ} (may : Move → Bool) (client : ℕ) (cm : ChannelManager lib)
      (d : Downstream lib) (x : ChannelManager lib × Downstream lib × Result A) : Type ℓ where
    pub made : List Move
    pub own : EveryMove may made
    pub downstreams : x.0.downstreams ≡ cm.downstreams
    pub opens :
        (c k : ℕ)
        → (if client == c then open_in lib x.1 k else is_open lib cm c k)
          ≡ moves made (is_open lib cm) c k
    pub tracks : (c k : ℕ) → is_tracked lib x.0 c k ≡ moves made (is_tracked lib cm) c k

  pub written-Explained {ℓ} :
      {A : Type ℓ} (may : Move → Bool) (client : ℕ) (cm : ChannelManager lib) (d : Downstream lib)
      (x : ChannelManager lib × Downstream lib × Result A)
      → lookup client cm.downstreams ≡ some d
      → Local may client cm d x
      → Explained lib may cm (write_back lib client x).0
  written-Explained may client cm d x at l = record {
    made = l.made;
    own = l.own;
    opens = λ c k.
        open-adjust lib client d x.1 x.0.downstreams c k (ap (lookup client) l.downstreams ∙ at)
        ∙ ap
            (λ (m : Assoc ℕ (Downstream lib)).
              if client == c then open_in lib x.1 k else open_of lib m c k)
            l.downstreams
        ∙ l.opens c k;
    tracks = l.tracks;
  }

  pub forwarded-Explained :
      (may : Move → Bool) (messages : List RouteMessageTo) (cm : ChannelManager lib)
      → Explained lib may cm (forward_all lib messages cm)
  forwarded-Explained may messages cm =
      quiet-Explained may cm (forward_all lib messages cm)
        (λ c k. ap (λ m. open_of lib m c k) (forward_all-downstreams lib messages cm))
        (λ c k. ap (λ m. tracked_of lib m c k) (forward_all-vardiff lib messages cm))

  -- After what the handler itself has done, the loop sends the messages or acts on the error.
  pub finish-Explained :
      (may : Move → Bool) (client : ℕ) (base cm after : ChannelManager lib)
      (r : Result (List RouteMessageTo))
      → may (drops client) ≡ true
      → Explained lib may base cm
      → Blames client r
      → settle lib (finish lib (cm, r)) ≡ some after
      → Explained lib may base after
  finish-Explained may client base cm after (ok messages) w p b h =
      subst (Explained lib may base) (some-inj h) (
        then-Explained may base cm (forward_all lib messages cm) p
          (forwarded-Explained may messages cm))
  finish-Explained may client base cm after (err e) w p b h =
      then-Explained may base cm after p (error-Explained may client e.kind e.action cm after w b h)
  finish-Explained may client base cm after panicked w p b h = absurd (cc)

  pub halted_error :
      (cm after : ChannelManager lib) (kind : PoolErrorKind) (a : Action)
      → stops a ≡ true
      → ¬ (settle lib (cm, err (record { kind = kind; action = a })) ≡ some after)
  unfolding handle_error_action
  halted_error cm after kind log halted h = cc (halted)
  halted_error cm after kind (disconnect c) halted h = cc (halted)
  halted_error cm after kind shutdown halted h = cc (h)

  halted_settle :
      (cm after : ChannelManager lib) (r : Result (List RouteMessageTo))
      → halts r ≡ true
      → ¬ (settle lib (finish lib (cm, r)) ≡ some after)
  unfolding handle_error_action
  halted_settle cm after (ok messages) halted h = cc (halted)
  halted_settle cm after (err e) halted h = halted_error cm after e.kind e.action halted h
  halted_settle cm after panicked halted h = cc (h)

  -- A handler on one connection, given what its work under the guard does.
  pub guarded-Explained :
      (may : Move → Bool) (client : ℕ) (f : Guarded lib (List RouteMessageTo))
      (cm after : ChannelManager lib)
      → may (drops client) ≡ true
      → ((d : Downstream lib)
          → lookup client cm.downstreams ≡ some d
          → (halts (f cm d).2 ≡ true) ⊎ (Local may client cm d (f cm d) × Blames client (f cm d).2))
      → settle lib (finish lib (with_registered_downstream lib client f cm)) ≡ some after
      → Explained lib may cm after
  unfolding with_registered_downstream
  guarded-Explained may client f cm after w local h =
      elim (Option-cases (lookup client cm.downstreams)) [
        | inl gone ↦
            finish-Explained may client cm cm after
              (err (disconnecting client (downstream_not_found client))) w
              (quiet-Explained may cm cm (λ c k. refl) (λ c k. refl)) refl (rw (gone) at h)
        | inr (d, found) ↦ elim (local d found) [
          | inl halted ↦ absurd (
              halted_settle (write_back lib client (f cm d)).0 after (f cm d).2 halted
                (rw (found) at h))
          | inr (l, b) ↦
              finish-Explained may client cm (write_back lib client (f cm d)).0 after (f cm d).2 w
                (written-Explained may client cm d (f cm d) found l) b (rw (found) at h)
        ]
      ]
