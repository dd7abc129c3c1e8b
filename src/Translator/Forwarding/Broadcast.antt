-- ===== src/Translator/Forwarding/Broadcast.antt =====
-- Broadcasts of a difficulty without vardiff.
use sv2_apps_fork.Prelude.{
  ℕ, ◌≡◌, refl, ap, sym, ◌∙◌, Bool, true, false, Option, none, some, List, [], ◌∷◌, ◌++◌,
  if◌then◌else◌, nat_eq, subst,
}
use mathlib.Core.List.{Memᴰ}
use sv2_apps_fork.Prelude.Assoc.{Assoc, lookup}
use sv2_apps_fork.Translator.Vardiff.{Rates, DownstreamData, Sv1Server}
use sv2_apps_fork.Translator.Forwarding.{
  Forwarded, task_of, tasks_of, or_first, send_tasks, send_set_difficulty_to_all_downstreams,
  send_set_difficulty_to_specific_downstream, handle_set_target_without_vardiff,
}

module _ {H V : Type 0} (rates : Rates H V) where
  -- What was sent stays sent.
  send_tasks-keeps :
      (target id d : ℕ) (tasks : List (ℕ × Bool)) (first : Option ℕ) (s : Sv1Server H V)
      → rates.build_set_difficulty target ≡ some d
      → Memᴰ {A = ℕ × ℕ} (id, d) s.events
      → Memᴰ {A = ℕ × ℕ} (id, d) (send_tasks rates target tasks first s).0.events
  unfolding send_tasks
  send_tasks-keeps target id d [] first s built m = m
  send_tasks-keeps target id d ((j, true) ∷ tasks) first s built m =
      rw (built, send_tasks) (send_tasks-keeps target id d tasks first _ built (Memᴰ.tail m))
  send_tasks-keeps target id d ((j, false) ∷ tasks) first s built m =
      rw (built, send_tasks) (send_tasks-keeps target id d tasks (or_first first j) s built m)

  send_tasks-reaches :
      (target id d : ℕ) (tasks : List (ℕ × Bool)) (first : Option ℕ) (s : Sv1Server H V)
      → rates.build_set_difficulty target ≡ some d
      → Memᴰ {A = ℕ × Bool} (id, true) tasks
      → Memᴰ {A = ℕ × ℕ} (id, d) (send_tasks rates target tasks first s).0.events
  unfolding send_tasks
  send_tasks-reaches target id d [] first s built m = elim m [ ]
  send_tasks-reaches target id d ((j, true) ∷ tasks) first s built (Memᴰ.head e) =
      let named : id ≡ j = ap (λ x. x.0) e in
      rw (built, send_tasks, named)
        (send_tasks-keeps target j d tasks first _ built (Memᴰ.head refl))
  send_tasks-reaches target id d ((j, false) ∷ tasks) first s built (Memᴰ.head e) =
      absurd (cc (ap (λ x. x.1) e))
  send_tasks-reaches target id d ((j, true) ∷ tasks) first s built (Memᴰ.tail m) =
      rw (built, send_tasks) (send_tasks-reaches target id d tasks first _ built m)
  send_tasks-reaches target id d ((j, false) ∷ tasks) first s built (Memᴰ.tail m) =
      rw (built, send_tasks) (send_tasks-reaches target id d tasks (or_first first j) s built m)

  Memᴰ-left :
      {x : ℕ × Bool} (xs ys : List (ℕ × Bool)) → Memᴰ {A = ℕ × Bool} x xs → Memᴰ x (xs ++ ys)
  Memᴰ-left [] ys m = elim m [ ]
  Memᴰ-left (y ∷ xs) ys (Memᴰ.head e) = Memᴰ.head e
  Memᴰ-left (y ∷ xs) ys (Memᴰ.tail m) = Memᴰ.tail (Memᴰ-left xs ys m)

  Memᴰ-right :
      {x : ℕ × Bool} (xs ys : List (ℕ × Bool)) → Memᴰ {A = ℕ × Bool} x ys → Memᴰ x (xs ++ ys)
  Memᴰ-right [] ys m = m
  Memᴰ-right (y ∷ xs) ys m = Memᴰ.tail (Memᴰ-right xs ys m)

  tasks_of-Memᴰ :
      (senders : Assoc ℕ Bool) (ms : Assoc ℕ (DownstreamData H)) (id channel_id : ℕ)
      (m : DownstreamData H)
      → Memᴰ {A = ℕ × DownstreamData H} (id, m) ms
      → m.channel_id ≡ some channel_id
      → lookup id senders ≡ some true
      → Memᴰ {A = ℕ × Bool} (id, true) (tasks_of senders ms)
  unfolding tasks_of
  tasks_of-Memᴰ senders [] id c m k opened reach = elim k [ ]
  tasks_of-Memᴰ senders ((j, n) ∷ ms) id c m (Memᴰ.head e) opened reach =
      let named : id ≡ j = ap (λ x. x.0) e in
      let same : m.channel_id ≡ n.channel_id = ap (λ x. x.1.channel_id) e in
      let channel : n.channel_id ≡ some c = sym same ∙ opened in
      let sender : lookup j senders ≡ some true = ap (λ i. lookup i senders) (sym named) ∙ reach in
      Memᴰ-left (task_of j n.channel_id (lookup j senders)) (tasks_of senders ms) (
        subst (λ o. Memᴰ {A = ℕ × Bool} (id, true) (task_of j o (lookup j senders))) (sym channel)
          (subst (λ o. Memᴰ {A = ℕ × Bool} (id, true) (task_of j (some c) o)) (sym sender)
            (Memᴰ.head (ap (λ i. (i, true)) named))))
  tasks_of-Memᴰ senders ((j, n) ∷ ms) id c m (Memᴰ.tail k) opened reach =
      Memᴰ-right (task_of j n.channel_id (lookup j senders)) (tasks_of senders ms)
        (tasks_of-Memᴰ senders ms id c m k opened reach)

  chosen :
      {x : ℕ × ℕ} (b : Bool) (a c : Sv1Server H V × Forwarded)
      → b ≡ true
      → Memᴰ {A = ℕ × ℕ} x a.0.events
      → Memᴰ {A = ℕ × ℕ} x (if b then a else c).0.events
  chosen true a c e m = m
  chosen false a c e m = absurd (cc)

  -- In an aggregate without vardiff, a SetTarget whose difficulty can be built reaches every miner
  -- with a channel whose own connection takes messages, whichever others are closed.
  pub broadcast_reaches :
      (hash_rate_from_target : ℕ → Option H) (channel_id target d : ℕ) (s : Sv1Server H V)
      → s.is_aggregated ≡ true
      → rates.build_set_difficulty target ≡ some d
      → (id own_channel : ℕ) (m : DownstreamData H)
      → Memᴰ {A = ℕ × DownstreamData H} (id, m) s.downstreams
      → m.channel_id ≡ some own_channel
      → lookup id s.sv1_server_to_downstream_sender ≡ some true
      → Memᴰ {A = ℕ × ℕ}
          (id, d)
          (handle_set_target_without_vardiff rates hash_rate_from_target channel_id target
            s).0.events
  unfolding handle_set_target_without_vardiff send_set_difficulty_to_all_downstreams
  broadcast_reaches hash_rate_from_target channel_id target d s together built id c m k opened
        reach =
      let tasks = tasks_of s.sv1_server_to_downstream_sender s.downstreams in
      let member =
        tasks_of-Memᴰ s.sv1_server_to_downstream_sender s.downstreams id c m k opened reach in
      let all =
        send_set_difficulty_to_all_downstreams rates target (hash_rate_from_target target) s in
      let one =
        send_set_difficulty_to_specific_downstream rates channel_id target
          (hash_rate_from_target target) s in
      chosen s.is_aggregated all one together
        (send_tasks-reaches target id d tasks none _ built member)
