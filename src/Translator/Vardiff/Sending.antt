-- ===== src/Translator/Vardiff/Sending.antt =====
-- The loops that send difficulties, for targets that are safe.
use sv2_apps_fork.Prelude.{
  ℕ, ◌≡◌, ◌≢◌, refl, sym, ap, ◌∙◌, ◌⊎◌, inl, inr, Bool, true, false, Option, none, some, List, [],
  ◌∷◌, ◌++◌, nat_eq, Option-cases,
}
use sv2_apps_fork.Prelude.Assoc.{Assoc, lookup}
use sv2_apps_fork.Translator.Vardiff.{Rates, DownstreamData, Sv1Server}
use sv2_apps_fork.Translator.Vardiff.Delivery.{
  push_event, send_set_difficulty, send_set_difficulties,
}
use sv2_apps_fork.Translator.Vardiff.Parking.{Every, safe_in}
use mathlib.Core.List.{Memᴰ}

module _ {H V : Type 0} where
  module _ (rates : Rates H V) where
    -- A difficulty that came from a target that is not too hard for the miner it is sent to.
    abbrev pub IsSafeEvent : Assoc ℕ (DownstreamData H) → ℕ × ℕ → Type 0
    IsSafeEvent downstreams event =
        (target : ℕ) × (rates.build_set_difficulty target ≡ some event.1)
        × (safe_in event.0 target downstreams ≢ some false)

    -- Only safe difficulties are added to what was sent, and all that can be built and sent.
    pub record SendsSafely (downstreams : Assoc ℕ (DownstreamData H)) (updates : List (ℕ × ℕ))
        (s t : Sv1Server H V) : Type 0 where
      pub kept_downstreams : t.downstreams ≡ s.downstreams
      pub kept_pending : t.pending_target_updates ≡ s.pending_target_updates
      pub kept_senders : t.sv1_server_to_downstream_sender ≡ s.sv1_server_to_downstream_sender
      pub added : List (ℕ × ℕ)
      pub sent : t.events ≡ added ++ s.events
      pub safe : Every (IsSafeEvent downstreams) added
      pub reached :
          (id target difficulty : ℕ)
          → Memᴰ (id, target) updates
          → rates.build_set_difficulty target ≡ some difficulty
          → lookup id s.sv1_server_to_downstream_sender ≡ some true
          → Memᴰ (id, difficulty) added

    -- Nothing is sent.
    skip-SendsSafely :
        (ds : Assoc ℕ (DownstreamData H)) (updates : List (ℕ × ℕ)) (s : Sv1Server H V)
        → ((id target difficulty : ℕ)
            → Memᴰ (id, target) updates
            → rates.build_set_difficulty target ≡ some difficulty
            → lookup id s.sv1_server_to_downstream_sender ≡ some true
            → ⊥)
        → SendsSafely ds updates s s
    skip-SendsSafely ds updates s never = record {
      kept_downstreams = refl;
      kept_pending = refl;
      kept_senders = refl;
      added = [];
      sent = refl;
      safe = tt;
      reached = λ id t d m e o. absurd (never id t d m e o);
    }

    nothing_in : {x : ℕ × ℕ} → Memᴰ {A = ℕ × ℕ} x [] → ⊥
    nothing_in m = elim m [ ]

    mem_cases :
        (x y : ℕ × ℕ) (ys : List (ℕ × ℕ)) → Memᴰ {A = ℕ × ℕ} x (y ∷ ys) → (x ≡ y) ⊎ Memᴰ x ys
    mem_cases x y ys (Memᴰ.head e) = inl e
    mem_cases x y ys (Memᴰ.tail m) = inr m

    the_update :
        (i t id target : ℕ) → Memᴰ {A = ℕ × ℕ} (i, t) ((id, target) ∷ []) → (i ≡ id) × (t ≡ target)
    the_update i t id target m = elim (mem_cases (i, t) (id, target) [] m) [
      | inl e ↦ (ap (λ x. x.0) e, ap (λ x. x.1) e)
      | inr none_left ↦ absurd (nothing_in none_left)
    ]

    push_event-SendsSafely :
        (ds : Assoc ℕ (DownstreamData H)) (id target d : ℕ) (o : Option Bool) (s : Sv1Server H V)
        → lookup id s.sv1_server_to_downstream_sender ≡ o
        → rates.build_set_difficulty target ≡ some d
        → safe_in id target ds ≢ some false
        → SendsSafely ds ((id, target) ∷ []) s (push_event id d o s)
    push_event-SendsSafely ds id target d (some true) s reach built safe = record {
      kept_downstreams = refl;
      kept_pending = refl;
      kept_senders = refl;
      added = (id, d) ∷ [];
      sent = refl;
      safe = ((target, built, safe), tt);
      reached = λ i t d' m e o.
          let (named, it) = the_update i t id target m in
          let same : d' ≡ d = cc (it, e, built) in rw (named, same) (Memᴰ.head refl);
    }
    push_event-SendsSafely ds id target d (some false) s reach built safe =
        skip-SendsSafely ds _ s
          (λ i t d' m e o. let (named, it) = the_update i t id target m in cc (named, o, reach))
    push_event-SendsSafely ds id target d none s reach built safe =
        skip-SendsSafely ds _ s
          (λ i t d' m e o. let (named, it) = the_update i t id target m in cc (named, o, reach))

    send_set_difficulty-SendsSafely :
        (ds : Assoc ℕ (DownstreamData H)) (id target : ℕ) (s : Sv1Server H V)
        → safe_in id target ds ≢ some false
        → SendsSafely ds ((id, target) ∷ []) s (send_set_difficulty rates id target s)
    unfolding send_set_difficulty
    send_set_difficulty-SendsSafely ds id target s safe =
        elim (Option-cases (rates.build_set_difficulty target)) [
          | inl nothing ↦
              rw (nothing, send_set_difficulty)
                (skip-SendsSafely ds _ s (λ i t d' m e o.
                  let (named, it) = the_update i t id target m in cc (it, e, nothing)))
          | inr (d, it) ↦
              rw (it, send_set_difficulty)
                (push_event-SendsSafely ds id target d (lookup id s.sv1_server_to_downstream_sender)
                  s refl it safe)
        ]

    Every-join :
        (P : ℕ × ℕ → Type 0) (xs ys : List (ℕ × ℕ)) → Every P xs → Every P ys → Every P (xs ++ ys)
    Every-join P [] ys a b = b
    Every-join P (x ∷ xs) ys (p, a) b = (p, Every-join P xs ys a b)

    append_assoc : (xs ys zs : List (ℕ × ℕ)) → (xs ++ ys) ++ zs ≡ xs ++ (ys ++ zs)
    append_assoc [] ys zs = refl
    append_assoc (x ∷ xs) ys zs = ap (λ l. x ∷ l) (append_assoc xs ys zs)

    Memᴰ-append-left :
        {x : ℕ × ℕ} (xs ys : List (ℕ × ℕ)) → Memᴰ {A = ℕ × ℕ} x xs → Memᴰ x (xs ++ ys)
    Memᴰ-append-left [] ys m = absurd (nothing_in m)
    Memᴰ-append-left (y ∷ xs) ys (Memᴰ.head e) = Memᴰ.head e
    Memᴰ-append-left (y ∷ xs) ys (Memᴰ.tail m) = Memᴰ.tail (Memᴰ-append-left xs ys m)

    Memᴰ-append-right :
        {x : ℕ × ℕ} (xs ys : List (ℕ × ℕ)) → Memᴰ {A = ℕ × ℕ} x ys → Memᴰ x (xs ++ ys)
    Memᴰ-append-right [] ys m = m
    Memᴰ-append-right (y ∷ xs) ys m = Memᴰ.tail (Memᴰ-append-right xs ys m)

    pub send_set_difficulties-SendsSafely :
        (ds : Assoc ℕ (DownstreamData H)) (updates : List (ℕ × ℕ)) (s : Sv1Server H V)
        → Every (λ x. safe_in x.0 x.1 ds ≢ some false) updates
        → SendsSafely ds updates s (send_set_difficulties rates updates s)
    unfolding send_set_difficulties
    send_set_difficulties-SendsSafely ds [] s safe =
        skip-SendsSafely ds [] s (λ i t d m e o. nothing_in m)
    send_set_difficulties-SendsSafely ds ((id, target) ∷ updates) s (p, safe) =
        let t = send_set_difficulty rates id target s in
        let a = send_set_difficulty-SendsSafely ds id target s p in
        let b = send_set_difficulties-SendsSafely ds updates t safe in
        record {
          kept_downstreams = b.kept_downstreams ∙ a.kept_downstreams;
          kept_pending = b.kept_pending ∙ a.kept_pending;
          kept_senders = b.kept_senders ∙ a.kept_senders;
          added = b.added ++ a.added;
          sent =
              b.sent
              ∙ (ap (λ l. b.added ++ l) a.sent ∙ sym (append_assoc b.added a.added s.events));
          safe = Every-join (IsSafeEvent ds) b.added a.added b.safe a.safe;
          reached = λ i t' d m e o. elim (mem_cases (i, t') (id, target) updates m) [
            | inl same ↦ Memᴰ-append-right b.added a.added (a.reached i t' d (Memᴰ.head same) e o)
            | inr later ↦
                Memᴰ-append-left b.added a.added
                  (b.reached i t' d later e (ap (lookup i) a.kept_senders ∙ o))
          ];
        }
