-- ===== src/Translator/Vardiff.antt =====
-- miner-apps/translator/src/lib/sv1/sv1_server/difficulty_manager.rs: variable difficulty, the
-- targets that wait for the upstream, and the updates that the upstream is sent. A call runs alone.
-- Hashrates are floating-point numbers: their type, their sum and every computation from them are
-- parameters, and so is the state of a vardiff machine. Poisoned locks are left out.
pub mod Upstream
pub mod Delivery
pub mod Parking
pub mod Quiet
pub mod Sending
pub mod Advertised
pub mod Retargeting
pub mod Confirmed
pub mod Aggregate
use sv2_apps_fork.Prelude.{
  ℕ, zero, suc, ◌-◌, ◌^◌, Bool, true, false, not, ◌&&◌, ◌||◌, Option, none, some, List, [], ◌∷◌,
  ◌++◌, if◌then◌else◌, ◌==◌, nat_eq, leb,
}
use sv2_apps_fork.Prelude.Assoc.{Assoc, lookup, insert, without, retain, adjust, map_values}

-- `Ok(Some)`, `Ok(None)` and `Err` of `try_vardiff`.
pub data TryVardiff (H : Type 0) : Type 0 where
  changed : (new_hashrate : H) → TryVardiff H
  unchanged failed : TryVardiff H

-- What channels_sv2 and stratum_translation compute, at the shares per minute of the configuration.
pub record Rates (H V : Type 0) : Type 0 where
  pub zero_rate : H
  pub add : H → H → H
  pub hash_rate_to_target : H → Option ℕ
  pub sv1_advertised_target : ℕ → Option ℕ
  pub build_set_difficulty : ℕ → Option ℕ
  pub try_vardiff : V → H → ℕ → V × TryVardiff H

-- The fields of `DownstreamData` that vardiff reads or writes.
pub record DownstreamData (H : Type 0) : Type 0 where
  pub channel_id : Option ℕ
  pub hashrate : Option H
  pub pending_hashrate : Option H
  pub target : ℕ
  pub pending_target : Option ℕ
  pub upstream_target : Option ℕ
  pub stable_hashrate : Bool

pub record UpdateChannel (H : Type 0) : Type 0 where
  pub channel_id : ℕ
  pub nominal_hash_rate : H
  pub max_target : ℕ

pub data Result : Type 0 where
  ok shutdown panic : Result

-- A miner's channel is absent, closed or open; `events`, `upstream` and
-- `closed_channels` (the messages for the upstream) hold the newest first.
pub record Sv1Server (H V : Type 0) : Type 0 where
  pub is_aggregated : Bool
  pub vardiff : Assoc ℕ V
  pub downstreams : Assoc ℕ (DownstreamData H)
  pub channel_id_to_downstream_id : Assoc ℕ ℕ
  pub request_id_to_downstream_id : Assoc ℕ ℕ
  pub pending_target_updates : Assoc ℕ ℕ
  pub sv1_server_to_downstream_sender : Assoc ℕ Bool
  pub channel_manager_open : Bool
  pub events : List (ℕ × ℕ)
  pub upstream : List (UpdateChannel H)
  pub closed_channels : List ℕ

-- `immediate_updates` and `all_updates` of a round over the vardiff machines.
pub record Round (H V : Type 0) : Type 0 where
  pub server : Sv1Server H V
  pub immediate_updates : List (ℕ × ℕ)
  pub all_updates : List (UpdateChannel H)
  pub panicked : Bool

-- A larger target is easier; without an upstream target all are safe.
abbrev pub is_safe : Option ℕ → ℕ → Bool
is_safe none new_target = true
is_safe (some upstream_target) new_target = leb upstream_target new_target

abbrev pub or_given : Option ℕ → ℕ → ℕ
or_given none given = given
or_given (some found) given = found

module _ {H : Type 0} where
  abbrev pub set_pending : ℕ → H → DownstreamData H → DownstreamData H
  set_pending target new_hashrate data' = record data' {
    pending_target = some target;
    pending_hashrate = some new_hashrate;
    stable_hashrate = false;
  }

  abbrev pub set_stable : DownstreamData H → DownstreamData H
  set_stable data' = record data' { stable_hashrate = true }

  abbrev pub set_upstream_target : ℕ → DownstreamData H → DownstreamData H
  set_upstream_target target data' = record data' { upstream_target = some target }

module _ {H V : Type 0} where
  -- An immediate update removes a parked target, a harder one is parked.
  unfoldable pub sort_update :
      (downstream_id : ℕ) (upstream_target : Option ℕ) (new_target : ℕ) → Round H V → Round H V
  sort_update id upstream_target new_target r =
      let s = r.server in
      if is_safe upstream_target new_target
      then record r {
        immediate_updates = r.immediate_updates ++ ((id, new_target) ∷ []);
        server = record s { pending_target_updates = without id s.pending_target_updates };
      }
      else record r {
        server = record s {
          pending_target_updates = insert id new_target s.pending_target_updates;
        };
      }

  module _ (rates : Rates H V) where
    unfoldable pub apply_target :
        (downstream_id channel_id : ℕ) (upstream_target : Option ℕ) (new_hashrate : H)
        (new_target : ℕ)
        → Round H V
        → Round H V
    unfolding sort_update
    apply_target id channel_id upstream_target new_hashrate new_target r =
        let s = r.server in
        let update : UpdateChannel H = record {
          channel_id = channel_id;
          nominal_hash_rate = new_hashrate;
          max_target = new_target;
        } in
        let advertised = or_given (rates.sv1_advertised_target new_target) new_target in
        sort_update id upstream_target new_target (record r {
          server = record s {
            downstreams = adjust id (set_pending advertised new_hashrate) s.downstreams;
          };
          all_updates = r.all_updates ++ (update ∷ []);
        })

    unfoldable pub apply_vardiff :
        (downstream_id channel_id : ℕ) (upstream_target : Option ℕ)
        → TryVardiff H
        → Round H V
        → Round H V
    unfolding apply_target
    apply_vardiff id channel_id upstream_target failed r = r
    apply_vardiff id channel_id upstream_target unchanged r =
        let s = r.server in
        record r { server = record s { downstreams = adjust id set_stable s.downstreams } }
    apply_vardiff id channel_id upstream_target (changed new_hashrate) r =
        elim (rates.hash_rate_to_target new_hashrate) [
          | none ↦ r
          | some new_target ↦ apply_target id channel_id upstream_target new_hashrate new_target r
        ]

    -- A miner without a hashrate panics, also one without a channel.
    unfoldable pub visit_miner :
        (downstream_id : ℕ) (machine : V) (channel_id : Option ℕ) (hashrate : Option H) (target : ℕ)
        (upstream_target : Option ℕ)
        → Round H V
        → Round H V
    unfolding apply_vardiff
    visit_miner id machine channel_id none target upstream_target r = record r { panicked = true }
    visit_miner id machine none (some hashrate) target upstream_target r = r
    visit_miner id machine (some channel_id) (some hashrate) target upstream_target r =
        let (machine', outcome) = rates.try_vardiff machine hashrate target in
        let s = r.server in
        apply_vardiff id channel_id upstream_target outcome
          (record r { server = record s { vardiff = adjust id (λ old. machine') s.vardiff } })

    unfoldable pub visit : (downstream_id : ℕ) (machine : V) → Round H V → Round H V
    unfolding visit_miner
    visit id machine r = elim (lookup id r.server.downstreams) [
      | none ↦ r
      | some m ↦ visit_miner id machine m.channel_id m.hashrate m.target m.upstream_target r
    ]

    unfoldable pub visit_all : Assoc ℕ V → Round H V → Round H V
    unfolding visit
    visit_all [] r = r
    visit_all ((id, machine) ∷ machines) r =
        let next = visit id machine r in
        let rest = visit_all machines next in if next.panicked then next else rest
