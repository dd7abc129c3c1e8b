-- ===== src/Translator/Downstream/Session.antt =====
-- The setup of a session completes once.
use sv2_apps_fork.Prelude.{
  ℕ, ◌+◌, ◌≡◌, ap, Bool, true, false, not, ◌&&◌, ◌||◌, List, [], ◌∷◌, if◌then◌else◌, arith,
}
use sv2_apps_fork.Translator.Downstream.{
  Sv1SetupRequest, subscribe, authorize, Sv1SessionState, starting, default_session,
  record_response, setup_complete,
}

abbrev is_subscribe : Sv1SetupRequest → Bool
is_subscribe subscribe = true
is_subscribe authorize = false

-- Whether there is a request of each kind.
pub subscribes : List Sv1SetupRequest → Bool
subscribes [] = false
subscribes (r ∷ rs) = is_subscribe r || subscribes rs

pub authorizes : List Sv1SetupRequest → Bool
authorizes [] = false
authorizes (r ∷ rs) = not (is_subscribe r) || authorizes rs

-- The responses recorded one after the other: the state, and how often the answer was `true`.
unfoldable pub record_responses : List Sv1SetupRequest → Sv1SessionState → Sv1SessionState × ℕ
record_responses [] s = (s, 0)
record_responses (r ∷ rs) s =
    let (t, first) = record_response r s in
    let (u, n) = record_responses rs t in (u, (if first then 1 else 0) + n)

record_responses-from :
    (rs : List Sv1SetupRequest) (a b : Bool)
    → (record_responses rs (starting a b)).0 ≡ starting (a || subscribes rs) (b || authorizes rs)
      × ((record_responses rs (starting a b)).1
          ≡ (if not (a && b) && ((a || subscribes rs) && (b || authorizes rs)) then 1 else 0))
unfolding record_responses record_response subscribes authorizes
record_responses-from [] a b = ground arith
record_responses-from (subscribe ∷ rs) a b = ground (arith, record_responses-from rs true b)
record_responses-from (authorize ∷ rs) a b = ground (arith, record_responses-from rs a true)

-- Over any requests of a new session, the setup is reported complete once if both kinds were among
-- them, and never otherwise, and the state then says so.
pub record_responses-once :
    (rs : List Sv1SetupRequest)
    → ((record_responses rs default_session).1 ≡ (if subscribes rs && authorizes rs then 1 else 0))
      × (setup_complete (record_responses rs default_session).0 ≡ (subscribes rs && authorizes rs))
record_responses-once rs =
    let (state, count) = record_responses-from rs false false in (count, ap setup_complete state)
