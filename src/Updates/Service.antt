-- ===== src/Updates/Service.antt =====
-- The state that the position updates share (LocationService.cpp), the payloads and effects, the
-- tests of the subscription lists, and the requests that stop and resume the handlers. `subs` is
-- the subscription lists of the bus. A message is a number; `Messages` is what the service reads
-- from one: whether it subscribes, and `wakelock`, `minimumInterval` and `minimumDistance` of its
-- payload (`wakelock` through location_util_req_has_wakeup of src/lunaIpc/JsonUtility.cpp).
use com_webos_service_locati.Base.{
  ℕ, Bool, true, false, ◌&&◌, ◌||◌, not, Option, none, some, List, [], ◌∷◌, ◌++◌, map, ◌==◌,
  if◌then◌else◌,
}
use com_webos_service_locati.Base.Int.{ℤ}
use com_webos_service_locati.Bus.{
  Key, nmea_data, satellite_data, gps_updates, nw_updates, hybrid_updates, Subscriptions,
}
use com_webos_service_locati.Commands.{
  HandlerRequestType, nmea_cmd, satelitte_cmd, position_cmd, stop_nmea_cmd, stop_satelitte_cmd,
  stop_position_cmd, stop_gps_cmd,
}
use com_webos_service_locati.Errors.{LocationError}
use com_webos_service_locati.Updates.Criteria.{Position, Accuracy}
use com_webos_service_locati.Updates.Table.{UpdateRequest}
use com_webos_service_locati.Wake.{Monitor, Call, set_wake_lock}

pub record Messages : Type 0 where
  pub is_subscription : ℕ → Bool
  pub has_wakeup : ℕ → Bool
  pub min_interval : ℕ → ℤ
  pub min_distance : ℕ → ℤ

pub data Payload (F : Type 0) : Type 0 where
  -- A success, with the position and the accuracy where there are any.
  located : Option (Position F × Accuracy F) → Payload F
  failed : LocationError → Payload F
  -- The object that nothing was put into.
  empty : Payload F
  -- Data that the service passes on.
  other : ℕ → Payload F

pub data Effect (F : Type 0) : Type 0 where
  reply : ℕ → Payload F → Effect F
  -- `processRequest` of the two providers.
  gps : HandlerRequestType → Effect F
  network : HandlerRequestType → Effect F
  remove_source : ℕ → Effect F
  add_source : ℕ → ℤ → Effect F
  wake : Call → Effect F

pub record Service (F : Type 0) (L : Type 0) : Type 0 where
  pub lists : L
  -- m_locUpdate_req_table
  pub table : List (ℕ × UpdateRequest F)
  -- m_lifeCycleMonitor
  pub monitor : Option Monitor
  -- mGpsStatus, mNwStatus
  pub gps_status : Bool
  pub nw_status : Bool

module _ {F : Type 0} {L : Type 0} (accepts : Call → Bool) where
  abbrev pub with_monitor : Service F L → Monitor × List Call → Service F L × List (Effect F)
  with_monitor s (m, cs) = (record s { monitor = some m }, map wake cs)

  -- `if (m_lifeCycleMonitor) m_lifeCycleMonitor->setWakeLock(set)`
  abbrev pub on_monitor : Option Monitor → Bool → Service F L → Service F L × List (Effect F)
  on_monitor none set s = (s, [])
  on_monitor (some m) set s = with_monitor s (set_wake_lock accepts m set false)

  abbrev pub release_lock : Bool → Service F L → Service F L × List (Effect F)
  release_lock false s = (s, [])
  release_lock true s = on_monitor s.monitor false s

module _ (subs : Subscriptions) (l : subs.Lists) where
  -- What isListFilled finds in the messages of a key; `message` may be NULL.
  is_own : ℕ → Option ℕ → Bool
  is_own m none = false
  is_own m (some n) = n == m

  has_next : List ℕ → Bool
  has_next [] = false
  has_next (m ∷ ms) = true

  filled_with : List ℕ → Option ℕ → Bool → Bool
  unfolding is_own has_next
  filled_with [] message cancel = false
  filled_with (m ∷ ms) message cancel = if cancel && is_own m message then has_next ms else true

  unfoldable pub is_list_filled : Option ℕ → Key → Bool → Bool
  unfolding filled_with is_own has_next
  is_list_filled message k cancel =
      if subs.acquires l k then filled_with (subs.messages l k) message cancel else false

-- stopSubcription and stopNonSubcription, which do the same.
module _ {F : Type 0} where
  unfoldable pub stop_subcription : Key → List (Effect F)
  stop_subcription nmea_data = gps stop_nmea_cmd ∷ []
  stop_subcription satellite_data = gps stop_satelitte_cmd ∷ []
  stop_subcription gps_updates = gps stop_position_cmd ∷ []
  stop_subcription nw_updates = network stop_position_cmd ∷ []
  stop_subcription _ = []

  unfoldable pub stop_non_subcription : Key → List (Effect F)
  stop_non_subcription nmea_data = gps stop_nmea_cmd ∷ []
  stop_non_subcription satellite_data = gps stop_satelitte_cmd ∷ []
  stop_non_subcription gps_updates = gps stop_position_cmd ∷ []
  stop_non_subcription nw_updates = network stop_position_cmd ∷ []
  stop_non_subcription _ = []

module _ {F : Type 0} (subs : Subscriptions) where
  -- getLocRequestStopSubscription
  unfoldable pub get_loc_request_stop_subscription : subs.Lists → Option ℕ → List (Effect F)
  get_loc_request_stop_subscription l m =
      (if not (is_list_filled subs l m nw_updates true)
          && not (is_list_filled subs l m hybrid_updates true)
        then stop_subcription nw_updates
        else [])
      ++ (if not (is_list_filled subs l m gps_updates true)
            && not (is_list_filled subs l m hybrid_updates true)
          then stop_subcription gps_updates
          else [])

  -- The requests of resumeGpsEngine; where every list is empty there are none either way.
  unfoldable pub resume_gps_engine : Bool → subs.Lists → List (Effect F)
  resume_gps_engine false l = []
  resume_gps_engine true l =
      (if is_list_filled subs l none nmea_data false then gps nmea_cmd ∷ [] else [])
      ++ (if is_list_filled subs l none satellite_data false then gps satelitte_cmd ∷ [] else [])
      ++ (if is_list_filled subs l none gps_updates false
            || is_list_filled subs l none hybrid_updates false
          then gps position_cmd ∷ []
          else [])

  abbrev pub stop_gps_engine : Bool → List (Effect F)
  stop_gps_engine false = []
  stop_gps_engine true = gps stop_gps_cmd ∷ []
