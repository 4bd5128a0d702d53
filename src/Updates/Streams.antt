-- ===== src/Updates/Streams.antt =====
-- The data that the GPS streams to clients, and the other requests to the GPS provider:
-- getNmeaData, getGpsSatelliteData, getNfwNotifications, setGPSParameters, stopGPS, sendExtraCommand,
-- getGpsDebugData and getTimeToFirstFix of src/lunaIpc/LocationService.cpp, with what the callbacks
-- for NMEA and satellite data send. The results of the GPS provider are inputs. Data is a number.
pub mod Events
mod Heard
mod Once
mod Tests
use com_webos_service_locati.Base.{
  ℕ, Bool, true, false, not, ◌||◌, Option, none, some, List, [], ◌∷◌, ◌++◌, map, codes,
  if◌then◌else◌,
}
use com_webos_service_locati.Base.Int.{ℤ}
use com_webos_service_locati.Bus.{nmea_data, satellite_data, Subscriptions}
use com_webos_service_locati.Commands.{
  HandlerRequestType, nmea_cmd, satelitte_cmd, set_gps_parameters_cmd, stop_gps_cmd,
  send_gps_extra_cmd,
}
use com_webos_service_locati.Errors.{
  ErrorCode, error_none, error_not_available, error_duplicate_request, LocationError, location_off,
  unknown_error, invalid_input, gps_nyx_source_unavailable,
}
use com_webos_service_locati.Gps.Extra.{same_text}
use com_webos_service_locati.Updates.Cancel.{ls_subscription_non_subscription_reply}
use com_webos_service_locati.Updates.Service.{
  Messages, Payload, failed, other, Effect, reply, gps, Service, with_monitor,
}
use com_webos_service_locati.Wake.{Monitor, Call, set_wake_lock}

-- The error that is left by the provider's result.
pub provider_error : ErrorCode → Option LocationError
provider_error error_not_available = some gps_nyx_source_unavailable
provider_error error_none = none
provider_error error_duplicate_request = none
provider_error e = some unknown_error

pub reply_failed : {F : Type 0} → ℕ → Option LocationError → List (Effect F)
reply_failed m none = []
reply_failed m (some e) = reply m (failed e) ∷ []

module _ {F : Type 0} (subs : Subscriptions) where
  -- `valid` is the answer of the schema, `adds` that of LSSubscriptionAdd, and `result` that of the
  -- GPS provider.
  unfoldable pub get_nmea_data :
      Bool → Bool → ErrorCode → ℕ → Service F subs.Lists → Service F subs.Lists × List (Effect F)
  get_nmea_data valid adds result m s =
      if not valid
      then (s, reply m (failed invalid_input) ∷ [])
      else if not s.gps_status
      then (s, reply m (failed location_off) ∷ [])
      else if not adds
      then (s, reply m (failed unknown_error) ∷ [])
      else (
        record s { lists = subs.add s.lists nmea_data m },
        gps nmea_cmd ∷ reply_failed m (provider_error result),
      )

  -- Where the message cannot be added there is no reply.
  unfoldable pub get_gps_satellite_data :
      Bool → Bool → ErrorCode → ℕ → Service F subs.Lists → Service F subs.Lists × List (Effect F)
  get_gps_satellite_data valid adds result m s =
      if not valid
      then (s, reply m (failed invalid_input) ∷ [])
      else if not s.gps_status
      then (s, reply m (failed location_off) ∷ [])
      else if not adds
      then (s, [])
      else (
        record s { lists = subs.add s.lists satellite_data m },
        gps satelitte_cmd ∷ reply_failed m (provider_error result),
      )

  module _ (msgs : Messages) (accepts : Call → Bool) where
    -- sendNmeaData and sendSatelliteData, from the idle loop.
    unfoldable pub send_nmea_data :
        ℕ → Service F subs.Lists → Service F subs.Lists × List (Effect F)
    send_nmea_data text s =
        ls_subscription_non_subscription_reply subs msgs accepts nmea_data (other text) s

    pub send_satellite_data : ℕ → Service F subs.Lists → Service F subs.Lists × List (Effect F)
    send_satellite_data text s =
        ls_subscription_non_subscription_reply subs msgs accepts satellite_data (other text) s

pub data DirectEffect : Type 0 where
  answer : ℕ → Option LocationError → DirectEffect
  answer_subscribed : ℕ → DirectEffect
  answer_debug : ℕ → ℕ → DirectEffect
  answer_ttff : ℕ → ℤ → DirectEffect
  subscribe_nfw : ℕ → DirectEffect
  ask_gps : HandlerRequestType → List ℕ → DirectEffect
  wakes : Call → DirectEffect

-- Each of the methods below starts with the schema, whose answer is `valid`.
pub checked : Bool → ℕ → List DirectEffect → List DirectEffect
checked true m es = es
checked false m es = answer m (some invalid_input) ∷ []

pub get_nfw_notifications : Bool → Bool → ℕ → List DirectEffect
get_nfw_notifications valid adds m =
    checked valid m
      (subscribe_nfw m ∷ (if adds then answer_subscribed m else answer m (some unknown_error)) ∷ [])

pub is_none : ErrorCode → Bool
is_none error_none = true
is_none e = false

pub set_gps_parameters : Bool → List ℕ → ErrorCode → ℕ → List DirectEffect
set_gps_parameters valid params result m = checked valid m (
    ask_gps set_gps_parameters_cmd params
    ∷ answer m (if is_none result then none else some invalid_input)
    ∷ [])

pub stop_gps : Bool → ErrorCode → ℕ → List DirectEffect
stop_gps valid result m =
    checked valid m (
      ask_gps stop_gps_cmd [] ∷ answer m (if is_none result then none else some unknown_error) ∷ [])

-- The monitor's calls where a suspend blocker is forced off.
pub forced_off : (Call → Bool) → Option Monitor → Option Monitor × List DirectEffect
forced_off accepts none = (none, [])
forced_off accepts (some w) =
    let (w', cs) = set_wake_lock accepts w false true in (some w', map wakes cs)

pub is_not_available : ErrorCode → Bool
is_not_available error_not_available = true
is_not_available e = false

-- The state is m_enableSuspendBlocker and the monitor.
pub run_command :
    (Call → Bool)
    → List ℕ
    → ErrorCode
    → ℕ
    → Bool × Option Monitor
    → (Bool × Option Monitor) × List DirectEffect
run_command accepts command result m (blocks, w) =
    if same_text command (codes "enable_suspend_blocker")
    then ((true, w), answer m none ∷ [])
    else if same_text command (codes "disable_suspend_blocker")
    then (let (w', es) = forced_off accepts w in ((false, w'), es ++ answer m none ∷ []))
    else (
      (blocks, w),
      ask_gps send_gps_extra_cmd command
          ∷ answer m (if is_not_available result then some invalid_input else none)
          ∷ [],
    )

-- A message without a command is not answered.
pub send_extra_command :
    Bool
    → (Call → Bool)
    → Option (List ℕ)
    → ErrorCode
    → ℕ
    → Bool × Option Monitor
    → (Bool × Option Monitor) × List DirectEffect
send_extra_command false accepts command result m s = (s, answer m (some invalid_input) ∷ [])
send_extra_command true accepts none result m s = (s, [])
send_extra_command true accepts (some command) result m s = run_command accepts command result m s

-- The results of the debug query of nyx.
pub data DebugResult : Type 0 where
  debug_data : ℕ → DebugResult
  debug_not_implemented debug_failed : DebugResult

pub debug_reply : DebugResult → ℕ → DirectEffect
debug_reply (debug_data text) m = answer_debug m text
debug_reply debug_not_implemented m = answer m (some gps_nyx_source_unavailable)
debug_reply debug_failed m = answer m (some unknown_error)

pub get_gps_debug_data : Bool → DebugResult → ℕ → List DirectEffect
get_gps_debug_data valid result m = checked valid m (debug_reply result m ∷ [])

pub get_time_to_first_fix : Bool → ℤ → ℕ → List DirectEffect
get_time_to_first_fix valid ttff m = checked valid m (answer_ttff m ttff ∷ [])
