-- ===== src/Gps/Events.antt =====
-- What can happen to the provider, one call at a time: requests of the service, callbacks of the
-- engine, the timer and the thread.
use com_webos_service_locati.Base.{ℕ, Option, List, [], ◌∷◌, ◌++◌}
use com_webos_service_locati.Base.Int.{ℤ}
use com_webos_service_locati.Ntp.{NtpData}
use com_webos_service_locati.Gps.{Nyx, Conf, Gps, Hal, PositionRequest, Effect}
use com_webos_service_locati.Gps.Engine.{Parameters}
use com_webos_service_locati.Gps.Extra.{
  Reader, gps_request_utc_time_cb, gps_xtra_download_request_cb,
}
use com_webos_service_locati.Gps.Requests.{
  process_request, gps_timeout_cb, get_time_to_first_fix_value,
}
use com_webos_service_locati.Gps.Callbacks.{
  SvStatus, StatusValue, gps_location_cb, gps_status_cb, gps_sv_status_cb, gps_nmea_cb,
  on_request_completed, gps_set_capabilities_cb, geofence_status_cb, xtra_data_injected,
}

pub data Event (F : Type 0) : Type 0 where
  request : PositionRequest F → Event F
  timeout : Event F
  asks_ttff : Event F
  location : Event F
  gps_status : StatusValue → Event F
  sv_status : SvStatus F → Event F
  nmea : Option (List ℕ) → Event F
  capabilities : ℕ → Event F
  geofence_is : ℤ → Event F
  wants_time : Event F
  wants_xtra : Event F
  ntp_ends : Option NtpData → Event F
  xtra_injected : Event F

module _ {F : Type 0} (nyx : Nyx) (max_svs : ℕ) (conf : Conf) (reader : Reader F)
    (read : List ℕ → Option Parameters) where
  unfoldable pub step : Hal → Event F → Gps → Gps × List (Effect F)
  step hal (request q) g =
      let (g', error, effects) = process_request nyx conf reader read hal q g in (g', effects)
  step hal timeout g = gps_timeout_cb g
  step hal asks_ttff g = let (g', time) = get_time_to_first_fix_value g in (g', [])
  step hal location g = gps_location_cb hal g
  step hal (gps_status value) g = gps_status_cb value g
  step hal (sv_status sv) g = (g, gps_sv_status_cb max_svs sv g)
  step hal (nmea text) g = (g, gps_nmea_cb text g)
  step hal (capabilities bits) g = (gps_set_capabilities_cb bits g, [])
  step hal (geofence_is status) g = (geofence_status_cb status g, [])
  step hal wants_time g = gps_request_utc_time_cb hal g
  step hal wants_xtra g = gps_xtra_download_request_cb g
  step hal (ntp_ends r) g = on_request_completed r g
  step hal xtra_injected g = (xtra_data_injected g, [])

  -- Each call has its own answers of the outside.
  unfoldable pub run : List (Hal × Event F) → Gps → Gps × List (Effect F)
  unfolding step
  run [] g = (g, [])
  run ((hal, e) ∷ es) g =
      let (g', effects) = step hal e g in let (g'', more) = run es g' in (g'', effects ++ more)
