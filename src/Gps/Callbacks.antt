-- ===== src/Gps/Callbacks.antt =====
-- What the engine tells: the callbacks of GPSNyxInterface.cpp. The callback of the service is
-- taken to be set: the code calls it without a test.
use com_webos_service_locati.Base.{
  ℕ, ◌-◌, Bool, true, false, ◌&&◌, Option, none, some, List, [], ◌∷◌, ◌++◌, map, take, leb, ltb,
  if◌then◌else◌,
}
use com_webos_service_locati.Base.Int.{ℤ, pos, negsuc}
use com_webos_service_locati.Errors.{error_none}
use com_webos_service_locati.Ntp.{NtpData}
use com_webos_service_locati.Gps.{
  Gps, Hal, Satellite, Effect, idle, inject_time, feed_data, nmea_logger, report_location,
  report_nmea, report_satellites, report_status, has_bit,
}

-- An entry of `sv_list`.
pub record SvInfo (F : Type 0) : Type 0 where
  pub snr : F
  pub prn : ℤ
  pub elevation : F
  pub azimuth : F

-- `nyx_gps_sv_status_t`: the array has NYX_GPS_MAX_SVS entries.
pub record SvStatus (F : Type 0) : Type 0 where
  pub num_svs : ℤ
  pub sv_list : List (SvInfo F)
  pub used_in_fix_mask : ℕ
  pub ephemeris_mask : ℕ
  pub almanac_mask : ℕ

pub data StatusValue : Type 0 where
  status_none session_begin session_end engine_on engine_off : StatusValue

-- A satellite whose number is not in [1, 32] has no bit in a mask.
unfoldable pub in_mask : ℕ → ℤ → Bool
in_mask mask (pos n) = leb 1 n && leb n 32 && has_bit mask (n - 1)
in_mask mask (negsuc n) = false

unfoldable pub clamp : ℕ → ℤ → ℕ
clamp max (negsuc n) = 0
clamp max (pos n) = if ltb max n then max else n

-- The value of `mGPSStatus` after a status.
unfoldable pub next_status : StatusValue → Bool → Bool
next_status status_none b = b
next_status session_begin b = b
next_status session_end b = b
next_status engine_on b = true
next_status engine_off b = false

module _ {F : Type 0} where
  -- The stored position is the input of `set_store_position`, which is a store of its own.
  unfoldable pub gps_location_cb : Hal → Gps → Gps × List (Effect F)
  gps_location_cb hal g = (
    if g.ttff_state then g else record g { last_fix_time = hal.now; ttff_state = true },
    if g.location_updates_on then report_location error_none ∷ [] else [],
  )

  unfoldable pub gps_status_cb : StatusValue → Gps → Gps × List (Effect F)
  unfolding next_status
  gps_status_cb value g =
      let status = next_status value g.status_available in
      if status_changed g.status_available status
      then (record g { status_available = status }, report_status status ∷ [])
      else (g, [])
    where
      status_changed : Bool → Bool → Bool
      status_changed true b = if b then false else true
      status_changed false b = b

  pub satellite_of : SvStatus F → SvInfo F → Satellite F
  unfolding in_mask
  satellite_of sv i = record {
    snr = i.snr;
    prn = i.prn;
    elevation = i.elevation;
    azimuth = i.azimuth;
    used = in_mask sv.used_in_fix_mask i.prn;
    has_almanac = in_mask sv.almanac_mask i.prn;
    has_ephemeris = in_mask sv.ephemeris_mask i.prn;
  }

  unfoldable pub gps_sv_status_cb : ℕ → SvStatus F → Gps → List (Effect F)
  unfolding clamp satellite_of
  gps_sv_status_cb max_svs sv g =
      let num_svs = clamp max_svs sv.num_svs in
      if ltb 0 num_svs && g.satellite_get_data_on
      then report_satellites (map (satellite_of sv) (take num_svs sv.sv_list)) ∷ []
      else []

  unfoldable pub gps_nmea_cb : Option (List ℕ) → Gps → List (Effect F)
  gps_nmea_cb none g = []
  gps_nmea_cb (some text) g =
      (if g.nmea_log then feed_data nmea_logger text ∷ [] else [])
      ++ (if g.nmea_get_data_on then report_nmea text ∷ [] else [])

  -- The NTP client has ended (GPSNyxInterface::onRequestCompleted), `none` for an error.
  unfoldable pub on_request_completed : Option NtpData → Gps → Gps × List (Effect F)
  on_request_completed none g = (record g { download_ntp = idle }, [])
  on_request_completed (some d) g = (
    record g { download_ntp = idle },
    inject_time d.ntp_time d.ntp_time_reference d.round_trip_time ∷ [],
  )

unfoldable pub gps_set_capabilities_cb : ℕ → Gps → Gps
gps_set_capabilities_cb capabilities g = record g { engine_capabilities = capabilities }

unfoldable pub geofence_status_cb : ℤ → Gps → Gps
geofence_status_cb status g = record g { geofence_status = status }

-- The thread has injected the XTRA data (ACTION_XTRA_DATA).
unfoldable pub xtra_data_injected : Gps → Gps
xtra_data_injected g = record g { download_xtra = idle }
