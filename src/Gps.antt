-- ===== src/Gps.antt =====
-- The GPS position provider: src/handler/position/gps/GPSPositionProvider.cpp and
-- GPSNyxInterface.cpp. The GNSS library (nyx), the clocks, timers and the reading of JSON are outside:
-- `Nyx` has the constants of nyx that the code uses, `Hal` what they answer while one call runs.
-- `F` is `double`. The state of the data connection is in Gps.Atl, that of the data network in
-- Gps.DataNetwork.
pub mod Engine
pub mod Extra
pub mod Requests
pub mod Callbacks
pub mod Events
mod Quiet
mod Turned
pub mod Table
pub mod Admission
pub mod Clients
pub mod Sessions
pub mod Logs
pub mod DataNetwork
pub mod Atl
pub mod Wan
mod Tests
use com_webos_service_locati.Base.{ℕ, ◌/◌, ◌%◌, ◌^◌, Bool, true, false, Option, none, List, ◌==◌}
use com_webos_service_locati.Base.Int.{ℤ}
use com_webos_service_locati.Commands.{HandlerRequestType}
use com_webos_service_locati.Errors.{ErrorCode}

-- Constants of nyx/common/nyx_gps_common.h: position modes, and the number of the bit that a
-- capability is.
pub record Nyx : Type 0 where
  pub standalone : ℕ
  pub ms_based : ℕ
  pub ms_assisted : ℕ
  pub scheduling : ℕ
  pub msb : ℕ
  pub msa : ℕ

-- What the program reads of `mGPSConf` here.
pub record Conf : Type 0 where
  pub lge_gps_position_mode : ℕ
  pub supl_host : List ℕ
  pub supl_port : ℤ

pub data Logger : Type 0 where
  nmea_logger cep_logger anonymous_logger : Logger

-- `DownloadStateEType`
pub data Download : Type 0 where
  pending_network downloading idle : Download

-- The fields that the handlers of requests and the callbacks of the engine use. The three bits of
-- `mAPIProgressFlag` that the code sets are a Boolean each.
pub record Gps : Type 0 where
  pub enabled : Bool
  pub has_callback : Bool
  pub engine_started : Bool
  pub location_updates_on : Bool
  pub nmea_get_data_on : Bool
  pub satellite_get_data_on : Bool
  pub pos_timer : ℕ
  pub fix_request_time : ℕ
  pub last_fix_time : ℕ
  pub ttff_state : Bool
  pub ttff : ℕ
  pub engine_capabilities : ℕ
  pub position_mode : ℕ
  pub fix_interval : ℕ
  pub gps_param_modified : Bool
  pub status_available : Bool
  pub geofence_status : ℤ
  pub nmea_log : Bool
  pub cep_log : Bool
  pub download_xtra : Download
  pub download_ntp : Download
  pub xtra_default : Bool

-- What the outside answers while one call runs: `true` is NYX_ERROR_NONE. `wall_clock` and
-- `boot_clock` are in milliseconds, `none` if the call of the clock fails.
pub record Hal : Type 0 where
  pub starts : Bool
  pub stops : Bool
  pub deletes_aiding : Bool
  pub takes_command : Bool
  pub adds_geofence : Bool
  pub removes_geofence : Bool
  pub now : ℕ
  pub wall_clock : Option ℕ
  pub boot_clock : Option ℕ
  pub timer : ℕ

pub record PositionRequest (F : Type 0) : Type 0 where
  pub request_type : HandlerRequestType
  pub request_params : List ℕ
  pub geofence_id : ℕ
  pub geofence_latitude : F
  pub geofence_longitude : F
  pub geofence_radius : F

-- A satellite as the client sees it (`set_satellite_details`).
pub record Satellite (F : Type 0) : Type 0 where
  pub snr : F
  pub prn : ℤ
  pub elevation : F
  pub azimuth : F
  pub used : Bool
  pub has_almanac : Bool
  pub has_ephemeris : Bool

-- The calls that the code makes, in order.
pub data Effect (F : Type 0) : Type 0 where
  start_gps : Effect F
  stop_gps : Effect F
  inject_time : ℕ → ℕ → ℤ → Effect F
  set_position_mode : ℕ → ℕ → Effect F
  set_server : List ℕ → ℤ → Effect F
  inject_extra_cmd : List ℕ → Effect F
  delete_aiding_data : Effect F
  add_geofence_area : ℕ → F → F → F → Effect F
  remove_geofence_area : ℕ → Effect F
  start_ntp_client : Effect F
  download_ntp_time : Effect F
  start_xtra_thread : Effect F
  download_xtra_data : Effect F
  add_timer : ℕ → ℕ → Effect F
  remove_timer : ℕ → Effect F
  start_logging : Logger → Option (List ℕ) → Effect F
  feed_data : Logger → List ℕ → Effect F
  feed_cep_info : Effect F
  stop_logging : Logger → Effect F
  set_cep_reference : F → F → ℤ → Effect F
  report_location : ErrorCode → Effect F
  report_nmea : List ℕ → Effect F
  report_satellites : List (Satellite F) → Effect F
  report_status : Bool → Effect F

abbrev pub default_fix_interval : ℕ
default_fix_interval = 1000

abbrev pub gps_update_interval_max : ℕ
gps_update_interval_max = 720

-- Whether a word has a bit.
abbrev pub has_bit : ℕ → ℕ → Bool
has_bit word bit = word / 2 ^ bit % 2 == 1
