-- ===== src/Gps/Quiet.antt =====
-- The operations that leave the engine, its clients and the times of fixes alone
-- (GPSPositionProvider.cpp, GPSNyxInterface.cpp).
use com_webos_service_locati.Base.{
  ℕ, ◌≡◌, Bool, true, false, Option, List, [], ◌∷◌, if◌then◌else◌, arith,
}
use com_webos_service_locati.Ntp.{NtpData}
use com_webos_service_locati.Gps.{Nyx, Conf, Gps, Hal, Effect, start_gps, stop_gps}
use com_webos_service_locati.Gps.Engine.{
  Parameters, inject_system_time, handle_set_gps_parameter_command, set_gps_parameters,
  set_pos_mode_with_capability,
}
use com_webos_service_locati.Gps.Extra.{
  Reader, ExtraCommand, extra_command_of, perform, force_time_injection, force_xtra_injection,
  delete_aiding, enable_nmea_log, disable_nmea_log, enable_cep_log, disable_cep_log,
  start_anonymous_log, stop_anonymous_log, write_anonymous_data, lge_extracmd, unknown_command,
  handle_extra_command, gps_request_utc_time_cb, gps_xtra_download_request_cb,
  handle_force_xtra_injection, handle_cep_log, handle_start_anonymous_log,
  handle_write_anonymous_data,
}
use com_webos_service_locati.Gps.Callbacks.{
  SvStatus, StatusValue, gps_status_cb, gps_sv_status_cb, gps_nmea_cb, on_request_completed,
}

-- What one call of the GNSS library does to its engine, running or not.
abbrev pub turn : {F : Type 0} → Hal → Bool → Effect F → Bool
turn hal b start_gps = if hal.starts then true else b
turn hal b stop_gps = if hal.stops then false else b
turn hal b _ = b

-- The engine after the calls of one operation.
abbrev pub hears : {F : Type 0} → Hal → Bool → List (Effect F) → Bool
hears hal b [] = b
hears hal b (e ∷ es) = hears hal (turn hal b e) es

-- What `g'` and the calls keep of `g`.
pub record Unmoved {F : Type 0} (hal : Hal) (g g' : Gps) (effects : List (Effect F)) : Type 0 where
  pub engine : g'.engine_started ≡ g.engine_started
  pub locations : g'.location_updates_on ≡ g.location_updates_on
  pub nmeas : g'.nmea_get_data_on ≡ g.nmea_get_data_on
  pub satellites : g'.satellite_get_data_on ≡ g.satellite_get_data_on
  pub timer : g'.pos_timer ≡ g.pos_timer
  pub requested : g'.fix_request_time ≡ g.fix_request_time
  pub fixed : g'.last_fix_time ≡ g.last_fix_time
  pub state : g'.ttff_state ≡ g.ttff_state
  pub ttff : g'.ttff ≡ g.ttff
  pub on : g'.enabled ≡ g.enabled
  pub unheard : (b : Bool) → hears hal b effects ≡ b

module _ {F : Type 0} where
  pub time-Unmoved :
      (hal : Hal) (g : Gps)
      → let (g', effects) = gps_request_utc_time_cb {F = F} hal g in Unmoved hal g g' effects
  unfolding gps_request_utc_time_cb inject_system_time
  time-Unmoved hal g = ground arith

  pub xtra-Unmoved :
      (hal : Hal) (g : Gps)
      → let (g', effects) = gps_xtra_download_request_cb {F = F} g in Unmoved hal g g' effects
  unfolding gps_xtra_download_request_cb
  xtra-Unmoved hal g = ground arith

  force-Unmoved :
      (hal : Hal) (g : Gps) → let r = handle_force_xtra_injection {F = F} g in Unmoved hal g r.0 r.2
  unfolding handle_force_xtra_injection
  force-Unmoved hal g = ground (arith, xtra-Unmoved hal g)

  cep-Unmoved :
      (reader : Reader F) (hal : Hal) (command : List ℕ) (g : Gps)
      → let r = handle_cep_log reader command g in Unmoved hal g r.0 r.2
  unfolding handle_cep_log
  cep-Unmoved reader hal command g = ground arith

  anonymous-Unmoved :
      (hal : Hal) (command : List ℕ) (g : Gps)
      → Unmoved {F = F} hal g g (handle_start_anonymous_log command)
  unfolding handle_start_anonymous_log
  anonymous-Unmoved hal command g = ground arith

  write-Unmoved :
      (hal : Hal) (command : List ℕ) (g : Gps)
      → Unmoved {F = F} hal g g (handle_write_anonymous_data command)
  unfolding handle_write_anonymous_data
  write-Unmoved hal command g = ground arith

  perform-Unmoved :
      (reader : Reader F) (hal : Hal) (command : List ℕ) (name : ExtraCommand) (g : Gps)
      → let r = perform reader hal command name g in Unmoved hal g r.0 r.2
  unfolding perform
  perform-Unmoved reader hal command force_time_injection g = time-Unmoved hal g
  perform-Unmoved reader hal command force_xtra_injection g = force-Unmoved hal g
  perform-Unmoved reader hal command delete_aiding g = ground arith
  perform-Unmoved reader hal command enable_nmea_log g = ground arith
  perform-Unmoved reader hal command disable_nmea_log g = ground arith
  perform-Unmoved reader hal command enable_cep_log g = cep-Unmoved reader hal command g
  perform-Unmoved reader hal command disable_cep_log g = ground arith
  perform-Unmoved reader hal command start_anonymous_log g = anonymous-Unmoved hal command g
  perform-Unmoved reader hal command stop_anonymous_log g = ground arith
  perform-Unmoved reader hal command write_anonymous_data g = write-Unmoved hal command g
  perform-Unmoved reader hal command lge_extracmd g = ground arith
  perform-Unmoved reader hal command unknown_command g = ground arith

  pub extra-Unmoved :
      (reader : Reader F) (hal : Hal) (command : List ℕ) (g : Gps)
      → let r = handle_extra_command reader hal command g in Unmoved hal g r.0 r.2
  unfolding handle_extra_command
  extra-Unmoved reader hal command g =
      perform-Unmoved reader hal command (extra_command_of command) g

  pub parameters-Unmoved :
      (nyx : Nyx) (conf : Conf) (hal : Hal) (p : Option Parameters) (g : Gps)
      → let r = handle_set_gps_parameter_command {F = F} nyx conf p g in Unmoved hal g r.0 r.2
  unfolding handle_set_gps_parameter_command set_gps_parameters set_pos_mode_with_capability
  parameters-Unmoved nyx conf hal p g = ground arith

  pub status-Unmoved :
      (hal : Hal) (value : StatusValue) (g : Gps)
      → let (g', effects) = gps_status_cb {F = F} value g in Unmoved hal g g' effects
  unfolding gps_status_cb
  status-Unmoved hal value g = ground arith

  pub sv-Unmoved :
      (hal : Hal) (max_svs : ℕ) (sv : SvStatus F) (g : Gps)
      → Unmoved hal g g (gps_sv_status_cb max_svs sv g)
  unfolding gps_sv_status_cb
  sv-Unmoved hal max_svs sv g = ground arith

  pub nmea-Unmoved :
      (hal : Hal) (text : Option (List ℕ)) (g : Gps) → Unmoved {F = F} hal g g (gps_nmea_cb text g)
  unfolding gps_nmea_cb
  nmea-Unmoved hal text g = ground arith

  pub ntp-Unmoved :
      (hal : Hal) (r : Option NtpData) (g : Gps)
      → let (g', effects) = on_request_completed {F = F} r g in Unmoved hal g g' effects
  unfolding on_request_completed
  ntp-Unmoved hal r g = ground arith
