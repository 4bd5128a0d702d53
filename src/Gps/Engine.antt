-- ===== src/Gps/Engine.antt =====
-- The engine: handleGpsEnable, handleGpsDisable, the parameters and the position mode
-- (GPSPositionProvider.cpp), and injectSystemTime (GPSNyxInterface.cpp).
use com_webos_service_locati.Base.{
  ℕ, ◌-◌, ◌%◌, Bool, true, false, Option, none, some, List, [], ◌∷◌, ◌++◌, ltb, ◌==◌, take,
  if◌then◌else◌,
}
use com_webos_service_locati.Base.Int.{ℤ, pos, negsuc}
use com_webos_service_locati.Gps.{
  Nyx, Conf, Gps, Hal, Effect, idle, start_gps, stop_gps, inject_time, set_position_mode,
  set_server, start_logging, stop_logging, feed_cep_info, nmea_logger, cep_logger,
  default_fix_interval, has_bit,
}

abbrev pub plausible_time_ms : ℕ
plausible_time_ms = 1577836800000

abbrev pub system_time_uncertainty_ms : ℤ
system_time_uncertainty_ms = pos 1000

-- An unsigned long that is passed as a `uint32_t`.
abbrev pub conf_mode : Conf → ℕ
conf_mode conf = conf.lge_gps_position_mode % 4294967296

-- The parsed object of setGPSParameters: the members that are there and have the type.
pub record Parameters : Type 0 where
  pub posmode : Option ℤ
  pub fixinterval : Option ℤ
  pub supladdress : Option (List ℕ)
  pub suplport : Option ℤ

-- An `int` passed as a `uint32_t`.
pub to_u32 : ℤ → ℕ
to_u32 (pos n) = n % 4294967296
to_u32 (negsuc n) = 4294967295 - n % 4294967296

pub u32_or : ℕ → Option ℤ → ℕ
unfolding to_u32
u32_or n none = n
u32_or n (some i) = to_u32 i

-- `g_strlcpy` into 256 bytes
pub host_or : List ℕ → Option (List ℕ) → List ℕ
host_or s none = take 255 s
host_or s (some t) = take 255 t

pub port_or : ℤ → Option ℤ → ℤ
port_or p none = p
port_or p (some q) = q

module _ (nyx : Nyx) where
  pub capable_mode : ℕ → ℕ → ℕ
  capable_mode capabilities mode =
      if mode == nyx.ms_based
      then if has_bit capabilities nyx.msb then nyx.ms_based else nyx.standalone
      else if mode == nyx.ms_assisted
      then if has_bit capabilities nyx.msa then nyx.ms_assisted else nyx.standalone
      else nyx.standalone

  pub capable_interval : ℕ → ℕ → ℕ
  capable_interval capabilities interval =
      if has_bit capabilities nyx.scheduling then interval else default_fix_interval

-- `injectExtraTime` sets `mDownloadNtpDataStatus` to IDLE.
module _ {F : Type 0} where
  unfoldable pub inject_system_time : Hal → Gps → Gps × List (Effect F)
  inject_system_time hal g = elim hal.wall_clock [
    | none ↦ (g, [])
    | some utc ↦ if ltb utc plausible_time_ms then (g, []) else (
      record g { download_ntp = idle },
      inject_time utc (elim hal.boot_clock [ none ↦ 0 | some t ↦ t ]) system_time_uncertainty_ms
          ∷ [],
    )
  ]

  unfoldable pub handle_gps_enable : Hal → Gps → Gps × Bool × List (Effect F)
  unfolding inject_system_time
  handle_gps_enable hal g =
      if g.engine_started
      then (g, true, [])
      else (let (g', injected) = inject_system_time hal g in
          if hal.starts
          then (
            record g' { engine_started = true },
            true,
            injected
                ++ start_gps ∷ (if g.nmea_log then start_logging nmea_logger none ∷ [] else [])
                ++ (if g.cep_log then start_logging cep_logger none ∷ [] else []),
          )
          else (g', false, injected ++ start_gps ∷ []))

  module _ (nyx : Nyx) where
    unfoldable pub set_pos_mode_with_capability : Gps → ℕ → ℕ → List (Effect F)
    unfolding capable_mode capable_interval
    set_pos_mode_with_capability g mode interval =
        set_position_mode (capable_mode nyx g.engine_capabilities mode)
          (capable_interval nyx g.engine_capabilities interval)
        ∷ []

    unfoldable pub set_gps_parameters : Gps → ℕ → ℕ → List ℕ → ℤ → List (Effect F)
    set_gps_parameters g mode interval host port =
        set_server host port ∷ set_pos_mode_with_capability g mode interval

    pub reset_parameters : Conf → Gps → Gps × List (Effect F)
    unfolding set_gps_parameters
    reset_parameters conf g =
        if g.gps_param_modified
        then (
          record g {
            position_mode = conf_mode conf;
            fix_interval = default_fix_interval;
            gps_param_modified = false;
          },
          set_gps_parameters g (conf_mode conf) default_fix_interval conf.supl_host conf.supl_port,
        )
        else (g, [])

    unfoldable pub handle_gps_disable : Conf → Hal → Gps → Gps × Bool × List (Effect F)
    unfolding reset_parameters
    handle_gps_disable conf hal g =
        if g.engine_started
        then (let (g', reset) = reset_parameters conf g in
            if hal.stops
            then (
              record g' { engine_started = false },
              true,
              reset
                  ++ stop_gps ∷ (if g.nmea_log then stop_logging nmea_logger ∷ [] else [])
                  ++ (if g.cep_log then feed_cep_info ∷ stop_logging cep_logger ∷ [] else []),
            )
            else (g', false, reset ++ stop_gps ∷ []))
        else (g, true, [])

    -- `none` is a text that does not parse.
    unfoldable pub handle_set_gps_parameter_command :
        Conf → Option Parameters → Gps → Gps × Bool × List (Effect F)
    unfolding set_gps_parameters u32_or host_or port_or
    handle_set_gps_parameter_command conf none g = (g, false, [])
    handle_set_gps_parameter_command conf (some p) g =
        let mode = u32_or (conf_mode conf) p.posmode in
        let interval = u32_or default_fix_interval p.fixinterval in
        (
          record g { position_mode = mode; fix_interval = interval; gps_param_modified = true },
          true,
          set_gps_parameters g mode interval (host_or conf.supl_host p.supladdress)
              (port_or conf.supl_port p.suplport),
        )

    abbrev pub handle_periodic_updates : Gps → Gps × Bool × List (Effect F)
    handle_periodic_updates g =
        (g, true, set_pos_mode_with_capability g g.position_mode g.fix_interval)
