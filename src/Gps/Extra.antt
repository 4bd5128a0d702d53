-- ===== src/Gps/Extra.antt =====
-- The extra commands: handleExtraCommand and its handlers (GPSPositionProvider.cpp), with
-- gpsRequestUtcTimeCb and gpsXtraDownloadRequestCb (GPSNyxInterface.cpp), which they call.
pub mod Texts
use com_webos_service_locati.Base.{
  ℕ, ◌-◌, Bool, true, false, ◌&&◌, ◌||◌, Option, none, some, List, [], ◌∷◌, ◌++◌, ◌==◌, take,
  length, codes, if◌then◌else◌,
}
use com_webos_service_locati.Base.Int.{ℤ, pos}
use com_webos_service_locati.Gps.{
  Gps, Hal, Effect, Download, pending_network, downloading, idle, inject_extra_cmd,
  delete_aiding_data, start_ntp_client, download_ntp_time, start_xtra_thread, download_xtra_data,
  start_logging, stop_logging, feed_data, anonymous_logger, set_cep_reference,
}
use com_webos_service_locati.Gps.Engine.{inject_system_time}

-- `strcmp(a, b) == 0`
unfoldable pub same_text : List ℕ → List ℕ → Bool
same_text [] [] = true
same_text [] (c ∷ cs) = false
same_text (c ∷ cs) [] = false
same_text (c ∷ cs) (d ∷ ds) = c == d && same_text cs ds

-- `strncmp(text, prefix, strlen(prefix)) == 0`
unfoldable pub starts_with : List ℕ → List ℕ → Bool
starts_with [] text = true
starts_with (p ∷ ps) [] = false
starts_with (p ∷ ps) (c ∷ cs) = p == c && starts_with ps cs

-- `strchr(text, mark)`, with what stands before the mark and what stands behind it.
unfoldable pub after_mark : ℕ → List ℕ → Option (List ℕ × List ℕ)
after_mark mark [] = none
after_mark mark (c ∷ cs) = if c == mark then some ([], cs) else elim (after_mark mark cs) [
  | none ↦ none
  | some (before, behind) ↦ some (c ∷ before, behind)
]

pub is_downloading : Download → Bool
is_downloading pending_network = false
is_downloading downloading = true
is_downloading idle = false

pub is_idle : Download → Bool
is_idle pending_network = false
is_idle downloading = false
is_idle idle = true

-- The double and the number that a text begins with (`g_ascii_strtod`, `atoi`).
pub record Reader (F : Type 0) : Type 0 where
  pub zero_double : F
  pub is_zero : F → Bool
  pub strtod : List ℕ → F
  pub atoi : List ℕ → ℤ

abbrev pub colon : ℕ
colon = 58

abbrev pub comma : ℕ
comma = 44

-- A title of no bytes is no title.
unfoldable pub anonymous_title : List ℕ → Option (List ℕ)
unfolding after_mark
anonymous_title command = elim (after_mark colon command) [
  | none ↦ none
  | some (before, behind) ↦ elim behind [ [] ↦ none | c ∷ cs ↦ some (take 255 (c ∷ cs)) ]
]

-- The commands of handleExtraCommand.
pub data ExtraCommand : Type 0 where
  force_time_injection force_xtra_injection delete_aiding enable_nmea_log : ExtraCommand
  disable_nmea_log enable_cep_log disable_cep_log start_anonymous_log : ExtraCommand
  stop_anonymous_log write_anonymous_data lge_extracmd unknown_command : ExtraCommand

-- The tests of handleExtraCommand, in its order.
unfoldable pub extra_command_of : List ℕ → ExtraCommand
unfolding same_text starts_with
extra_command_of command =
    if same_text command (codes "force_time_injection")
    then force_time_injection
    else if same_text command (codes "force_xtra_injection")
    then force_xtra_injection
    else if same_text command (codes "delete_aiding_data")
    then delete_aiding
    else if same_text command (codes "enable_nmea_log")
    then enable_nmea_log
    else if same_text command (codes "disable_nmea_log")
    then disable_nmea_log
    else if starts_with (codes "enable_cep_log:") command
    then enable_cep_log
    else if same_text command (codes "disable_cep_log")
    then disable_cep_log
    else if starts_with (codes "start_anonymous_log:") command
    then start_anonymous_log
    else if same_text command (codes "stop_anonymous_log")
    then stop_anonymous_log
    else if starts_with (codes "write_anonymous_data:") command
    then write_anonymous_data
    else if starts_with (codes "lge.gps.extracmd") command
    then lge_extracmd
    else unknown_command

module _ {F : Type 0} where
  unfoldable pub gps_request_utc_time_cb : Hal → Gps → Gps × List (Effect F)
  unfolding inject_system_time is_downloading
  gps_request_utc_time_cb hal g =
      let (g', injected) = inject_system_time hal g in
      if is_downloading g'.download_ntp then (g', injected) else (
        record g' { download_ntp = downloading },
        injected ++ (if g'.xtra_default then start_ntp_client else download_ntp_time) ∷ [],
      )

  -- The thread of the default mechanism sets the status itself, once it runs.
  unfoldable pub gps_xtra_download_request_cb : Gps → Gps × List (Effect F)
  unfolding is_downloading
  gps_xtra_download_request_cb g =
      if is_downloading g.download_xtra
      then (g, [])
      else if g.xtra_default
      then (g, start_xtra_thread ∷ [])
      else (record g { download_xtra = downloading }, download_xtra_data ∷ [])

  unfoldable pub handle_force_xtra_injection : Gps → Gps × Bool × List (Effect F)
  unfolding is_idle gps_xtra_download_request_cb
  handle_force_xtra_injection g =
      if is_idle g.download_xtra
      then (let (g', effects) = gps_xtra_download_request_cb g in (g', true, effects))
      else (g, true, [])

  -- The part before the comma, in 255 bytes, and the rest; the whole text is left without a comma.
  pub cep_field : Reader F → List ℕ → F × List ℕ
  unfolding after_mark
  cep_field r text = elim (after_mark comma text) [
    | none ↦ (r.zero_double, text)
    | some (before, behind) ↦ (r.strtod (take 255 before), behind)
  ]

  pub cep_values : Reader F → List ℕ → F × F × ℤ
  unfolding after_mark cep_field
  cep_values r command = elim (after_mark colon command) [
    | none ↦ (r.zero_double, r.zero_double, pos 0)
    | some (before, values) ↦
        let (lat, rest) = cep_field r values in
        let (lon, count) = cep_field r rest in (lat, lon, r.atoi (take 255 count))
  ]

  unfoldable pub handle_cep_log : Reader F → List ℕ → Gps → Gps × Bool × List (Effect F)
  unfolding cep_values
  handle_cep_log r command g =
      let (lat, lon, count) = cep_values r command in
      (
        record g { cep_log = true },
        true,
        if r.is_zero lat || r.is_zero lon then [] else set_cep_reference lat lon count ∷ [],
      )

  unfoldable pub handle_start_anonymous_log : List ℕ → List (Effect F)
  unfolding anonymous_title
  handle_start_anonymous_log command = start_logging anonymous_logger (anonymous_title command) ∷ []

  unfoldable pub handle_write_anonymous_data : List ℕ → List (Effect F)
  unfolding after_mark
  handle_write_anonymous_data command = elim (after_mark colon command) [
    | none ↦ []
    | some (before, behind) ↦
        feed_data anonymous_logger
          (take (length command - length (codes "write_anonymous_data:")) behind)
        ∷ []
  ]

  -- What a command does, once its name is known.
  unfoldable pub perform :
      Reader F → Hal → List ℕ → ExtraCommand → Gps → Gps × Bool × List (Effect F)
  unfolding gps_request_utc_time_cb handle_force_xtra_injection handle_cep_log
      handle_start_anonymous_log handle_write_anonymous_data
  perform r hal command force_time_injection g =
      let (g', effects) = gps_request_utc_time_cb hal g in (g', true, effects)
  perform r hal command force_xtra_injection g = handle_force_xtra_injection g
  perform r hal command delete_aiding g = (g, hal.deletes_aiding, delete_aiding_data ∷ [])
  perform r hal command enable_nmea_log g = (record g { nmea_log = true }, true, [])
  perform r hal command disable_nmea_log g = (record g { nmea_log = false }, true, [])
  perform r hal command enable_cep_log g = handle_cep_log r command g
  perform r hal command disable_cep_log g = (record g { cep_log = false }, true, [])
  perform r hal command start_anonymous_log g = (g, true, handle_start_anonymous_log command)
  perform r hal command stop_anonymous_log g = (g, true, stop_logging anonymous_logger ∷ [])
  perform r hal command write_anonymous_data g = (g, true, handle_write_anonymous_data command)
  perform r hal command lge_extracmd g = (g, hal.takes_command, inject_extra_cmd command ∷ [])
  perform r hal command unknown_command g = (g, false, [])

  unfoldable pub handle_extra_command : Reader F → Hal → List ℕ → Gps → Gps × Bool × List (Effect F)
  unfolding perform extra_command_of
  handle_extra_command r hal command g = perform r hal command (extra_command_of command) g
