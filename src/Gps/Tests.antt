-- ===== src/Gps/Tests.antt =====
-- The theorems on the GPS provider at concrete events.
use com_webos_service_locati.Base.{
  ◌++◌, ℕ, ◌≡◌, refl, true, false, Option, none, List, [], ◌∷◌, ◌-◌, codes, arith,
}
use com_webos_service_locati.Base.Int.{pos}
use com_webos_service_locati.Commands.{
  HandlerRequestType, position_cmd, nmea_cmd, stop_position_cmd, stop_nmea_cmd,
}
use com_webos_service_locati.Gps.{Nyx, Conf, Gps, Hal, PositionRequest, idle}
use com_webos_service_locati.Gps.Engine.{Parameters}
use com_webos_service_locati.Gps.Extra.{Reader}
use com_webos_service_locati.Gps.Requests.{get_time_to_first_fix_value}
use com_webos_service_locati.Gps.Events.{Event, request, location, asks_ttff, run}
use com_webos_service_locati.Gps.Clients.{IsServed, run-IsServed, world, run-told}
use com_webos_service_locati.Gps.Admission.{Obeys, run-admits}
use com_webos_service_locati.Gps.Table.{clients_of, any_client, attend_all}
use com_webos_service_locati.Gps.Sessions.{session, session-ttff}
use com_webos_service_locati.Gps.DataNetwork
use com_webos_service_locati.Gps.DataNetwork.{
  send_data_network_locked, update_data_network, Answer, done, not_implemented, report, opened,
  nothing_known, step,
}
use com_webos_service_locati.Gps.DataNetwork.Heard.{taken_all, reported, run-reported}
use com_webos_service_locati.Gps.Atl.{
  NetworkInfo, Atl, connection_idle, initial, update_network_state, gps_thread_proc,
}
use com_webos_service_locati.Gps.Atl.Told.{
  Agrees, told, start, next, network_step, round, Reach-Agrees,
}

abbrev nyx : Nyx
nyx = record { standalone = 0; ms_based = 1; ms_assisted = 2; scheduling = 0; msb = 1; msa = 2 }

abbrev conf : Conf
conf = record { lge_gps_position_mode = 1; supl_host = codes "supl.example"; supl_port = pos 7276 }

-- Stand-ins for the C library and for the reader of JSON.
abbrev reader : Reader ℕ
reader = record { zero_double = 0; is_zero = λ n. false; strtod = λ s. 1; atoi = λ s. pos 3 }

abbrev read : List ℕ → Option Parameters
read s = none

abbrev at : ℕ → Hal
at now = record {
  starts = true;
  stops = true;
  deletes_aiding = true;
  takes_command = true;
  adds_geofence = true;
  removes_geofence = true;
  now = now;
  wall_clock = none;
  boot_clock = none;
  timer = 5;
}

-- An engine that does not start.
abbrev stuck : Hal
stuck = record (at 1) { starts = false }

abbrev off : Gps
off = record {
  enabled = true;
  has_callback = true;
  engine_started = false;
  location_updates_on = false;
  nmea_get_data_on = false;
  satellite_get_data_on = false;
  pos_timer = 0;
  fix_request_time = 0;
  last_fix_time = 0;
  ttff_state = false;
  ttff = 0;
  engine_capabilities = 39;
  position_mode = 1;
  fix_interval = 1000;
  gps_param_modified = false;
  status_available = false;
  geofence_status = pos 0;
  nmea_log = false;
  cep_log = false;
  download_xtra = idle;
  download_ntp = idle;
  xtra_default = false;
}

abbrev ask : HandlerRequestType → PositionRequest ℕ
ask t = record {
  request_type = t;
  request_params = [];
  geofence_id = 0;
  geofence_latitude = 0;
  geofence_longitude = 0;
  geofence_radius = 0;
}

abbrev day : List (Hal × Event ℕ)
day =
    (stuck, request (ask position_cmd))
    ∷ (at 2, request (ask position_cmd))
    ∷ (at 3, request (ask nmea_cmd))
    ∷ (at 4, location)
    ∷ (at 5, request (ask stop_position_cmd))
    ∷ []

run-IsServed_example : IsServed (run nyx 64 conf reader read day off).0
run-IsServed_example =
    run-IsServed nyx conf reader read 64 day off (record { served = λ h. h; timed = λ h. refl })

run-told_example :
    (run nyx 64 conf reader read day off).0.engine_started
    ≡ world nyx conf reader read 64 false day off
run-told_example = run-told nyx conf reader read 64 day off

abbrev good_day : List (Hal × Event ℕ)
good_day =
    (at 2, request (ask position_cmd))
    ∷ (at 3, request (ask nmea_cmd))
    ∷ (at 4, location)
    ∷ (at 5, request (ask stop_position_cmd))
    ∷ (at 6, request (ask stop_nmea_cmd))
    ∷ []

abbrev ok : (n : ℕ) → Obeys (at n)
ok n = record { starting = refl; stopping = refl }

run-admits_example :
    let g' = (run nyx 64 conf reader read good_day off).0 in
    (clients_of g' ≡ attend_all good_day (clients_of off))
    × (g'.engine_started ≡ any_client (attend_all good_day (clients_of off)))
run-admits_example =
    run-admits ℕ nyx conf reader read 64 good_day off (ok 2, (ok 3, (ok 4, (ok 5, (ok 6, tt)))))
      refl refl

session-ttff_example :
    (get_time_to_first_fix_value (
      session ℕ nyx conf reader read 64
        (at 1000)
        (ask position_cmd)
        ((at 1500, request (ask nmea_cmd)) ∷ [])
        (at 3010)
        ((at 4000, location) ∷ (at 4001, asks_ttff) ∷ [])
        off)).1
    ≡ 3010 - 1000
session-ttff_example =
    session-ttff ℕ nyx conf reader read 64 (at 1000) (at 3010) (ask position_cmd)
      ((at 1500, request (ask nmea_cmd)) ∷ []) ((at 4000, location) ∷ (at 4001, asks_ttff) ∷ []) off
      refl refl refl refl (omega arith) (refl, tt) (refl, (refl, tt))

abbrev reports : List (Answer × DataNetwork.Event)
reports =
    (done, report true (pos 1)) ∷ (not_implemented, opened) ∷ (done, report false (pos 1)) ∷ []

run-reported_example : taken_all none reports nothing_known ≡ reported none reports
unfolding DataNetwork.run step update_data_network send_data_network_locked
run-reported_example = run-reported reports (refl, (refl, (refl, tt))) refl refl

abbrev cell : NetworkInfo
cell = record { available = pos 1; apn = codes "supl"; bearer_type = 0 }

abbrev up : Atl
up = (update_network_state cell initial).0

Reach-Agrees_example : Agrees (gps_thread_proc false up).0 (
    told connection_idle
      (([] ++ (update_network_state cell initial).1) ++ (gps_thread_proc false up).1))
Reach-Agrees_example = Reach-Agrees (next (next start (network_step cell initial)) (round false up))
