-- ===== src/Network/Tests.antt =====
-- The theorems on the network position source at concrete inputs.
use com_webos_service_locati.Base.{
  ℕ, ◌≡◌, ap, refl, true, false, not, ◌&&◌, ltb, ◌==◌, ◌*◌, none, some, List, [], ◌∷◌, length,
  if◌then◌else◌, arith,
}
use com_webos_service_locati.Base.Int.{pos, negsuc}
use com_webos_service_locati.Errors.{error_none}
use com_webos_service_locati.Network.Backend.{beacon_db}
use com_webos_service_locati.Network.Cells.{Tower, towers, parse_cell_data, parse_cell_data_serving}
use com_webos_service_locati.Network.Provider.{
  Effect, Provider, Env, report, store_position, clear_transaction, trigger_post_query,
}
use com_webos_service_locati.Network.Provider.Events.{Event, replies, ticks, step, Inv}
use com_webos_service_locati.Network.Provider.Fixes.{HonestStep, step-Honest, error_zero_is_fix}
use com_webos_service_locati.Network.Provider.Queries.{FromRadios, trigger_post_query_radios}
use com_webos_service_locati.Network.Provider.Replies.{Task, Body, handle_response}
use com_webos_service_locati.Network.Provider.Timers.{Keeps, step-Inv}
use com_webos_service_locati.Network.Wifi.{Signals, parse_wifi_data}
use com_webos_service_locati.Network.Wifi.Change.{IsScan, either, total, parse_wifi_data_later}

abbrev before : Signals
before = ("a", negsuc 49) ∷ ("b", negsuc 59) ∷ []

abbrev after : Signals
after = ("a", negsuc 9) ∷ ("b", negsuc 89) ∷ []

before-IsScan : IsScan before
before-IsScan = (refl, λ e. cc, (refl, λ e. cc, tt))

after-IsScan : IsScan after
after-IsScan = (refl, λ e. cc, (refl, λ e. cc, tt))

parse_wifi_data_later_example :
    parse_wifi_data (record { current = some after; last = some before }) ≡ (
      if not (ltb (length after) 2)
        && ltb (20 * length (either after before)) (total after before (either after before))
      then (record { current = some after; last = some after }, some after)
      else (record { current = some after; last = some before }, none))
parse_wifi_data_later_example = parse_wifi_data_later before after before-IsScan after-IsScan

abbrev two_towers : List Tower
two_towers =
    record { registered = some false; cell_id = some (pos 8) }
    ∷ record { registered = some true; cell_id = some (pos 9) }
    ∷ []

parse_cell_data_serving_example :
    (parse_cell_data (some (towers two_towers)) (pos 0) ≡ (pos 9, true))
    × ((parse_cell_data
          (some (towers two_towers))
          (parse_cell_data (some (towers two_towers)) (pos 0)).0).1
        ≡ false)
parse_cell_data_serving_example = parse_cell_data_serving two_towers (pos 0)

-- A provider in the middle of a request, with the timer 5; the doubles are numbers here.
abbrev running : Provider ℕ
running = record {
  position = record {
    nw_geolocation_key = none;
    cell_info = some (towers two_towers);
    cur_cellid = pos 0;
    last_latitude = 52;
    last_longitude = 13;
    last_accuracy = 40;
    last_time_stamp = 100;
    scans = record { current = some after; last = some before };
  };
  enabled = true;
  has_callback = true;
  process_request_in_progress = true;
  mock_request_in_progress = false;
  timeout_id = 5;
  telephony_cookie = true;
  wifi_cookie = true;
  cell_info_req = true;
  wifi_info_req = true;
  telephony_powered = true;
  wifi_status = true;
  connectivity_status = true;
  is_first_cell_response = false;
  fix_backend = beacon_db;
  backend_loaded = true;
  backend = beacon_db;
}

abbrev world : Env
world = record {
  mock_enabled = false;
  mock_url = none;
  stored_backend = none;
  api_key = none;
  transacts = λ url query. true;
  timer = 6;
  watches = true;
  calls = true;
  cancels = true;
  now = 160;
}

running-Inv : Inv running (5 ∷ [])
running-Inv = record {
  only = refl;
  in_progress = λ h. refl;
  started = λ h. refl;
  heard = λ h. refl;
}

step-Inv_example : Keeps (step 0 (λ a b. a == b) running (ticks world)) (5 ∷ [])
step-Inv_example =
    step-Inv 0 (λ a b. a == b) running (ticks world) (5 ∷ []) running-Inv (omega arith)

abbrev fix : Task ℕ
fix = record {
  http_ok = true;
  body = some (record { error = none; lat = some 53; lng = some 14; accuracy = some 30 });
}

abbrev now_of : Event ℕ → ℕ
now_of (replies env task) = env.now
now_of _ = 0

step-Honest_example : HonestStep (step 0 (λ a b. a == b) running (replies world (some fix)))
step-Honest_example =
    step-Honest 0 (λ a b. a == b) running (replies world (some fix))
      (λ env task e. omega (arith, ap now_of e))

abbrev failure : Body ℕ
failure = record { error = some (some (pos 0)); lat = none; lng = none; accuracy = none }

abbrev taken_as_fix : Provider ℕ × List (Effect ℕ)
taken_as_fix =
    handle_response 0 (λ a b. a == b) world (some (record { http_ok = true; body = some failure }))
      running

error_zero_is_fix_example :
    (taken_as_fix.0.position.last_latitude ≡ 0)
    × (taken_as_fix.0.position.last_longitude ≡ 0)
    × (taken_as_fix.0.position.last_accuracy ≡ 0)
    × (taken_as_fix.0.position.last_time_stamp ≡ 160)
    × (taken_as_fix.1
        ≡ clear_transaction ∷ store_position 160 0 0 0 ∷ report 0 0 0 160 error_none ∷ [])
error_zero_is_fix_example = error_zero_is_fix 0 (λ a b. a == b) world failure running refl refl refl

trigger_post_query_radios_example :
    FromRadios true true (trigger_post_query world running).2
    × (true ≡ false → true ≡ false → (trigger_post_query world running).2 ≡ [])
trigger_post_query_radios_example = trigger_post_query_radios world running
