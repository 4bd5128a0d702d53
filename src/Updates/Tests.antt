-- ===== src/Updates/Tests.antt =====
-- The theorems on the position updates at concrete clients. The lists are functions (Bus.plain),
-- and the doubles are numbers.
use com_webos_service_locati.Base.{
  if◌then◌else◌, arith, ℕ, ◌≡◌, refl, Bool, true, false, ◌&&◌, not, none, some, List, [], ◌∷◌, ltb,
  ◌==◌,
}
use com_webos_service_locati.Base.Int.{ℤ, pos, ◌-ℤ◌}
use com_webos_service_locati.Bus.{Key, nw_updates, hybrid_updates, plain}
use com_webos_service_locati.Errors.{time_out, error_none, pos_not_available}
use com_webos_service_locati.Updates.Cached.{compare_position_time_stamps, get_cached_position}
use com_webos_service_locati.Updates.Cached.Newest.{fresh, NoneBetter, IsOne, cached_fresh}
use com_webos_service_locati.Updates.Cancel.{timer_callback_location_update}
use com_webos_service_locati.Updates.Cancel.Timeout.{timed_out_goes}
use com_webos_service_locati.Updates.Criteria.{Position, Accuracy, Geometry}
use com_webos_service_locati.Updates.Criteria.Interval.{apart, answers, apart-answers}
use com_webos_service_locati.Updates.Replies.{ls_sub_non_sub_reply_loc_update_case}
use com_webos_service_locati.Updates.Replies.OneShot.{has}
use com_webos_service_locati.Updates.Replies.Stops.{stops_network, stops_iff}
use com_webos_service_locati.Updates.Requests.{
  hybrid_name, passive_name, LocationRequest, Answers, get_location_updates, new_request,
}
use com_webos_service_locati.Updates.Requests.Lock.{passive_visit, passive_frees_lock}
use com_webos_service_locati.Updates.Requests.Registered.{kept_iff}
use com_webos_service_locati.Updates.Service.{located, Messages, failed, Service, is_list_filled}
use com_webos_service_locati.Updates.Table.{UpdateRequest, find, is_some}
use com_webos_service_locati.Updates.Notices.{add_pos_json}
use com_webos_service_locati.Wake.{Monitor, Call, init}

-- Message 1 asks once, message 2 subscribes.
abbrev clients : Messages
clients = record {
  is_subscription = λ m. m == 2;
  has_wakeup = λ m. true;
  min_interval = λ m. pos 0;
  min_distance = λ m. pos 0;
}

abbrev waiting : UpdateRequest ℕ
waiting = record {
  request_time = pos 100;
  last_latitude = 0;
  last_longitude = 0;
  first_reply = true;
  timer_id = 0;
  has_timer_data = true;
  handler_type = pos 3;
}

abbrev locked : Monitor
locked = record init { has_service = true; registered = true; lock_set = true; refs = 1 }

abbrev on_network : Key → List ℕ
on_network nw_updates = 1 ∷ 2 ∷ []
on_network _ = []

abbrev service : Service ℕ (plain.Lists)
service = record {
  lists = on_network;
  table = (1, waiting) ∷ (2, waiting) ∷ [];
  monitor = some locked;
  gps_status = true;
  nw_status = true;
}

abbrev yes : Call → Bool
yes c = true

abbrev plane : Geometry ℕ
plane = record { accurate = λ a. ltb a 100; far = λ a b c d m. not (a == c) }

abbrev noon : ℕ → ℤ
noon m = pos 43200000

abbrev after_error : Service ℕ (plain.Lists)
after_error =
    (ls_sub_non_sub_reply_loc_update_case plain clients yes plane noon none nw_updates
      (failed time_out) service).0

stops_iff_example :
    stops_network
      (ls_sub_non_sub_reply_loc_update_case plain clients yes plane noon none nw_updates
        (failed time_out)
        service).1
    ≡ true
      && (not (is_list_filled plain after_error.lists none nw_updates false)
          && not (is_list_filled plain after_error.lists none hybrid_updates false))
stops_iff_example = stops_iff plain clients yes plane noon none (failed time_out) service refl

abbrev timed_out : Service ℕ (plain.Lists)
timed_out = (timer_callback_location_update plain clients yes 1 nw_updates service).0

timed_out_goes_example :
    (has 2 (timed_out.lists nw_updates) ≡ true && not false)
    × (is_some (find 2 timed_out.table) ≡ true && not false)
unfolding find
timed_out_goes_example = timed_out_goes plain clients yes 1 2 nw_updates service refl refl

abbrev place : ℤ → Position ℕ
place t = record {
  timestamp = t;
  latitude = 52;
  longitude = 13;
  altitude = 30;
  direction = 0;
  climb = 0;
  speed = 0;
}

abbrev rough : Accuracy ℕ
rough = record { horiz_accuracy = 40; vert_accuracy = 90 }

abbrev positions : List (ℤ × Position ℕ × Accuracy ℕ)
positions =
    (pos 1000, place (pos 1000), rough)
    ∷ (pos 1400, place (pos 1400), rough)
    ∷ (pos 2000, place (pos 2000), rough)
    ∷ []

waiting_found : find 1 service.table ≡ some waiting
unfolding find
waiting_found = refl

apart-answers_example :
    apart plane 1 (pos 500) (pos 0) (answers plane 1 (pos 500) (pos 0) positions service.table)
    ≡ true
apart-answers_example =
    apart-answers plane 1 (pos 500) (pos 0) positions service.table waiting refl waiting_found refl

abbrev asks : LocationRequest
asks = record { handler = none; response_timeout = pos 30; wakelock = true }

abbrev asks_passive : LocationRequest
asks_passive = record { handler = some passive_name; response_timeout = pos 0; wakelock = true }

abbrev replies : Answers
replies = record {
  valid_schema = true;
  now = pos 100;
  source = 9;
  added = true;
  connection = true;
  gps_result = error_none;
  gps_mocked = false;
  network_result = error_none;
}

kept_iff_example :
    find 3 (get_location_updates plain yes 0 true 3 asks replies service).0.table
    ≡ some (new_request plain yes 0 true asks replies)
kept_iff_example = kept_iff plain yes 0 true 3 asks replies service refl

passive_frees_lock_example :
    (w : Monitor) × ((passive_visit plain clients yes 0 true 3 asks_passive replies service).monitor
      ≡ some w)
    × (w.refs ≡ 0)
    × (w.lock_set ≡ false)
passive_frees_lock_example =
    passive_frees_lock plain clients yes 0 true 3 asks_passive replies service locked refl refl refl
      refl refl refl (λ c. refl)

abbrev zeros : Position ℕ × Accuracy ℕ
zeros = (
  record (place (pos 0)) { latitude = 0; longitude = 0; altitude = 0 },
  record { horiz_accuracy = 0; vert_accuracy = 0 },
)

-- The fix of the GPS is older than that of the network.
abbrev older : Position ℕ × Accuracy ℕ
older = (place (pos 5), rough)

abbrev newer : Position ℕ × Accuracy ℕ
newer = (place (pos 60), rough)

abbrev is_0 : ℕ → Bool
is_0 a = a == 0

ltb-asym : (x y : ℕ) → ltb x y ≡ true → ltb y x ≡ false
ltb-asym x y h = ground (arith, h)

cached_fresh_example :
    (c : Position ℕ × Accuracy ℕ) × IsOne ltb c (older ∷ newer ∷ [])
    × NoneBetter ltb c (older ∷ newer ∷ [])
    × (get_cached_position ltb is_0 zeros (pos 90) (some hybrid_name) (pos 50) older newer ≡ (
        if fresh ltb is_0 (pos 90) (pos 50) c.0
        then located (add_pos_json (pos 90) (some c))
        else failed pos_not_available))
cached_fresh_example =
    cached_fresh ltb is_0 zeros ltb-asym (pos 90) (pos 50) (some hybrid_name) older newer

cached_newer :
    get_cached_position ltb is_0 zeros (pos 90) (some hybrid_name) (pos 50) older newer
    ≡ located (add_pos_json (pos 90) (some newer))
unfolding get_cached_position compare_position_time_stamps ◌-ℤ◌
cached_newer = refl
