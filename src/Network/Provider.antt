-- ===== src/Network/Provider.antt =====
-- The network position provider: src/handler/position/network/NetworkPositionProvider.cpp, the
-- subscriptions of NetworkData.cpp, and the chosen server. Inputs of a call are in `Env`: the mock
-- location, luna-prefs, the configuration file, the bus, timers, the HTTP client and the clock.
-- `F` is `double`; the program only copies positions and compares them. Allocation does not fail.
pub mod Requests
pub mod Replies
pub mod Notices
pub mod Events
pub mod Same
pub mod Timers
pub mod Fixes
pub mod Queries
pub mod Chosen
use com_webos_service_locati.Base.{
  ℕ, ◌+◌, Bool, true, false, not, ◌&&◌, Option, none, some, List, [], ◌∷◌, ◌++◌, ltb, ◌==◌,
  if◌then◌else◌,
}
use com_webos_service_locati.Base.Int.{ℤ, pos}
use com_webos_service_locati.Errors.{ErrorCode}
use com_webos_service_locati.Network.Backend.{
  NetworkLocationBackend, google, beacon_db, parse_network_location_backend,
  network_location_backend_url, build_geolocate_url, Written, untouched, text,
}
use com_webos_service_locati.Network.Wifi.{Signals, Scans, keep_scan, parse_wifi_data}
use com_webos_service_locati.Network.Cells.{CellInfo, parse_cell_data}

-- `_NetworkPositionData`, with the two scans in one record.
pub record PositionData (F : Type 0) : Type 0 where
  pub nw_geolocation_key : Option (List ℕ)
  pub cell_info : Option CellInfo
  pub cur_cellid : ℤ
  pub last_latitude : F
  pub last_longitude : F
  pub last_accuracy : F
  pub last_time_stamp : ℕ
  pub scans : Scans

pub record Provider (F : Type 0) : Type 0 where
  pub position : PositionData F
  pub enabled : Bool
  pub has_callback : Bool
  pub process_request_in_progress : Bool
  pub mock_request_in_progress : Bool
  pub timeout_id : ℕ
  pub telephony_cookie : Bool
  pub wifi_cookie : Bool
  pub cell_info_req : Bool
  pub wifi_info_req : Bool
  pub telephony_powered : Bool
  pub wifi_status : Bool
  pub connectivity_status : Bool
  pub is_first_cell_response : Bool
  pub fix_backend : NetworkLocationBackend
  -- `sBackendLoaded` and `sBackend`
  pub backend_loaded : Bool
  pub backend : NetworkLocationBackend

-- The body of a query: what stands under "cellTowers" and "wifiAccessPoints".
pub record Query : Type 0 where
  pub cell_towers : Option CellInfo
  pub wifi_access_points : Option Signals

pub record Env : Type 0 where
  pub mock_enabled : Bool
  -- `network_location_provider_url` answers with the mock server's address, or gives back its argument.
  pub mock_url : Option (List ℕ)
  -- The stored name of the server, and the key in wsp.conf.
  pub stored_backend : Option (List ℕ)
  pub api_key : Option (List ℕ)
  -- Whether initiateTransaction takes the request.
  pub transacts : List ℕ → Option Query → Bool
  -- The id of a new timer; whether registrations, calls and cancellations on the bus succeed.
  pub timer : ℕ
  pub watches : Bool
  pub calls : Bool
  pub cancels : Bool
  -- gettimeofday in milliseconds
  pub now : ℕ

pub data Service : Type 0 where
  telephony wifi : Service

pub data Effect (F : Type 0) : Type 0 where
  scan : Effect F
  watch unwatch subscribe unsubscribe : Service → Effect F
  start_timer stop_timer : ℕ → Effect F
  post : List ℕ → Option Query → Effect F
  clear_transaction : Effect F
  store_position : ℕ → F → F → F → Effect F
  -- latitude, longitude, accuracy, time stamp; the other fields of GeoLocation are -1.0
  report : F → F → F → ℕ → ErrorCode → Effect F

abbrev pub url_length : ℕ
url_length = 256

query_of : Option CellInfo → Option Signals → Option Query
query_of none none = none
query_of (some c) w = some (record { cell_towers = some c; wifi_access_points = w })
query_of none (some w) = some (record { cell_towers = none; wifi_access_points = some w })

-- `network_location_provider_url`
mock_or : Option (List ℕ) → List ℕ → List ℕ
mock_or none url = url
mock_or (some mock) url = mock

module _ {F : Type 0} where
  abbrev pub set_backend : Provider F → NetworkLocationBackend → Provider F
  set_backend p b = record p { backend_loaded = true; backend = b }

  -- `currentBackend`: luna-prefs is read once.
  pub current_backend : Env → Provider F → Provider F × NetworkLocationBackend
  current_backend env p =
      if p.backend_loaded
      then (p, p.backend)
      else (let b = parse_network_location_backend env.stored_backend in (set_backend p b, b))

  -- `setCurrentBackend`
  pub set_current_backend : NetworkLocationBackend → Provider F → Provider F
  set_current_backend b p = set_backend p b

  send_query : Env → Option Query → Bool × Written → Bool × List (Effect F)
  send_query env query (false, out) = (false, [])
  send_query env query (true, untouched) = (false, [])
  send_query env query (true, text url) = (env.transacts url query, post url query ∷ [])

  pub network_post_query :
      Env → Option Query → Option (List ℕ) → Provider F → Provider F × Bool × List (Effect F)
  unfolding current_backend send_query mock_or
  network_post_query env query api_key p =
      let (p', b) = current_backend env p in
      let template = mock_or env.mock_url (network_location_backend_url b) in
      let (sent, effects) =
        send_query env query (build_geolocate_url (some template) api_key (some url_length)) in
      (p', sent, effects)

  with_cells : Provider F → Provider F × Option CellInfo
  with_cells p =
      let (cur, changed) = parse_cell_data p.position.cell_info p.position.cur_cellid in
      (
        record p { position = record (p.position) { cur_cellid = cur } },
        if changed then p.position.cell_info else none,
      )

  with_wifi : Provider F → Provider F × Option Signals
  with_wifi p =
      let (scans, posted) = parse_wifi_data p.position.scans in
      (record p { position = record (p.position) { scans = scans } }, posted)

  pub create_cell_query : Provider F → Provider F × Option Query
  unfolding with_cells query_of
  create_cell_query p = let (p', c) = with_cells p in (p', query_of c none)

  pub create_wifi_query : Provider F → Provider F × Option Query
  unfolding with_wifi query_of
  create_wifi_query p = let (p', w) = with_wifi p in (p', query_of none w)

  pub create_cell_wifi_combined_query : Provider F → Provider F × Option Query
  unfolding with_cells with_wifi query_of
  create_cell_wifi_combined_query p =
      let (p', c) = with_cells p in let (p'', w) = with_wifi p' in (p'', query_of c w)

  -- The three `if`s of triggerPostQuery exclude one another.
  create_query : Bool → Bool → Provider F → Provider F × Option Query
  unfolding create_cell_query create_wifi_query create_cell_wifi_combined_query
  create_query false false p = (p, none)
  create_query false true p = create_cell_query p
  create_query true false p = create_wifi_query p
  create_query true true p = create_cell_wifi_combined_query p

  post_created : Env → Provider F × Option Query → Provider F × Bool × List (Effect F)
  unfolding network_post_query
  post_created env (p, none) = (p, false, [])
  post_created env (p, some q) = network_post_query env (some q) p.position.nw_geolocation_key p

  pub trigger_post_query : Env → Provider F → Provider F × Bool × List (Effect F)
  unfolding create_query post_created
  trigger_post_query env p = post_created env (create_query p.wifi_status p.telephony_powered p)
