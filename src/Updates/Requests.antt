-- ===== src/Updates/Requests.antt =====
-- LocationService::getLocationUpdates, with enableHandlers, enableGpsHandler, enableNwHandler and
-- getHandlerVal (src/lunaIpc/LocationService.cpp). Memory does not run out, and the payload is
-- given as it was parsed; minimumInterval and minimumDistance are only logged here.
pub mod Registered
pub mod Lock
use com_webos_service_locati.Base.{
  ℕ, Bool, true, false, ◌&&◌, ◌||◌, not, Option, none, some, String, List, [], ◌∷◌, ◌++◌, ◌==◌,
  if◌then◌else◌,
}
use com_webos_service_locati.Base.Int.{ℤ, pos, negsuc, eq_ℤ}
use com_webos_service_locati.Bus.{
  Key, gps_updates, nw_updates, hybrid_updates, passive_updates, named, Subscriptions,
}
use com_webos_service_locati.Commands.{position_cmd}
use com_webos_service_locati.Errors.{
  ErrorCode, error_value, location_error_of, LocationError, success, location_off, invalid_input,
  unknown_error, data_connection_off, gps_nyx_source_unavailable,
}
use com_webos_service_locati.Updates.Criteria.{handler_hybrid}
use com_webos_service_locati.Updates.Service.{
  Effect, reply, gps, network, add_source, Service, failed, on_monitor,
}
use com_webos_service_locati.Updates.Table.{UpdateRequest, put}
use com_webos_service_locati.Wake.{Call}

-- The names of the handlers, and any other text.
pub data HandlerName : Type 0 where
  gps_name network_name hybrid_name passive_name : HandlerName
  other_name : String → HandlerName

-- `GETLOC_UPDATE_GPS` and the like.
pub data HandlerVal : Type 0 where
  getloc_update_nw getloc_update_gps_nw getloc_update_gps getloc_update_passive : HandlerVal
  getloc_update_invalid : HandlerVal

unfoldable pub get_handler_val : HandlerName → HandlerVal
get_handler_val gps_name = getloc_update_gps
get_handler_val network_name = getloc_update_nw
get_handler_val hybrid_name = getloc_update_gps_nw
get_handler_val passive_name = getloc_update_passive
get_handler_val (other_name s) = getloc_update_invalid

-- startedHandlers: HANDLER_GPS_BIT and HANDLER_NETWORK_BIT.
pub record Started : Type 0 where
  pub gps_bit : Bool
  pub network_bit : Bool

abbrev pub any_started : Started → Bool
any_started b = b.gps_bit || b.network_bit

-- What is on: the handlers in the settings, and the connection (getConnectionManagerState).
pub record Status : Type 0 where
  pub gps_on : Bool
  pub network_on : Bool
  pub connected : Bool

unfoldable pub enable_gps_handler : Status → Started → Started × Bool
enable_gps_handler st b = if st.gps_on then (record b { gps_bit = true }, true) else (b, false)

-- A handler that is off in the settings is no failure.
unfoldable pub enable_nw_handler : Status → Started → Started × Bool
enable_nw_handler st b =
    if st.network_on
    then (let b' = if st.connected then record b { network_bit = true } else b in
        (b', any_started b'))
    else (b, true)

-- The buffer of the key is empty where no handler wrote it.
abbrev pub key_if : Bool → Key → Key
key_if true k = k
key_if false k = named ""

pub both_handlers : Status → Started × Bool → Key × Started
unfolding enable_nw_handler
both_handlers st (b, ok) =
    let (b', ok') = enable_nw_handler st b in (key_if (ok || ok') hybrid_updates, b')

abbrev pub none_started : Started
none_started = record { gps_bit = false; network_bit = false }

pub selected : Status → HandlerVal → Key × Started
unfolding enable_gps_handler enable_nw_handler both_handlers
selected st getloc_update_gps =
    let (b, ok) = enable_gps_handler st none_started in (key_if ok gps_updates, b)
selected st getloc_update_nw =
    let (b, ok) = enable_nw_handler st none_started in (key_if ok nw_updates, b)
selected st getloc_update_gps_nw = both_handlers st (enable_gps_handler st none_started)
selected st getloc_update_passive = (passive_updates, none_started)
selected st getloc_update_invalid = (named "", none_started)

-- The result, the key and the bits.
unfoldable pub enable_handlers : Status → HandlerVal → Bool × Key × Started
unfolding selected enable_gps_handler enable_nw_handler both_handlers
enable_handlers st sel = let (k, b) = selected st sel in (any_started b, k, b)

-- The request of the client.
pub record LocationRequest : Type 0 where
  pub handler : Option HandlerName
  pub response_timeout : ℤ
  pub wakelock : Bool

-- What the bus, the clock and the providers answer.
pub record Answers : Type 0 where
  pub valid_schema : Bool
  pub now : ℤ
  -- The identifier that g_timeout_add_seconds gives.
  pub source : ℕ
  pub added : Bool
  pub connection : Bool
  pub gps_result : ErrorCode
  pub gps_mocked : Bool
  pub network_result : ErrorCode

abbrev pub name_of : Option HandlerName → HandlerName
name_of none = hybrid_name
name_of (some n) = n

-- `handlertype` is set only where the client names no handler.
abbrev pub handler_type_of : Option HandlerName → ℤ
handler_type_of none = handler_hybrid
handler_type_of (some n) = negsuc 0

abbrev pub is_passive : HandlerVal → Bool
is_passive getloc_update_passive = true
is_passive _ = false

abbrev pub is_invalid : HandlerVal → Bool
is_invalid getloc_update_invalid = true
is_invalid _ = false

abbrev pub is_off : Status → HandlerName → Bool
is_off st gps_name = not st.gps_on
is_off st network_name = not st.network_on
is_off st _ = false

module _ {F : Type 0} (subs : Subscriptions) (accepts : Call → Bool) (invalid : F)
    (suspend_blocker : Bool) where
  -- `errorCode != LOCATION_SUCCESS`
  abbrev pub reply_error : ℕ → LocationError → List (Effect F)
  reply_error m success = []
  reply_error m e = reply m (failed e) ∷ []

  -- A number of the enumeration of the handlers is sent as one of the service's.
  pub ask_network : ℕ → Answers → Started → List (Effect F)
  ask_network m a b =
      if b.network_bit
      then network position_cmd ∷ reply_error m (location_error_of a.network_result)
      else []

  pub ask_gps : ℕ → Answers → Started → List (Effect F)
  unfolding ask_network
  ask_gps m a b =
      if b.gps_bit
      then gps position_cmd
        ∷ (if a.gps_mocked
            then []
            else (if error_value a.gps_result == 5
                then reply_error m gps_nyx_source_unavailable
                else ask_network m a b))
      else ask_network m a b

  pub new_request : LocationRequest → Answers → UpdateRequest F
  new_request q a = record {
    request_time = a.now;
    last_latitude = invalid;
    last_longitude = invalid;
    first_reply = true;
    timer_id = if eq_ℤ q.response_timeout (pos 0) then 0 else a.source;
    has_timer_data = true;
    handler_type = handler_type_of q.handler;
  }

  pub start_timer : LocationRequest → Answers → List (Effect F)
  start_timer q a =
      if eq_ℤ q.response_timeout (pos 0) then [] else add_source a.source q.response_timeout ∷ []

  pub take_lock : Bool → Service F subs.Lists → Service F subs.Lists × List (Effect F)
  take_lock wanted s = if wanted then on_monitor accepts s.monitor true s else (s, [])

  -- The table is written first, then the list.
  pub register :
      ℕ
      → LocationRequest
      → Answers
      → Key
      → Started
      → Service F subs.Lists
      → Service F subs.Lists × List (Effect F)
  unfolding ask_gps ask_network new_request start_timer take_lock
  register m q a k b s =
      let tabled = record s { table = put m (new_request q a) s.table } in
      if a.added
      then (let listed = record tabled { lists = subs.add s.lists k m } in
          let (locked, ws) = take_lock (suspend_blocker && q.wakelock && any_started b) listed in
          (locked, start_timer q a ++ ws ++ ask_gps m a b))
      else (tabled, start_timer q a ++ reply_error m unknown_error)

  pub select :
      ℕ
      → LocationRequest
      → Answers
      → HandlerVal
      → Bool × Key × Started
      → Service F subs.Lists
      → Service F subs.Lists × List (Effect F)
  unfolding register
  select m q a sel (ok, k, b) s =
      if is_invalid sel
      then (s, reply_error m invalid_input)
      else (if ok || is_passive sel
          then register m q a k b s
          else (s, reply_error m data_connection_off))

  abbrev pub status : Answers → Service F subs.Lists → Status
  status a s = record { gps_on = s.gps_status; network_on = s.nw_status; connected = a.connection }

  -- A payload that breaks the schema is answered by LSMessageValidateSchemaReplyOnError.
  unfoldable pub get_location_updates :
      ℕ → LocationRequest → Answers → Service F subs.Lists → Service F subs.Lists × List (Effect F)
  unfolding select register
  get_location_updates m q a s =
      if not a.valid_schema
      then (s, [])
      else (if not s.gps_status && not s.nw_status || is_off (status a s) (name_of q.handler)
          then (s, reply_error m location_off)
          else (let sel = get_handler_val (name_of q.handler) in
              select m q a sel (enable_handlers (status a s) sel) s))
