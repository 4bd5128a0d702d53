-- ===== src/Gps/Atl.antt =====
-- The data connection of assisted GPS: gpsThreadProc and updateNetworkState
-- (GPSPositionProvider.cpp), agpsStatusCb, xtraDataCb and xtraTimeCb (GPSNyxInterface.cpp). The mutex
-- makes each callback one step, and so is each round of the thread. `mGPSThreadAction` is one cell: a
-- second action before the round of the first takes its place.
pub mod Told
use com_webos_service_locati.Base.{
  take, ℕ, Bool, true, false, ◌&&◌, Option, none, some, List, [], ◌∷◌, ◌++◌, ◌==◌, ltb,
  if◌then◌else◌, arith,
}
use com_webos_service_locati.Base.Int.{abs, ltb_ℤ, ℤ, pos, eq_ℤ}

-- DATA_CONNECTION_IDLE and the others.
pub data ConnectionState : Type 0 where
  connection_idle connection_open connection_closed connection_failed : ConnectionState

-- `GPSThreadActionEType`, without the two that nothing uses.
pub data Action : Type 0 where
  action_none action_quit action_open_atl action_close_atl action_fail_atl : Action
  action_ni_notify action_xtra_data action_xtra_time : Action

-- `NetworkInfo`; `bearer_type` is an enumerator of nyx.
pub record NetworkInfo : Type 0 where
  pub available : ℤ
  pub apn : List ℕ
  pub bearer_type : ℕ

pub record Atl : Type 0 where
  pub network : NetworkInfo
  pub connection_state : ConnectionState
  pub thread_action : Action
  pub xtra_data : List ℕ
  pub xtra_time : ℤ × ℤ × ℤ
  pub xtra_downloading : Bool
  pub ended : Bool

abbrev pub initial : Atl
initial = record {
  network = record { available = pos 0; apn = []; bearer_type = 0 };
  connection_state = connection_idle;
  thread_action = action_none;
  xtra_data = [];
  xtra_time = (pos 0, pos 0, pos 0);
  xtra_downloading = false;
  ended = false;
}

pub data Call : Type 0 where
  data_conn_open : List ℕ → ℕ → Call
  data_conn_closed data_conn_failed wan_connect wan_disconnect : Call
  update_availability : ℤ → List ℕ → Call
  inject_xtra_data : List ℕ → Call
  inject_xtra_time : ℤ → ℤ → ℤ → Call

-- An `int` as a condition.
abbrev pub is_set : ℤ → Bool
is_set i = if eq_ℤ i (pos 0) then false else true

pub may_open : ConnectionState → Bool
may_open connection_idle = true
may_open connection_open = false
may_open connection_closed = false
may_open connection_failed = true

pub is_open : ConnectionState → Bool
is_open connection_idle = false
is_open connection_open = true
is_open connection_closed = false
is_open connection_failed = false

-- An empty access point name leaves the old one.
pub keep_apn : List ℕ → List ℕ → List ℕ
keep_apn [] old = old
keep_apn (c ∷ cs) old = c ∷ cs

unfoldable pub joined : NetworkInfo → NetworkInfo → NetworkInfo
unfolding keep_apn
joined info old = record {
  available = pos 1;
  apn = keep_apn info.apn old.apn;
  bearer_type = info.bearer_type;
}

unfoldable pub update_network_state : NetworkInfo → Atl → Atl × List Call
unfolding may_open is_open joined
update_network_state info a =
    if eq_ℤ info.available (pos 1) && eq_ℤ a.network.available (pos 0)
    then (let n = joined info a.network in
        (
          record a {
            network = n;
            thread_action =
                if may_open a.connection_state then action_open_atl else a.thread_action;
          },
          update_availability (pos 1) n.apn ∷ [],
        ))
    else if eq_ℤ info.available (pos 0) && eq_ℤ a.network.available (pos 1)
    then (
      record a {
        network = record a.network { available = pos 0 };
        thread_action = if is_open a.connection_state then action_close_atl else a.thread_action;
      },
      [],
    )
    else (a, [])

-- What `agpsStatusCb` hears.
pub data AgpsStatus : Type 0 where
  request_data_conn release_data_conn data_connected data_conn_done data_conn_failed_status :
      AgpsStatus

unfoldable pub agps_status_cb : AgpsStatus → Atl → Atl
agps_status_cb request_data_conn a = record a { thread_action = action_open_atl }
agps_status_cb release_data_conn a = record a { thread_action = action_close_atl }
agps_status_cb data_connected a = a
agps_status_cb data_conn_done a = a
agps_status_cb data_conn_failed_status a = a

-- `none` is a null pointer; the length is an `int`.
unfoldable pub xtra_data_cb : Option (List ℕ) → ℤ → Atl → Atl
xtra_data_cb none length a = record a { thread_action = action_xtra_data }
xtra_data_cb (some bytes) length a = record a {
  xtra_data = if ltb_ℤ (pos 0) length then take (abs length) bytes else a.xtra_data;
  thread_action = action_xtra_data;
}

unfoldable pub xtra_time_cb : ℤ → ℤ → ℤ → Atl → Atl
xtra_time_cb time reference uncertainty a = record a {
  xtra_time = (time, reference, uncertainty);
  thread_action = action_xtra_time;
}

-- The body of the loop's switch. `serves` is `mGpsWanInterface.serviceStatus()`.
unfoldable pub act : Bool → Action → Atl → Atl × List Call
act serves action_none a = (a, [])
act serves action_quit a = (record a { ended = true }, [])
act serves action_open_atl a =
    if is_set a.network.available
    then (
      record a { connection_state = connection_open },
      data_conn_open a.network.apn a.network.bearer_type ∷ [],
    )
    else if serves
    then (record a { connection_state = connection_idle }, wan_connect ∷ [])
    else (a, [])
act serves action_close_atl a =
    if is_set a.network.available
    then (a, wan_disconnect ∷ [])
    else (record a { connection_state = connection_closed }, data_conn_closed ∷ [])
act serves action_fail_atl a =
    (record a { connection_state = connection_failed }, data_conn_failed ∷ [])
act serves action_ni_notify a = (a, [])
act serves action_xtra_data a =
    (record a { xtra_downloading = false }, inject_xtra_data a.xtra_data ∷ [])
act serves action_xtra_time a =
    let (time, reference, uncertainty) = a.xtra_time in
    (a, inject_xtra_time time reference uncertainty ∷ [])

-- One round of the thread; it waits while there is no action, and ends at ACTION_QUIT.
unfoldable pub gps_thread_proc : Bool → Atl → Atl × List Call
unfolding act
gps_thread_proc serves a =
    if a.ended
    then (a, [])
    else (let (a', calls) = act serves a.thread_action a in
        (record a' { thread_action = action_none }, calls))
