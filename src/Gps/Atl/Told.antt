-- ===== src/Gps/Atl/Told.antt =====
-- What the GNSS library was told of the data connection, over all interleavings of the callbacks with
-- the rounds of the thread (GPSPositionProvider.cpp, GPSNyxInterface.cpp).
use com_webos_service_locati.Base.{◌++◌, [], ◌∷◌, ℕ, arith, Bool, Option, List, ◌≡◌, ◌⊎◌, inl, refl}
use com_webos_service_locati.Gps.Atl.{
  data_conn_failed, data_conn_closed, connection_failed, connection_closed, action_quit,
  connection_open, data_conn_open, pos, initial, NetworkInfo, Action, Call, AgpsStatus, ℤ, joined,
  connection_idle, update_network_state, xtra_data_cb, agps_status_cb, xtra_time_cb,
  gps_thread_proc, act, ConnectionState, Atl,
}

-- One callback or one round of the thread, with the calls that it makes.
pub data Step : Atl → List Call → Atl → Type 0 where
  network_step :
      (info : NetworkInfo) (a : Atl)
      → Step a (update_network_state info a).1 (update_network_state info a).0
  agps_step : (s : AgpsStatus) (a : Atl) → Step a [] (agps_status_cb s a)
  xtra_data_step :
      (bytes : Option (List ℕ)) (length : ℤ) (a : Atl) → Step a [] (xtra_data_cb bytes length a)
  xtra_time_step :
      (time reference uncertainty : ℤ) (a : Atl)
      → Step a [] (xtra_time_cb time reference uncertainty a)
  quit_step : (a : Atl) → Step a [] (record a { thread_action = action_quit })
  round :
      (serves : Bool) (a : Atl) → Step a (gps_thread_proc serves a).1 (gps_thread_proc serves a).0

-- The states after the start of the program, with all the calls made.
pub data Reach : Atl → List Call → Type 0 where
  start : Reach initial []
  next : {a b : Atl} {cs ds : List Call} → Reach a cs → Step a ds b → Reach b (cs ++ ds)

-- The connection as the library has it: the last of the three calls that it had.
abbrev pub told : ConnectionState → List Call → ConnectionState
told s [] = s
told s (data_conn_open apn bearer ∷ cs) = told connection_open cs
told s (data_conn_closed ∷ cs) = told connection_closed cs
told s (data_conn_failed ∷ cs) = told connection_failed cs
told s (_ ∷ cs) = told s cs

told-append : (s : ConnectionState) (cs ds : List Call) → told s (cs ++ ds) ≡ told (told s cs) ds
told-append s [] ds = refl
told-append s (data_conn_open apn bearer ∷ cs) ds = told-append connection_open cs ds
told-append s (data_conn_closed ∷ cs) ds = told-append connection_closed cs ds
told-append s (data_conn_failed ∷ cs) ds = told-append connection_failed cs ds
told-append s (c ∷ cs) ds = told-append s cs ds

-- `mGPSDataConnectionState` is what the library was told, unless it is idle again; the network is
-- there or not.
pub record Agrees (a : Atl) (s : ConnectionState) : Type 0 where
  pub state : (a.connection_state ≡ connection_idle) ⊎ (a.connection_state ≡ s)
  pub flag : (a.network.available ≡ pos 0) ⊎ (a.network.available ≡ pos 1)

network-Agrees :
    (info : NetworkInfo) (a : Atl) (s : ConnectionState)
    → Agrees a s
    → let r = update_network_state info a in Agrees r.0 (told s r.1)
unfolding update_network_state joined
network-Agrees info a s g = ground arith

agps-Agrees :
    (t : AgpsStatus) (a : Atl) (s : ConnectionState) → Agrees a s → Agrees (agps_status_cb t a) s
unfolding agps_status_cb
agps-Agrees t a s g = ground arith

xtra-Agrees :
    (bytes : Option (List ℕ)) (length : ℤ) (a : Atl) (s : ConnectionState)
    → Agrees a s
    → Agrees (xtra_data_cb bytes length a) s
unfolding xtra_data_cb
xtra-Agrees bytes length a s g = ground arith

time-Agrees :
    (t r u : ℤ) (a : Atl) (s : ConnectionState) → Agrees a s → Agrees (xtra_time_cb t r u a) s
unfolding xtra_time_cb
time-Agrees t r u a s g = ground arith

act-Agrees :
    (serves : Bool) (action : Action) (a : Atl) (s : ConnectionState)
    → Agrees a s
    → let r = act serves action a in Agrees r.0 (told s r.1)
unfolding act
act-Agrees serves action a s g = ground arith

round-Agrees :
    (serves : Bool) (a : Atl) (s : ConnectionState)
    → Agrees a s
    → let r = gps_thread_proc serves a in Agrees r.0 (told s r.1)
unfolding gps_thread_proc
round-Agrees serves a s g = ground (arith, act-Agrees serves a.thread_action a s g)

Step-Agrees :
    {a b : Atl} {ds : List Call}
    → Step a ds b
    → (s : ConnectionState) → Agrees a s
    → Agrees b (told s ds)
Step-Agrees (network_step info a) s g = network-Agrees info a s g
Step-Agrees (agps_step t a) s g = agps-Agrees t a s g
Step-Agrees (xtra_data_step bytes length a) s g = xtra-Agrees bytes length a s g
Step-Agrees (xtra_time_step t r u a) s g = time-Agrees t r u a s g
Step-Agrees (quit_step a) s g = ground arith
Step-Agrees (round serves a) s g = round-Agrees serves a s g

-- In any order of callbacks and rounds of the thread from the start of the program,
-- `mGPSDataConnectionState` is idle or what the GNSS library was told last of the data connection,
-- and the flag of the network is 0 or 1.
pub Reach-Agrees : {a : Atl} {cs : List Call} → Reach a cs → Agrees a (told connection_idle cs)
Reach-Agrees start = record { state = inl refl; flag = inl refl }
Reach-Agrees (next {a} {b} {cs} {ds} r st) =
    rw (told-append connection_idle cs ds)
      (Step-Agrees st (told connection_idle cs) (Reach-Agrees r))
