-- ===== src/Gps/DataNetwork.antt =====
-- What the GNSS library is told about the data network: updateDataNetwork, sendDataNetworkLocked and
-- the places of init and shutdown that set `mNyxReady` (GPSPositionProvider.cpp). The mutex makes
-- each of them one step.
pub mod Heard
use com_webos_service_locati.Base.{
  ap, sym, ◌∙◌, ◌≡◌, ◌≢◌, ◌⊎◌, inl, inr, refl, Bool, true, false, ◌&&◌, ◌||◌, not, Option, none,
  some, List, [], ◌∷◌, if◌then◌else◌, arith,
}
use com_webos_service_locati.Base.Int.{ℤ, pos, eq_ℤ, eq_ℤ_eq, eq_ℤ_refl}

-- The fields of `updateDataNetwork()`: what was last reported, and what the library has had.
pub record DataNetwork : Type 0 where
  pub nyx_ready : Bool
  pub known : Bool
  pub connected : Bool
  pub network_type : ℤ
  pub sent : Bool
  pub sent_connected : Bool
  pub sent_type : ℤ

abbrev pub nothing_known : DataNetwork
nothing_known = record {
  nyx_ready = false;
  known = false;
  connected = false;
  network_type = pos 0;
  sent = false;
  sent_connected = false;
  sent_type = pos 0;
}

-- The answer of `nyx_gps_update_network_state`.
pub data Answer : Type 0 where
  done not_implemented failed : Answer

-- `rc == NYX_ERROR_NONE || rc == NYX_ERROR_NOT_IMPLEMENTED`
abbrev pub is_taken : Answer → Bool
is_taken done = true
is_taken not_implemented = true
is_taken failed = false

-- `a == b` of two `bool`.
abbrev pub same : Bool → Bool → Bool
same true b = b
same false b = not b

unfoldable pub send_data_network_locked : Answer → DataNetwork → DataNetwork × List (Bool × ℤ)
send_data_network_locked rc d =
    if not d.nyx_ready || not d.known
    then (d, [])
    else if d.sent && same d.sent_connected d.connected && eq_ℤ d.sent_type d.network_type
    then (d, [])
    else (
      if is_taken rc
          then record d { sent = true; sent_connected = d.connected; sent_type = d.network_type }
          else d,
      (d.connected, d.network_type) ∷ [],
    )

unfoldable pub update_data_network : Answer → Bool → ℤ → DataNetwork → DataNetwork × List (Bool × ℤ)
unfolding send_data_network_locked
update_data_network rc connected type d =
    send_data_network_locked rc
      (record d { known = true; connected = connected; network_type = type })

-- A report of the connection, the end of `init`, the start of `shutdown`.
pub data Event : Type 0 where
  report : Bool → ℤ → Event
  opened closing : Event

unfoldable pub step : Answer → Event → DataNetwork → DataNetwork × List (Bool × ℤ)
unfolding update_data_network
step rc (report connected type) d = update_data_network rc connected type d
step rc opened d = send_data_network_locked rc (record d { nyx_ready = true })
step rc closing d = (record d { nyx_ready = false }, [])

unfoldable pub run : List (Answer × Event) → DataNetwork → DataNetwork
unfolding step
run [] d = d
run ((rc, e) ∷ es) d = run es (step rc e d).0
