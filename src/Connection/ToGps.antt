-- ===== src/Connection/ToGps.antt =====
-- From the connection manager to the GNSS library: LocationService hands the notice on to the GPS
-- provider (include/LocationService.h), which tells the library.
use com_webos_service_locati.Base.{
  ◌≡◌, refl, ap, ◌∙◌, Bool, true, Option, none, some, List, [], ◌∷◌, ◌++◌,
}
use com_webos_service_locati.Base.Int.{ℤ, pos}
use com_webos_service_locati.Connection.{
  Json, json_boolean, Reads, ConnmgrNetworkType, connmgr_network_mobile, connmgr_network_wifi,
  connmgr_parse_data_network,
}
use com_webos_service_locati.Connection.Observer.{Notice, data_network_is, connectivity_status_cb}
use com_webos_service_locati.Connection.Replies.{connectivity_status_cb-parsed}
use com_webos_service_locati.Gps.DataNetwork.{
  DataNetwork, nothing_known, Answer, is_taken, Event, update_data_network, run,
}
use com_webos_service_locati.Gps.DataNetwork.Heard.{taken, taken_all, AllTaken, report-taken}

-- The values of the enumerators.
abbrev pub type_value : ConnmgrNetworkType → ℤ
type_value connmgr_network_mobile = pos 0
type_value connmgr_network_wifi = pos 1

-- `Handle_DataNetworkNotification`, for the notices of one callback; the service leaves the others
-- to their own handlers.
unfoldable pub handle_notices : Answer → List Notice → DataNetwork → DataNetwork × List (Bool × ℤ)
handle_notices rc [] d = (d, [])
handle_notices rc (data_network_is connected type ∷ ns) d =
    let (d', tells) = update_data_network rc connected (type_value type) d in
    let (d'', more) = handle_notices rc ns d' in (d'', tells ++ more)
handle_notices rc (_ ∷ ns) d = handle_notices rc ns d

append-nil : (ts : List (Bool × ℤ)) → ts ++ [] ≡ ts
append-nil [] = refl
append-nil (t ∷ ts) = ap (λ us. t ∷ us) (append-nil ts)

-- Whatever was reported before, each call taken: a reply of the connection manager that
-- ConnmgrStatus.cpp parses leaves an open GNSS library, which takes the call, with the network of
-- that reply, connected or not and of its type. `jboolean_get` reads a boolean as it is.
pub handle_notices-taken :
    (r : Reads) (es : List (Answer × Event)) (rc : Answer) (payload : Option Json)
    (d : Bool × ConnmgrNetworkType)
    → ((b : Bool) → r.boolean_get (json_boolean b) ≡ b)
    → AllTaken es
    → is_taken rc ≡ true
    → (run es nothing_known).nyx_ready ≡ true
    → connmgr_parse_data_network payload ≡ some d
    → taken rc
        (taken_all none es nothing_known)
        (handle_notices rc (connectivity_status_cb r payload) (run es nothing_known)).1
      ≡ some (d.0, type_value d.1)
unfolding handle_notices
handle_notices-taken r es rc payload d law a t ready parsed =
    let o = taken_all none es nothing_known in
    let n = run es nothing_known in
    let tells = (update_data_network rc d.0 (type_value d.1) n).1 in
    ap (λ ns. taken rc o (handle_notices rc ns n).1)
      (connectivity_status_cb-parsed r payload d law parsed)
    ∙ (ap (taken rc o) (append-nil tells) ∙ report-taken es rc d.0 (type_value d.1) a t ready)
