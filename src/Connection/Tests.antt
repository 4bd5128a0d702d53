-- ===== src/Connection/Tests.antt =====
-- The theorems on the connections at concrete replies.
use com_webos_service_locati.Base.{
  ◌≡◌, refl, Bool, true, false, Option, none, some, List, [], ◌∷◌, codes,
}
use com_webos_service_locati.Base.Int.{pos, ℤ}
use com_webos_service_locati.Connection.{
  Json, member, no_member, json_boolean, json_number, json_string, json_object, Reads,
  connmgr_network_wifi, connmgr_parse_data_network, get_exists, find, same_key, data_network_of,
  link_is_connected,
}
use com_webos_service_locati.Connection.Observer.{connectivity_status_cb}
use com_webos_service_locati.Connection.ToGps.{handle_notices, handle_notices-taken}
use com_webos_service_locati.Gps.DataNetwork.{
  Answer, done, not_implemented, Event, report, opened, nothing_known, run, step,
  update_data_network, send_data_network_locked,
}
use com_webos_service_locati.Gps.DataNetwork.Heard.{taken, taken_all}

abbrev boolean_get : Json → Bool
boolean_get (json_boolean b) = b
boolean_get _ = false

abbrev i32_get : Json → Option ℤ
i32_get (json_number i) = some i
i32_get _ = none

abbrev reads : Reads
reads = record { boolean_get = boolean_get; i32_get = i32_get }

abbrev status : Json
status = json_object (
    member (codes "returnValue") (json_boolean true) (
      member (codes "isInternetConnectionAvailable") (json_boolean true) (
        member (codes "wifi")
          (json_object (member (codes "state") (json_string (codes "connected")) no_member))
          no_member)))

abbrev before : List (Answer × Event)
before = (done, opened) ∷ (not_implemented, report false (pos 0)) ∷ []

handle_notices-taken_example :
    taken done
      (taken_all none before nothing_known)
      (handle_notices done
        (connectivity_status_cb reads (some status))
        (run before nothing_known)).1
    ≡ some (true, pos 1)
unfolding connmgr_parse_data_network get_exists find same_key data_network_of link_is_connected run
    step update_data_network send_data_network_locked
handle_notices-taken_example =
    handle_notices-taken reads before done (some status) (true, connmgr_network_wifi) (λ b. refl)
      (refl, (refl, tt)) refl refl refl
