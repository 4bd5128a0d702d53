-- ===== src/Gps/Wan/Tests.antt =====
-- The theorem on the mobile network at a history: the service comes, an access point is found, the
-- network comes with IPv4, the thread opens the connection, and the network goes.
use com_webos_service_locati.Base.{◌≡◌, refl, Bool, true, false, none, some, List, [], ◌∷◌, codes}
use com_webos_service_locati.Base.Int.{pos}
use com_webos_service_locati.Gps.Atl.{
  Atl, Call, initial, update_availability, data_conn_open, update_network_state, gps_thread_proc,
}
use com_webos_service_locati.Gps.Extra.{same_text, starts_with}
use com_webos_service_locati.Gps.Wan.{
  Wan, call_cancel, not_connected, initialize, service_up_cb, service_started, service_stopped,
  Settings, setting_service_cb, contains, apn_after, Contexts, Bearers, walk, get_context_cb,
}
use com_webos_service_locati.Gps.Wan.Supl.{
  start, service, settings, says, round, IsCurrent, Reach-IsCurrent,
}

abbrev bearers : Bearers
bearers = record { bearer_ipv4 = 1; bearer_ipv6 = 2; bearer_ipv4v6 = 3 }

abbrev found : Settings
found = record {
  succeeds = true;
  apn_list = some (
      record { apn_type = none; apn = codes "a" }
      ∷ record { apn_type = some (codes "default,supl"); apn = codes "b" }
      ∷ []);
}

abbrev contexts : Bool → Contexts
contexts up = record {
  return_value = some true;
  contexts =
      record { name = some none; connected = none; ipv4 = false; ipv6 = false }
      ∷ record { name = some (some (codes "mms")); connected = some true; ipv4 = true; ipv6 = true }
      ∷ record { name = some (some (codes "supl")); connected = some up; ipv4 = true; ipv6 = false }
      ∷ [];
}

abbrev served : Wan
served = (service_up_cb (some (some true)) 7 (initialize not_connected).0).0

abbrev wan : Wan
wan = setting_service_cb (some found) served

abbrev joins : Atl × List Call
joins = get_context_cb bearers wan (some (contexts true)) initial

abbrev opens : Atl × List Call
opens = gps_thread_proc true joins.0

abbrev leaves : Atl × List Call
leaves = get_context_cb bearers wan (some (contexts false)) opens.0

Reach-IsCurrent_example : IsCurrent wan leaves.0 false
unfolding setting_service_cb service_up_cb service_started same_text
Reach-IsCurrent_example = Reach-IsCurrent (
    says (some (contexts false)) (
      round
        (says (some (contexts true)) (settings (some found) (service (some (some true)) 7 start)))))

-- What the GNSS library hears, and the call that is cancelled.
joins_calls : joins.1 ≡ update_availability (pos 1) (codes "b") ∷ []
unfolding get_context_cb walk same_text update_network_state setting_service_cb apn_after contains
    starts_with
joins_calls = refl

opens_calls : opens.1 ≡ data_conn_open (codes "b") 1 ∷ []
unfolding gps_thread_proc get_context_cb walk same_text update_network_state setting_service_cb
    apn_after contains starts_with
opens_calls = refl

stops_calls : (service_stopped wan).1 ≡ call_cancel 7 ∷ []
unfolding service_stopped setting_service_cb service_up_cb service_started
stops_calls = refl
