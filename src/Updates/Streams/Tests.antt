-- ===== src/Updates/Streams/Tests.antt =====
-- The theorem on NMEA data at a client that asks once: others subscribe and go meanwhile, and the
-- GPS provider refused its request. The lists are functions (Bus.plain).
use com_webos_service_locati.Base.{
  ◌≡◌, refl, Bool, true, false, none, List, [], ◌∷◌, map, ◌==◌, if◌then◌else◌, take,
}
use com_webos_service_locati.Base.Int.{pos}
use com_webos_service_locati.Bus.{plain}
use com_webos_service_locati.Errors.{error_none, error_not_available}
use com_webos_service_locati.Updates.Service.{
  Messages, other, Service, is_list_filled, stop_subcription,
}
use com_webos_service_locati.Updates.Cancel.{
  ls_subscription_non_subscription_reply, reply_messages, cancel_other,
}
use com_webos_service_locati.Updates.Streams.{
  get_nmea_data, send_nmea_data, provider_error, reply_failed,
}
use com_webos_service_locati.Updates.Streams.Events.{Event, asks, goes, sends, run, step, texts}
use com_webos_service_locati.Updates.Streams.Heard.{nmea_heard}
use com_webos_service_locati.Updates.Streams.Once.{received}
use com_webos_service_locati.Wake.{Call}

-- Message 2 subscribes.
abbrev clients : Messages
clients = record {
  is_subscription = λ m. m == 2;
  has_wakeup = λ m. false;
  min_interval = λ m. pos 0;
  min_distance = λ m. pos 0;
}

abbrev idle : Service Bool (plain.Lists)
idle = record { lists = λ k. []; table = []; monitor = none; gps_status = true; nw_status = false }

abbrev yes : Call → Bool
yes c = true

abbrev events : List Event
events = asks true true error_none 2 ∷ sends 7 ∷ sends 8 ∷ goes 2 ∷ sends 9 ∷ []

nmea_heard_example :
    received 1
      (run plain clients yes events (get_nmea_data plain true true error_not_available 1 idle).0)
    ≡ map other (if 1 == 2 then texts events else take 1 (texts events))
nmea_heard_example =
    nmea_heard plain clients yes (λ l k m h. refl) 1 error_not_available events idle refl refl refl

-- What the subscriber gets.
subscriber_hears :
    received {F = Bool} 2 (run plain clients yes events idle) ≡ other 7 ∷ other 8 ∷ []
unfolding run step get_nmea_data reply_failed provider_error send_nmea_data
    ls_subscription_non_subscription_reply reply_messages cancel_other is_list_filled
    stop_subcription
subscriber_hears = refl
