-- ===== src/Updates/Streams/Events.antt =====
-- What happens to the NMEA data of src/lunaIpc/LocationService.cpp while the handlers are not turned on
-- or off, in any order: clients ask with getNmeaData and go, and the GPS provider has data.
use com_webos_service_locati.Base.{ℕ, Bool, false, ◌||◌, List, [], ◌∷◌, ◌++◌, ◌==◌}
use com_webos_service_locati.Bus.{nmea_data, Subscriptions}
use com_webos_service_locati.Errors.{ErrorCode}
use com_webos_service_locati.Updates.Cancel.{cancel_other}
use com_webos_service_locati.Updates.Service.{Messages, Effect, Service}
use com_webos_service_locati.Updates.Streams.{get_nmea_data, send_nmea_data}
use com_webos_service_locati.Wake.{Call}

-- The answers of `asks` are those of get_nmea_data.
pub data Event : Type 0 where
  asks : Bool → Bool → ErrorCode → ℕ → Event
  goes : ℕ → Event
  sends : ℕ → Event

abbrev pub names : ℕ → Event → Bool
names n (asks valid adds result m) = m == n
names n (goes m) = m == n
names n (sends text) = false

abbrev pub is_named : ℕ → List Event → Bool
is_named n [] = false
is_named n (e ∷ es) = names n e || is_named n es

abbrev pub texts : List Event → List ℕ
texts [] = []
texts (asks valid adds result m ∷ es) = texts es
texts (goes m ∷ es) = texts es
texts (sends text ∷ es) = text ∷ texts es

module _ {F : Type 0} (subs : Subscriptions) (msgs : Messages) (accepts : Call → Bool) where
  -- The bus takes a message that goes off its list after the service has heard of it.
  unfoldable pub step : Event → Service F subs.Lists → Service F subs.Lists × List (Effect F)
  step (asks valid adds result m) s = get_nmea_data subs valid adds result m s
  step (goes m) s = (
    record s { lists = subs.remove s.lists nmea_data m },
    cancel_other subs msgs accepts m nmea_data s,
  )
  step (sends text) s = send_nmea_data subs msgs accepts text s

  unfoldable pub run : List Event → Service F subs.Lists → List (Effect F)
  run [] s = []
  run (e ∷ es) s = let (s', fs) = step e s in fs ++ run es s'
