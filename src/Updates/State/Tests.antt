-- ===== src/Updates/State/Tests.antt =====
-- The theorems on setState and getState at concrete clients. The lists are functions (Bus.plain), the
-- settings are a function, and the doubles are numbers.
use com_webos_service_locati.Base.{
  ℕ, ◌≡◌, refl, inl, Bool, true, not, Option, none, some, List, [], ◌∷◌, ltb, ◌==◌, codes, false,
  if◌then◌else◌,
}
use com_webos_service_locati.Base.Int.{ℤ, pos}
use com_webos_service_locati.Bus.{Key, gps_updates, plain}
use com_webos_service_locati.Gps.Extra.{same_text}
use com_webos_service_locati.Updates.Criteria.{Geometry}
use com_webos_service_locati.Updates.Service.{Messages, Service}
use com_webos_service_locati.Updates.State.{load_handler_status, Prefs, StateEffect, set_state}
use com_webos_service_locati.Updates.State.Loaded.{IsLoaded, with_key-IsTurned, set_state-IsLoaded}
use com_webos_service_locati.Wake.{Call}

abbrev written_once : Prefs
written_once = record {
  Store = List ℕ → Option ℤ;
  get = λ p h. p h;
  set = λ p h v j. if same_text h j then some v else p j;
  get_set = λ p h j v. refl;
}

abbrev stored : List ℕ → Option ℤ
stored h = if same_text h (codes "gps") then some (pos 1) else none

-- Message 1 waits for the GPS, message 2 subscribes to its state.
abbrev clients : Messages
clients = record {
  is_subscription = λ m. m == 2;
  has_wakeup = λ m. false;
  min_interval = λ m. pos 0;
  min_distance = λ m. pos 0;
}

abbrev on_gps : Key → List ℕ
on_gps gps_updates = 1 ∷ []
on_gps _ = []

abbrev service : Service ℕ (plain.Lists)
service = record {
  lists = on_gps;
  table = [];
  monitor = none;
  gps_status = true;
  nw_status = false;
}

abbrev yes : Call → Bool
yes c = true

abbrev plane : Geometry ℕ
plane = record { accurate = λ a. ltb a 100; far = λ a b c d m. not (a == c) }

abbrev noon : ℕ → ℤ
noon m = pos 43200000

service-IsLoaded : IsLoaded written_once service stored
unfolding same_text
service-IsLoaded = record { gps_loaded = refl; nw_loaded = refl }

-- The GPS handler is turned off, and the setting is written.
abbrev turned_off : (Service ℕ (plain.Lists) × (List ℕ → Option ℤ)) × List (StateEffect ℕ)
turned_off =
    set_state plain clients yes plane noon written_once true true 3 (some (codes "gps")) false
      (service, stored)

set_state-IsLoaded_example : IsLoaded written_once turned_off.0.0 turned_off.0.1
set_state-IsLoaded_example =
    set_state-IsLoaded plain clients yes plane noon written_once true true 3 (codes "gps") false
      service stored service-IsLoaded (inl refl)

-- Where the write fails, the handler is off and the setting is on.
abbrev unwritten : Service ℕ (plain.Lists) × (List ℕ → Option ℤ)
unwritten =
    (set_state plain clients yes plane noon written_once true false 3 (some (codes "gps")) false
      (service, stored)).0

unwritten_states :
    (unwritten.0.gps_status ≡ false)
    × (load_handler_status written_once true unwritten.1 (codes "gps") ≡ true)
unfolding set_state same_text
unwritten_states = (
  (with_key-IsTurned plain clients yes plane noon 3 (codes "gps") false service).gps_turned,
  refl,
)
