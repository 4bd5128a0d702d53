-- ===== src/MapServices/Answered.antt =====
-- Every geocoding request is answered once (LocationService.cpp, MapServicesImpl.cpp and
-- NetworkRequestManager.cpp together). loc-http holds a task with its message from
-- loc_create_http_task until loc_http_task_destroy.
mod Counts
mod Steps
pub mod Runs
use com_webos_service_locati.Base.{
  ℕ, ◌+◌, ◌≡◌, Bool, true, false, Option, none, some, List, [], ◌∷◌, ◌++◌, map, if◌then◌else◌, ◌==◌,
}
use com_webos_service_locati.MapServices.Geocode.{
  Geocoding, Effect, reply, ref_message, unref_message, http, Outside, Found, HttpReqTask, Method,
  other_method, get_reverse_location, get_geo_code_location, handle_data_cb,
}
use com_webos_service_locati.MapServices.Manager.{
  Client, map_services, create_task, destroy_task, put, erase, find,
}
use com_webos_service_locati.MapServices.Query.{ReverseRequest, GeocodeRequest}

abbrev pub one : ℕ → ℕ → ℕ
one n m = if n == m then 1 else 0

-- How often a message is in a list, is answered, is held on to and is let go.
abbrev pub count : ℕ → List ℕ → ℕ
count m [] = 0
count m (n ∷ ns) = one n m + count m ns

abbrev pub replies : ℕ → List Effect → ℕ
replies m [] = 0
replies m (reply n r ∷ es) = one n m + replies m es
replies m (e ∷ es) = replies m es

abbrev pub refs : ℕ → List Effect → ℕ
refs m [] = 0
refs m (ref_message n ∷ es) = one n m + refs m es
refs m (e ∷ es) = refs m es

abbrev pub unrefs : ℕ → List Effect → ℕ
unrefs m [] = 0
unrefs m (unref_message n ∷ es) = one n m + unrefs m es
unrefs m (e ∷ es) = unrefs m es

-- The tasks that loc-http holds, with their messages, after the calls made for a message.
abbrev pub live : ℕ → List Effect → List (ℕ × ℕ) → List (ℕ × ℕ)
live m [] held = held
live m (http (create_task t) ∷ es) held = live m es (put t m held)
live m (http (destroy_task t) ∷ es) held = live m es (erase t held)
live m (e ∷ es) held = live m es held

-- The tasks of a message.
abbrev pub waiting : ℕ → List (ℕ × ℕ) → ℕ
waiting m [] = 0
waiting m ((t, n) ∷ l) = one n m + waiting m l

abbrev pub tag : ℕ × ℕ → ℕ × Option Client
tag (t, n) = (t, some map_services)

pub record World : Type 0 where
  pub geo : Geocoding
  pub held : List (ℕ × ℕ)
  pub asked : List ℕ
  pub effects : List Effect

pub data Event (F : Type 0) : Type 0 where
  asks_reverse : Found → ℕ → ReverseRequest F → Event F
  asks_geocode : Found → ℕ → GeocodeRequest F → Event F
  responds : HttpReqTask → Event F
  connects : Bool → Event F

abbrev pub after : ℕ → List ℕ → World → Geocoding × List Effect → World
after m asked w (g, es) = record {
  geo = g;
  held = live m es w.held;
  asked = asked;
  effects = w.effects ++ es;
}

unfoldable pub step : {F : Type 0} → Outside F → Event F → World → World
step o (asks_reverse found m r) w = after m (m ∷ w.asked) w (get_reverse_location o found m r w.geo)
step o (asks_geocode found m r) w =
    after m (m ∷ w.asked) w (get_geo_code_location o found m r w.geo)
step o (responds t) w = after t.message w.asked w (handle_data_cb o t w.geo)
step o (connects b) w = record w { geo = record w.geo { internet = b } }

abbrev pub Fresh : Option ℕ → List (ℕ × ℕ) → Type 0
Fresh none held = Unit
Fresh (some t) held = find t held ≡ none

abbrev pub is_geocoding : Method → Bool
is_geocoding other_method = false
is_geocoding _ = true

abbrev pub has_body : Bool → Option (List ℕ) → Bool
has_body true none = false
has_body _ _ = true

-- A new task is none of those that are held. A task that loc-http gives back is held, with its
-- message; a response that succeeds has a body; the message is one of the two methods.
abbrev pub Allowed : {F : Type 0} → Event F → World → Type 0
Allowed (asks_reverse found m r) w = Fresh found.answers.created w.held
Allowed (asks_geocode found m r) w = Fresh found.answers.created w.held
Allowed (responds t) w =
    (find t.task w.held ≡ some t.message)
    × (is_geocoding t.method ≡ true)
    × (has_body t.succeeded t.response_data ≡ true)
Allowed (connects b) w = Unit

pub data Run {F : Type 0} (o : Outside F) : World → Type 0 where
  start :
      (g : Geocoding)
      → g.manager.requests ≡ []
      → Run o (record { geo = g; held = []; asked = []; effects = [] })
  next : (e : Event F) {w : World} → Run o w → Allowed e w → Run o (step o e w)

-- What a handler does with the messages: `new` is how often it was asked with each.
pub record Accounted (new : ℕ → ℕ) (m0 : ℕ) (held : List (ℕ × ℕ)) (g : Geocoding) (es : List Effect)
    : Type 0 where
  pub table_kept : g.manager.requests ≡ map tag (live m0 es held)
  pub answered : (m : ℕ) → replies m es + waiting m (live m0 es held) ≡ waiting m held + new m
  pub balanced : (m : ℕ) → refs m es + waiting m held ≡ unrefs m es + waiting m (live m0 es held)
