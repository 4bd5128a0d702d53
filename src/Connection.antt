-- ===== src/Connection.antt =====
-- The state of the connections: src/lunaIpc/ConnectionStateObserver.cpp, ConnmgrStatus.cpp and
-- SleepdSignals.cpp. A reply of the bus is its payload as pbnjson parses it, `none` if it does not.
-- What pbnjson makes of a value of another type than asked for is in `Reads`.
pub mod Observer
pub mod Replies
mod Listeners
pub mod ToGps
mod Tests
use com_webos_service_locati.Base.{
  ℕ, Bool, true, false, ◌&&◌, ◌||◌, Option, none, some, List, [], ◌∷◌, ◌==◌, codes, if◌then◌else◌,
}
use com_webos_service_locati.Base.Int.{ℤ, pos, negsuc, eq_ℤ}

mutual
  pub data Json : Type 0 where
    json_null : Json
    json_boolean : Bool → Json
    json_number : ℤ → Json
    json_string : List ℕ → Json
    json_array : Json
    json_object : Members → Json

  pub data Members : Type 0 where
    no_member : Members
    member : List ℕ → Json → Members → Members

-- `jboolean_get` of any value; `jnumber_get_i32` of any value, `none` if it does not convert.
pub record Reads : Type 0 where
  pub boolean_get : Json → Bool
  pub i32_get : Json → Option ℤ

unfoldable pub same_key : List ℕ → List ℕ → Bool
same_key [] [] = true
same_key [] (c ∷ cs) = false
same_key (c ∷ cs) [] = false
same_key (c ∷ cs) (d ∷ ds) = c == d && same_key cs ds

-- `jobject_get_exists`
unfoldable pub find : Members → List ℕ → Option Json
unfolding same_key
find no_member key = none
find (member name value rest) key = if same_key name key then some value else find rest key

unfoldable pub get_exists : Json → List ℕ → Option Json
unfolding find
get_exists (json_object ms) key = find ms key
get_exists _ key = none

-- The value, if it is a boolean, and the same for a string.
abbrev pub boolean_of : Option Json → Option Bool
boolean_of (some (json_boolean b)) = some b
boolean_of _ = none

abbrev pub string_of : Option Json → Option (List ℕ)
string_of (some (json_string s)) = some s
string_of _ = none

pub data ConnmgrNetworkType : Type 0 where
  connmgr_network_mobile connmgr_network_wifi : ConnmgrNetworkType

abbrev pub is_connected : Option (List ℕ) → Bool
is_connected none = false
is_connected (some s) = same_key s (codes "connected")

-- A link that is no object has no member.
unfoldable pub link_is_connected : Json → List ℕ → Bool
unfolding get_exists same_key
link_is_connected status name = elim (get_exists status name) [
  | none ↦ false
  | some link ↦ is_connected (string_of (get_exists link (codes "state")))
]

abbrev pub network_type : Json → ConnmgrNetworkType
network_type status =
    if link_is_connected status (codes "wifi") || link_is_connected status (codes "wired")
    then connmgr_network_wifi
    else connmgr_network_mobile

-- `none` is false: nothing is filled in.
unfoldable pub data_network_of :
    Json → Option Bool → Option Bool → Option (Bool × ConnmgrNetworkType)
unfolding link_is_connected
data_network_of status (some true) (some internet) = some (internet, network_type status)
data_network_of status _ _ = none

unfoldable pub connmgr_parse_data_network : Option Json → Option (Bool × ConnmgrNetworkType)
unfolding get_exists data_network_of
connmgr_parse_data_network none = none
connmgr_parse_data_network (some status) =
    data_network_of status (boolean_of (get_exists status (codes "returnValue")))
      (boolean_of (get_exists status (codes "isInternetConnectionAvailable")))

abbrev pub sleepd_resume_kernel : ℤ
sleepd_resume_kernel = pos 0

abbrev pub or_minus_one : Option ℤ → ℤ
or_minus_one none = negsuc 0
or_minus_one (some i) = i

-- `value` is the member, if it is a number.
abbrev pub number_of : Reads → Option Json → ℤ
number_of r (some (json_number i)) = or_minus_one (r.i32_get (json_number i))
number_of r _ = negsuc 0

unfoldable pub sleepd_parse_resume_type : Reads → Option Json → ℤ
unfolding get_exists
sleepd_parse_resume_type r none = negsuc 0
sleepd_parse_resume_type r (some payload) = number_of r (get_exists payload (codes "resumetype"))

unfoldable pub sleepd_resume_is_kernel_wake : ℤ → Bool
sleepd_resume_is_kernel_wake t = eq_ℤ t sleepd_resume_kernel
