-- ===== src/Connection/Observer.antt =====
-- The observer itself: its listeners and the callbacks of the bus
-- (src/lunaIpc/ConnectionStateObserver.cpp). A listener is a number, which stands for its pointer.
use com_webos_service_locati.Base.{
  ℕ, Bool, true, false, ◌&&◌, Option, none, some, List, [], ◌∷◌, ◌++◌, map, ◌==◌, codes,
  if◌then◌else◌,
}
use com_webos_service_locati.Base.Int.{ℤ, pos, negsuc, eq_ℤ, ltb_ℤ}
use com_webos_service_locati.Connection.{
  Json, json_null, Reads, get_exists, same_key, string_of, or_minus_one, ConnmgrNetworkType,
  connmgr_network_mobile, connmgr_parse_data_network, sleepd_parse_resume_type,
  sleepd_resume_is_kernel_wake,
}

-- What a listener hears.
pub data Notice : Type 0 where
  wifi_is wifi_internet_is connectivity_is telephony_is : Bool → Notice
  data_network_is : Bool → ConnmgrNetworkType → Notice
  kernel_resume : Notice

abbrev pub has : ℕ → List ℕ → Bool
has l [] = false
has l (k ∷ ks) = if l == k then true else has l ks

abbrev pub without : ℕ → List ℕ → List ℕ
without l [] = []
without l (k ∷ ks) = if l == k then ks else k ∷ without l ks

-- The set of listeners: no pointer twice. Their order is that of the pointers, which nothing uses.
unfoldable pub register_listener : Option ℕ → List ℕ → List ℕ
register_listener none ls = ls
register_listener (some l) ls = if has l ls then ls else l ∷ ls

unfoldable pub unregister_listener : Option ℕ → List ℕ → List ℕ
unregister_listener none ls = ls
unregister_listener (some l) ls = without l ls

-- `std::for_each` over the listeners, for each notice in turn.
unfoldable pub notify_all : List ℕ → List Notice → List (ℕ × Notice)
notify_all ls [] = []
notify_all ls (n ∷ ns) = map (λ l. (l, n)) ls ++ notify_all ls ns

-- The parsed payload, unless `jis_null` says that there is none.
abbrev pub non_null : Option Json → Option Json
non_null none = none
non_null (some json_null) = none
non_null (some v) = some v

-- The error code of a failed reply, -1 if it has none.
unfoldable pub error_of : Reads → Json → ℤ
error_of r reply = elim (get_exists reply (codes "errorCode")) [
  | none ↦ negsuc 0
  | some v ↦ or_minus_one (r.i32_get v)
]

unfoldable pub wifi_status : Option (List ℕ) → List Notice
unfolding same_key
wifi_status none = wifi_is false ∷ []
wifi_status (some status) =
    if same_key status (codes "serviceEnabled")
    then wifi_is true ∷ []
    else if same_key status (codes "serviceDisabled")
    then wifi_is false ∷ wifi_internet_is false ∷ []
    else if same_key status (codes "connectionStateChanged")
    then wifi_is true ∷ wifi_internet_is true ∷ []
    else []

-- `dataConnected` and `dataType`: as parsed, or as gone.
unfoldable pub data_or_gone : Option (Bool × ConnmgrNetworkType) → Bool × ConnmgrNetworkType
data_or_gone none = (false, connmgr_network_mobile)
data_or_gone (some d) = d

abbrev pub notify : Bool × ConnmgrNetworkType → Bool → List Notice
notify (connected, type) internet =
    connectivity_is internet ∷ data_network_is (connected && internet) type ∷ []

module _ (r : Reads) where
  -- `found` and `ret` of the member "returnValue".
  unfoldable pub return_value : Json → Option Bool
  return_value reply = elim (get_exists reply (codes "returnValue")) [
    | none ↦ none
    | some v ↦ some (r.boolean_get v)
  ]

  unfoldable pub if_not_running : Json → List Notice → List Notice
  unfolding error_of
  if_not_running reply notices = if eq_ℤ (error_of r reply) (negsuc 0) then notices else []

  -- A status that is no string is `strdup` of a null pointer, which the C library does not define;
  -- it is taken as a status that is not there.
  pub wifi_reply : Json → Option Bool → List Notice
  unfolding wifi_status if_not_running get_exists
  wifi_reply reply none = wifi_is false ∷ []
  wifi_reply reply (some false) = if_not_running reply (wifi_is false ∷ [])
  wifi_reply reply (some true) = wifi_status (string_of (get_exists reply (codes "status")))

  unfoldable pub wifi_status_cb : Option Json → List Notice
  unfolding wifi_reply return_value
  wifi_status_cb payload = elim (non_null payload) [
    | none ↦ []
    | some reply ↦ wifi_reply reply (return_value reply)
  ]

  unfoldable pub connectivity_reply : Bool × ConnmgrNetworkType → Json → Option Bool → List Notice
  unfolding if_not_running get_exists
  connectivity_reply d reply none = notify d false
  connectivity_reply d reply (some false) = if_not_running reply (notify d false)
  connectivity_reply d reply (some true) =
      elim (get_exists reply (codes "isInternetConnectionAvailable")) [
        | none ↦ notify d false
        | some v ↦ notify d (r.boolean_get v)
      ]

  unfoldable pub connectivity_status_cb : Option Json → List Notice
  unfolding connectivity_reply return_value data_or_gone connmgr_parse_data_network
  connectivity_status_cb payload = elim (non_null payload) [
    | none ↦ []
    | some reply ↦
        connectivity_reply (data_or_gone (connmgr_parse_data_network payload)) reply
          (return_value reply)
  ]

  pub power_of : Option Json → Bool
  unfolding get_exists
  power_of none = false
  power_of (some extended) = elim (get_exists extended (codes "power")) [
    | none ↦ false
    | some v ↦ r.boolean_get v
  ]

  pub telephony_reply : Json → Option Bool → List Notice
  unfolding power_of
  telephony_reply reply none = telephony_is false ∷ []
  telephony_reply reply (some false) = []
  telephony_reply reply (some true) =
      telephony_is (power_of (get_exists reply (codes "extended"))) ∷ []

  unfoldable pub telephony_status_cb : Option Json → List Notice
  unfolding telephony_reply return_value
  telephony_status_cb payload = elim (non_null payload) [
    | none ↦ []
    | some reply ↦ telephony_reply reply (return_value reply)
  ]

  -- Only the resume from a suspend of the kernel is told.
  unfoldable pub resume_cb : Option Json → List Notice
  unfolding sleepd_parse_resume_type sleepd_resume_is_kernel_wake
  resume_cb payload =
      let type = sleepd_parse_resume_type r payload in
      if ltb_ℤ type (pos 0)
      then []
      else if sleepd_resume_is_kernel_wake type
      then kernel_resume ∷ []
      else []
