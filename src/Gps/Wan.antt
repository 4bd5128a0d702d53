-- ===== src/Gps/Wan.antt =====
-- The mobile network of assisted GPS (src/handler/position/gps/GpsWanInterface.cpp): whether the WAN
-- service runs, the name of its access point, and its contexts, which go to Gps.Atl. A payload is
-- given as the callback reads it, `none` if it does not parse; a Boolean member is what jboolean_get
-- gives. The members of a message that are not read are left out.
pub mod Supl
mod Tests
use com_webos_service_locati.Base.{
  ℕ, Bool, true, false, ◌&&◌, ◌||◌, not, Option, none, some, List, [], ◌∷◌, ◌==◌, codes,
  if◌then◌else◌,
}
use com_webos_service_locati.Base.Int.{pos}
use com_webos_service_locati.Gps.Atl.{NetworkInfo, Atl, Call, update_network_state}
use com_webos_service_locati.Gps.Extra.{same_text, starts_with}

-- `wan_get_context` is the token of the call of getContexts, 0 for none.
pub record Wan : Type 0 where
  pub service_connected : Bool
  pub wan_get_context : ℕ
  pub apn_name : List ℕ

abbrev pub not_connected : Wan
not_connected = record { service_connected = false; wan_get_context = 0; apn_name = [] }

pub data WanCall : Type 0 where
  call_server_status call_system_settings call_get_contexts : WanCall
  call_cancel : ℕ → WanCall

unfoldable pub initialize : Wan → Wan × List WanCall
initialize w =
    (record w { service_connected = false }, call_server_status ∷ call_system_settings ∷ [])

-- `token` is what LSCall puts into mWanGetContext.
unfoldable pub service_started : ℕ → Wan → Wan × List WanCall
service_started token w =
    (record w { wan_get_context = token; service_connected = true }, call_get_contexts ∷ [])

unfoldable pub service_stopped : Wan → Wan × List WanCall
service_stopped w = (
  record w { service_connected = false; wan_get_context = 0 },
  if w.wan_get_context == 0 then [] else call_cancel w.wan_get_context ∷ [],
)

-- The inner `none` is a message without `connected`.
unfoldable pub service_up_cb : Option (Option Bool) → ℕ → Wan → Wan × List WanCall
service_up_cb none token w = (w, [])
service_up_cb (some none) token w = (w, [])
service_up_cb (some (some true)) token w = service_started token w
service_up_cb (some (some false)) token w = service_stopped w

-- `none` is a null type.
pub record Apn : Type 0 where
  pub apn_type : Option (List ℕ)
  pub apn : List ℕ

-- `succeeds` is that returnValue is a Boolean and true; `none` is no `apnList`.
pub record Settings : Type 0 where
  pub succeeds : Bool
  pub apn_list : Option (List Apn)

-- `type.find(part, 0) != string::npos`
unfoldable pub contains : List ℕ → List ℕ → Bool
contains part [] = starts_with part []
contains part (c ∷ cs) = starts_with part (c ∷ cs) || contains part cs

abbrev pub is_supl_type : Option (List ℕ) → Bool
is_supl_type none = false
is_supl_type (some t) = contains (codes "supl") t

-- The loop over the access points.
unfoldable pub apn_after : List Apn → List ℕ → List ℕ
apn_after [] old = old
apn_after (a ∷ rest) old = if is_supl_type a.apn_type then a.apn else apn_after rest old

unfoldable pub setting_service_cb : Option Settings → Wan → Wan
setting_service_cb none w = w
setting_service_cb (some s) w = if not s.succeeds then w else elim s.apn_list [
  | none ↦ w
  | some apns ↦ record w { apn_name = apn_after apns w.apn_name }
]

-- The inner `none` is a name that is no string.
pub record Context : Type 0 where
  pub name : Option (Option (List ℕ))
  pub connected : Option Bool
  pub ipv4 : Bool
  pub ipv6 : Bool

-- An array that is missing counts as empty.
pub record Contexts : Type 0 where
  pub return_value : Option Bool
  pub contexts : List Context

-- NYX_AGPS_APN_BEARER_IPV4 and the others. NetworkInfo starts with bearer type 0.
pub record Bearers : Type 0 where
  pub bearer_ipv4 : ℕ
  pub bearer_ipv6 : ℕ
  pub bearer_ipv4v6 : ℕ

abbrev pub bearer_of : Bearers → Bool → Bool → ℕ
bearer_of b true true = b.bearer_ipv4v6
bearer_of b true false = b.bearer_ipv4
bearer_of b false true = b.bearer_ipv6
bearer_of b false false = 0

abbrev pub is_supl : Option (Option (List ℕ)) → Bool
is_supl (some (some n)) = same_text n (codes "supl")
is_supl _ = false

module _ (bearers : Bearers) (w : Wan) where
  -- A context without `connected` ends the callback.
  pub report : Context → Option Bool → Atl → Atl × List Call
  report c none a = (a, [])
  report c (some up) a =
      update_network_state
        (record {
          available = if up then pos 1 else pos 0;
          apn = w.apn_name;
          bearer_type = bearer_of bearers c.ipv4 c.ipv6;
        })
        a

  -- The loop over the contexts, up to the first named "supl".
  unfoldable pub walk : List Context → Atl → Atl × List Call
  unfolding report
  walk [] a = (a, [])
  walk (c ∷ cs) a = if is_supl c.name then report c c.connected a else walk cs a

  unfoldable pub get_context_cb : Option Contexts → Atl → Atl × List Call
  get_context_cb none a = (a, [])
  get_context_cb (some m) a = elim m.return_value [ some true ↦ walk m.contexts a | _ ↦ (a, []) ]
