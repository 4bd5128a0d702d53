-- ===== src/Connection/Replies.antt =====
-- What the callbacks make of a reply of the connection manager (ConnectionStateObserver.cpp,
-- ConnmgrStatus.cpp).
use com_webos_service_locati.Base.{
  Option-cases, ◌∙◌, Bool-cases, ◌≡◌, ◌⊎◌, inl, inr, refl, ap, Bool, true, false, Option, none,
  some, [], ◌∷◌, codes, arith,
}
use com_webos_service_locati.Connection.{
  negsuc, eq_ℤ, Json, Reads, json_null, json_boolean, json_number, json_string, json_array,
  json_object, get_exists, boolean_of, ConnmgrNetworkType, connmgr_network_mobile, data_network_of,
  connmgr_parse_data_network,
}
use com_webos_service_locati.Connection.Observer.{
  error_of, connectivity_is, data_network_is, connectivity_status_cb, connectivity_reply,
  return_value, data_or_gone, notify, if_not_running,
}

boolean_of-some : (o : Option Json) (b : Bool) → boolean_of o ≡ some b → o ≡ some (json_boolean b)
boolean_of-some none b h = ground arith
boolean_of-some (some json_null) b h = ground arith
boolean_of-some (some (json_boolean c)) b h = ground arith
boolean_of-some (some (json_number i)) b h = ground arith
boolean_of-some (some (json_string s)) b h = ground arith
boolean_of-some (some json_array) b h = ground arith
boolean_of-some (some (json_object ms)) b h = ground arith

data_network_of-some :
    (status : Json) (returned internet : Option Bool) (d : Bool × ConnmgrNetworkType)
    → data_network_of status returned internet ≡ some d
    → (returned ≡ some true) × (internet ≡ some d.0)
unfolding data_network_of
data_network_of-some status none internet d h = ground arith
data_network_of-some status (some false) internet d h = ground arith
data_network_of-some status (some true) none d h = ground arith
data_network_of-some status (some true) (some i) d h = (refl, ground arith)

returned :
    (r : Reads) (reply : Json) (b : Bool)
    → ((c : Bool) → r.boolean_get (json_boolean c) ≡ c)
    → get_exists reply (codes "returnValue") ≡ some (json_boolean b)
    → return_value r reply ≡ some b
unfolding return_value
returned r reply b law e = rw (e, return_value) (ap some (law b))

told-twice :
    (d : Bool × ConnmgrNetworkType)
    → notify d d.0 ≡ connectivity_is d.0 ∷ data_network_is d.0 d.1 ∷ []
told-twice (true, t) = refl
told-twice (false, t) = refl

answered :
    (r : Reads) (reply : Json) (d : Bool × ConnmgrNetworkType)
    → ((c : Bool) → r.boolean_get (json_boolean c) ≡ c)
    → get_exists reply (codes "isInternetConnectionAvailable") ≡ some (json_boolean d.0)
    → connectivity_reply r d reply (some true) ≡ notify d d.0
unfolding connectivity_reply
answered r reply d law e = rw (e, connectivity_reply) (ap (λ b. notify d b) (law d.0))

object-parsed :
    (r : Reads) (reply : Json) (d : Bool × ConnmgrNetworkType)
    → ((b : Bool) → r.boolean_get (json_boolean b) ≡ b)
    → connmgr_parse_data_network (some reply) ≡ some d
    → connectivity_reply r d reply (return_value r reply)
      ≡ connectivity_is d.0 ∷ data_network_is d.0 d.1 ∷ []
unfolding connmgr_parse_data_network
object-parsed r reply d law h =
    let (rv, inet) = data_network_of-some reply _ _ d h in
    rw (returned r reply true law (boolean_of-some _ true rv))
      (answered r reply d law (boolean_of-some _ d.0 inet) ∙ told-twice d)

parsed_reply :
    (r : Reads) (reply : Json) (d : Bool × ConnmgrNetworkType)
    → ((b : Bool) → r.boolean_get (json_boolean b) ≡ b)
    → connmgr_parse_data_network (some reply) ≡ some d
    → connectivity_reply r
        (data_or_gone (connmgr_parse_data_network (some reply)))
        reply
        (return_value r reply)
      ≡ connectivity_is d.0 ∷ data_network_is d.0 d.1 ∷ []
unfolding data_or_gone
parsed_reply r reply d law h =
    ap (λ p. connectivity_reply r (data_or_gone p) reply (return_value r reply)) h
    ∙ object-parsed r reply d law h

nothing-parsed : {d : Bool × ConnmgrNetworkType} → connmgr_parse_data_network none ≡ some d → ⊥
unfolding connmgr_parse_data_network
nothing-parsed h = ground arith

null-parsed :
    {d : Bool × ConnmgrNetworkType} → connmgr_parse_data_network (some json_null) ≡ some d → ⊥
unfolding connmgr_parse_data_network get_exists data_network_of
null-parsed h = ground arith

-- A payload that ConnmgrStatus.cpp parses is told to the listeners as it is: the internet as it
-- says, and the data network connected or not with it. The two parsers agree, where `jboolean_get`
-- reads a boolean as it is.
pub connectivity_status_cb-parsed :
    (r : Reads) (payload : Option Json) (d : Bool × ConnmgrNetworkType)
    → ((b : Bool) → r.boolean_get (json_boolean b) ≡ b)
    → connmgr_parse_data_network payload ≡ some d
    → connectivity_status_cb r payload ≡ connectivity_is d.0 ∷ data_network_is d.0 d.1 ∷ []
unfolding connectivity_status_cb
connectivity_status_cb-parsed r none d law h = absurd (nothing-parsed h)
connectivity_status_cb-parsed r (some json_null) d law h = absurd (null-parsed h)
connectivity_status_cb-parsed r (some (json_boolean b)) d law h =
    parsed_reply r (json_boolean b) d law h
connectivity_status_cb-parsed r (some (json_number i)) d law h =
    parsed_reply r (json_number i) d law h
connectivity_status_cb-parsed r (some (json_string t)) d law h =
    parsed_reply r (json_string t) d law h
connectivity_status_cb-parsed r (some json_array) d law h = parsed_reply r json_array d law h
connectivity_status_cb-parsed r (some (json_object ms)) d law h =
    parsed_reply r (json_object ms) d law h

abbrev gone : Bool × ConnmgrNetworkType
gone = (false, connmgr_network_mobile)

any_reply :
    (r : Reads) (d : Bool × ConnmgrNetworkType) (reply : Json) (rv : Option Bool)
    → (connectivity_reply r d reply rv ≡ [])
      ⊎ ((b : Bool) × (connectivity_reply r d reply rv ≡ notify d b))
unfolding connectivity_reply if_not_running
any_reply r d reply none = inr (false, refl)
any_reply r d reply (some false) = elim (Bool-cases (eq_ℤ (error_of r reply) (negsuc 0))) [
  | inl e ↦ inr (false, rw (e, connectivity_reply, if_not_running) refl)
  | inr e ↦ inl (rw (e, connectivity_reply, if_not_running) refl)
]
any_reply r d reply (some true) =
    elim (Option-cases (get_exists reply (codes "isInternetConnectionAvailable"))) [
      | inl e ↦ inr (false, rw (e, connectivity_reply) refl)
      | inr (v, e) ↦ inr (r.boolean_get v, rw (e, connectivity_reply) refl)
    ]

gone_reply :
    (r : Reads) (p : Option (Bool × ConnmgrNetworkType)) (reply : Json) (rv : Option Bool)
    → p ≡ none
    → (connectivity_reply r (data_or_gone p) reply rv ≡ [])
      ⊎ ((b : Bool) × (connectivity_reply r (data_or_gone p) reply rv
            ≡ connectivity_is b ∷ data_network_is false connmgr_network_mobile ∷ []))
unfolding data_or_gone
gone_reply r none reply rv h = any_reply r gone reply rv
gone_reply r (some d) reply rv h = absurd (ground arith)

reply_gone :
    (r : Reads) (reply : Json)
    → connmgr_parse_data_network (some reply) ≡ none
    → let d = data_or_gone (connmgr_parse_data_network (some reply)) in
      let notices = connectivity_reply r d reply (return_value r reply) in
      (notices ≡ [])
      ⊎ ((b : Bool) × (notices
            ≡ connectivity_is b ∷ data_network_is false connmgr_network_mobile ∷ []))
reply_gone r reply h =
    gone_reply r (connmgr_parse_data_network (some reply)) reply (return_value r reply) h

-- A payload that ConnmgrStatus.cpp does not parse is told as a network that is gone, or not at all.
connectivity_status_cb-gone :
    (r : Reads) (payload : Option Json)
    → connmgr_parse_data_network payload ≡ none
    → (connectivity_status_cb r payload ≡ [])
      ⊎ ((internet : Bool) × (connectivity_status_cb r payload
            ≡ connectivity_is internet ∷ data_network_is false connmgr_network_mobile ∷ []))
unfolding connectivity_status_cb
connectivity_status_cb-gone r none h = inl refl
connectivity_status_cb-gone r (some json_null) h = inl refl
connectivity_status_cb-gone r (some (json_boolean b)) h = reply_gone r (json_boolean b) h
connectivity_status_cb-gone r (some (json_number i)) h = reply_gone r (json_number i) h
connectivity_status_cb-gone r (some (json_string t)) h = reply_gone r (json_string t) h
connectivity_status_cb-gone r (some json_array) h = reply_gone r json_array h
connectivity_status_cb-gone r (some (json_object ms)) h = reply_gone r (json_object ms) h
