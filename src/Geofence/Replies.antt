-- ===== src/Geofence/Replies.antt =====
-- What the clients of geofences are told: pauseGeofence, resumeGeofence, the replies to pausing and
-- resuming, breaches and the idle callbacks of src/lunaIpc/LocationService.cpp, and geofenceBreachCb
-- of GPSNyxInterface.cpp. `F` is `double`. A reply object is always created.
pub mod Heard
use com_webos_service_locati.Base.{ℕ, Bool, true, false, not, List, [], ◌∷◌, ◌++◌, if◌then◌else◌}
use com_webos_service_locati.Base.Int.{ℤ, pos, negsuc, eq_ℤ}
use com_webos_service_locati.Errors.{
  LocationError, success, unknown_error, geofence_id_unknown, geofence_invalid_transition,
}
use com_webos_service_locati.Geofence.{remove_status}
use com_webos_service_locati.Geofence.Keys.{
  add_area, remove_area, pause_area, resume_area, geofence_key,
}

pub data GeofenceState : Type 0 where
  add_success remove_success pause_success resume_success : GeofenceState
  transition_entered transition_exited transition_uncertain : GeofenceState

-- The text of a reply.
pub data Payload (F : Type 0) : Type 0 where
  state_reply : GeofenceState → Payload F
  error_reply : LocationError → Payload F
  breach_reply : GeofenceState → ℤ → F → F → Payload F

pub data Effect (F : Type 0) : Type 0 where
  reply_error : ℕ → LocationError → Effect F
  subscribe : List ℕ → ℕ → Effect F
  -- LSSubscriptionReply, and LSSubscriptionNonSubscriptionRespond, which also removes the messages
  -- that are no subscriptions.
  tell respond : List ℕ → Payload F → Effect F

-- The transitions of the GNSS library.
pub data Transition : Type 0 where
  nyx_entered nyx_exited nyx_uncertain nyx_other : Transition

pub record Breach (F : Type 0) : Type 0 where
  pub geofence_id : ℤ
  pub transition : Transition
  pub timestamp : ℤ
  pub latitude : F
  pub longitude : F

abbrev pub pause_status : ℤ → LocationError
pause_status status =
    if eq_ℤ status (pos 0)
    then success
    else if eq_ℤ status (negsuc 101)
    then geofence_id_unknown
    else if eq_ℤ status (negsuc 102)
    then geofence_invalid_transition
    else unknown_error

abbrev pub state_of : ℤ → GeofenceState
state_of status =
    if eq_ℤ status (pos 0)
    then transition_entered
    else if eq_ℤ status (pos 1)
    then transition_exited
    else transition_uncertain

-- `whichWay`, which is 0 for a transition that is not known.
abbrev pub which_way : Transition → ℤ
which_way nyx_entered = pos 0
which_way nyx_exited = pos 1
which_way nyx_uncertain = pos 2
which_way nyx_other = pos 0

module _ {F : Type 0} where
  -- `filled` is isSubscListFilled for the area.
  pub pause_geofence : Bool → ℕ → List (Effect F)
  pause_geofence filled m = if filled then [] else reply_error m geofence_id_unknown ∷ []

  pub resume_geofence : Bool → Bool → ℕ → ℤ → List (Effect F)
  resume_geofence false adds m id = reply_error m geofence_id_unknown ∷ []
  resume_geofence true true m id = subscribe (geofence_key id resume_area) m ∷ []
  resume_geofence true false m id =
      subscribe (geofence_key id resume_area) m ∷ reply_error m unknown_error ∷ []

  pub ret_payload : GeofenceState → LocationError → Payload F
  ret_payload state success = state_reply state
  ret_payload state e = error_reply e

  pub geofence_pause_reply : ℤ → ℤ → List (Effect F)
  geofence_pause_reply id status =
      let payload = ret_payload pause_success (pause_status status) in
      respond (geofence_key id pause_area) payload
      ∷ (if eq_ℤ status (pos 0) then tell (geofence_key id add_area) payload ∷ [] else [])

  pub geofence_resume_reply : ℤ → ℤ → List (Effect F)
  geofence_resume_reply id status =
      let payload = ret_payload resume_success (remove_status status) in
      respond (geofence_key id resume_area) payload
      ∷ (if eq_ℤ status (pos 0) then tell (geofence_key id add_area) payload ∷ [] else [])

  -- The replies of sendGeofenceRemoveData and sendGeofenceAddData.
  pub removed_replies : ℤ → ℤ → Payload F → List (Effect F)
  removed_replies id status payload =
      respond (geofence_key id remove_area) payload
      ∷ (if eq_ℤ status (pos 0) then respond (geofence_key id add_area) payload ∷ [] else [])

  pub send_geofence_add_data : ℤ → Payload F → List (Effect F)
  send_geofence_add_data id payload = tell (geofence_key id add_area) payload ∷ []

  pub send_geofence_breach_data : ℤ → Payload F → List (Effect F)
  send_geofence_breach_data id payload = tell (geofence_key id add_area) payload ∷ []

  -- The payload that geofence_breach_reply posts.
  pub posted_breach : ℤ → ℤ → F → F → Payload F
  posted_breach status time latitude longitude =
      breach_reply (state_of status) time latitude longitude

  -- geofenceBreachCb up to the idle callback.
  pub geofence_breach_cb : Bool → Breach F → List (Effect F)
  geofence_breach_cb has_callback b =
      if has_callback
      then send_geofence_breach_data b.geofence_id
          (posted_breach (which_way b.transition) b.timestamp b.latitude b.longitude)
      else []

  pub breaches : List (Breach F) → List (Effect F)
  breaches [] = []
  breaches (b ∷ bs) = geofence_breach_cb true b ++ breaches bs
