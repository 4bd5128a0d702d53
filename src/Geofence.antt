-- ===== src/Geofence.antt =====
-- Geofence ids and their life: LocationService::geofenceSlot, addGeofenceArea,
-- removeGeofenceArea, the replies of the GNSS library, and the geofence branch of
-- cancelSubscription (src/lunaIpc/LocationService.cpp). The random draws, the answers of the GPS
-- provider and of the bus are inputs. An area's coordinates are passed on unread. An id is an
-- `int`; its difference to MIN_GEOFENCE_RANGE is taken without overflow.
pub mod Slots
pub mod Ids
pub mod Races
pub mod Keys
pub mod Replies
mod Tests
use com_webos_service_locati.Base.{
  ℕ, zero, suc, ◌+◌, Bool, true, false, not, Option, none, some, String, List, [], ◌∷◌, get_or, set,
  leb, if◌then◌else◌,
}
use text.Mathlib.Text.{◌==◌ as str_eq}
use com_webos_service_locati.Base.Int.{ℤ, pos, negsuc, ◌-ℤ◌, eq_ℤ, ltb_ℤ}
use com_webos_service_locati.Errors.{
  LocationError, success, unknown_error, location_off, out_of_mem, too_many_geofence,
  geofence_id_exist, geofence_id_unknown, geofence_invalid_transition,
}

abbrev pub max_geofence_id : ℕ
max_geofence_id = 200

abbrev pub min_geofence_range : ℤ
min_geofence_range = pos 1000

-- `is_geofenceId_used` and `htPseudoGeofence`, which maps a message's unique token to its id.
pub record Geofences : Type 0 where
  pub used : List Bool
  pub tokens : List (String × ℤ)

pub data GpsRequest (Area : Type 0) : Type 0 where
  add_geofence : ℤ → Area → GpsRequest Area
  remove_geofence : ℤ → GpsRequest Area

unfoldable pub geofence_slot : ℤ → Option ℕ
unfolding ◌-ℤ◌
geofence_slot id = elim (id -ℤ min_geofence_range) [
  | negsuc n ↦ none
  | pos index ↦ if leb max_geofence_id index then none else some index
]

-- The loop of addGeofenceArea: `rounds` draws are left, `i` are made. -1 stands for no free id.
pub draw_id : ℕ → ℕ → (ℕ → ℤ) → List Bool → ℤ × List Bool
draw_id zero i draws used = (negsuc 0, used)
draw_id (suc rounds) i draws used =
    let rest = draw_id rounds (suc i) draws used in
    elim (geofence_slot (draws i)) [
      | none ↦ rest
      | some slot ↦ if not (get_or used slot true) then (draws i, set used slot true) else rest
    ]

-- `g_hash_table_insert`
pub insert : String → ℤ → List (String × ℤ) → List (String × ℤ)
insert k v [] = (k, v) ∷ []
insert k v ((j, w) ∷ m) = if str_eq j k then (k, v) ∷ m else (j, w) ∷ insert k v m

pub lookup : String → List (String × ℤ) → Option ℤ
lookup k [] = none
lookup k ((j, w) ∷ m) = if str_eq j k then some w else lookup k m

-- The loop of sendGeofenceRemoveData: the first entry with the id goes.
pub forget : ℤ → List (String × ℤ) → List (String × ℤ)
forget id [] = []
forget id ((j, w) ∷ m) = if eq_ℤ w id then m else (j, w) ∷ forget id m

pub release : ℤ → List Bool → List Bool
release id used = elim (geofence_slot id) [ none ↦ used | some slot ↦ set used slot false ]

module _ {Area : Type 0} where
  -- The handler behind its guards. `accepts` is the provider's answer (ERROR_NONE or not), and
  -- `subscribes` that of LSSubscriptionAdd.
  register :
      (GpsRequest Area → Bool)
      → Bool
      → String
      → Area
      → ℤ × List Bool
      → List (String × ℤ)
      → Geofences × LocationError × List (GpsRequest Area)
  register accepts subscribes token area (id, used) tokens =
      let request = add_geofence id area in
      if ltb_ℤ id (pos 0)
      then (record { used = used; tokens = tokens }, too_many_geofence, [])
      else if not (accepts request)
      then (record { used = used; tokens = tokens }, unknown_error, request ∷ [])
      else if subscribes
      then (record { used = used; tokens = insert token id tokens }, success, request ∷ [])
      else (record { used = used; tokens = tokens }, unknown_error, request ∷ [])

  pub add_geofence_area :
      Bool
      → (ℕ → ℤ)
      → (GpsRequest Area → Bool)
      → Bool
      → String
      → Area
      → Geofences
      → Geofences × LocationError × List (GpsRequest Area)
  unfolding register
  add_geofence_area gps_on draws accepts subscribes token area g =
      if not gps_on
      then (g, location_off, [])
      else register accepts subscribes token area (draw_id max_geofence_id 0 draws g.used) g.tokens

  -- `filled` says whether the id's subscription list has a message. No state of the service changes.
  pub remove_geofence_area :
      Bool → (GpsRequest Area → Bool) → Bool → Option ℤ → LocationError × List (GpsRequest Area)
  remove_geofence_area filled accepts subscribes id =
      let request = remove_geofence (elim id [ none ↦ negsuc 0 | some i ↦ i ]) in
      if not filled
      then (geofence_id_unknown, [])
      else if not (accepts request)
      then (unknown_error, request ∷ [])
      else (if subscribes then success else unknown_error, request ∷ [])

  -- The geofence branch of cancelSubscription: `some 0` is stored as a null pointer.
  pub cancel_geofence : String → Geofences → Geofences × List (GpsRequest Area)
  cancel_geofence token g = elim (lookup token g.tokens) [
    | none ↦ (g, [])
    | some id ↦
        if eq_ℤ id (pos 0)
        then (g, [])
        else (record g { used = release id g.used }, remove_geofence id ∷ [])
  ]

-- The status of the GNSS library, as an error of the reply.
abbrev pub add_status : ℤ → LocationError
add_status status =
    if eq_ℤ status (pos 0)
    then success
    else if eq_ℤ status (negsuc 99)
    then too_many_geofence
    else if eq_ℤ status (negsuc 100)
    then geofence_id_exist
    else if eq_ℤ status (negsuc 102)
    then geofence_invalid_transition
    else unknown_error

abbrev pub remove_status : ℤ → LocationError
remove_status status =
    if eq_ℤ status (pos 0)
    then success
    else if eq_ℤ status (negsuc 101)
    then geofence_id_unknown
    else unknown_error

-- `fits` says that the reply object was created. The error is what the reply carries.
pub geofence_add_reply : Bool → ℤ → ℤ → Geofences → Geofences × LocationError
geofence_add_reply fits id status g = elim (add_status status) [
  | success ↦ (g, if fits then success else out_of_mem)
  | e ↦ (record g { used = release id g.used }, e)
]

pub geofence_remove_reply : Bool → ℤ → LocationError
geofence_remove_reply fits status = elim (remove_status status) [
  | success ↦ if fits then success else out_of_mem
  | e ↦ e
]

-- What the idle callback does after the reply to removeGeofenceArea is posted.
pub send_geofence_remove_data : ℤ → ℤ → Geofences → Geofences
send_geofence_remove_data id status g =
    if eq_ℤ status (pos 0)
    then record { used = release id g.used; tokens = forget id g.tokens }
    else g
