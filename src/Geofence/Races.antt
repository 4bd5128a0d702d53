-- ===== src/Geofence/Races.antt =====
-- A slot that is given back before the GNSS library has confirmed the removal: cancelSubscription,
-- addGeofenceArea and the idle callback of removeGeofenceArea (LocationService.cpp).
use com_webos_service_locati.Base.{
  ℕ, zero, suc, ◌<◌, ◌≡◌, refl, Bool, true, false, some, String, List, [], ◌∷◌, length, get_or,
  get_elem?, set, arith, length-set, get_elem?-set_self,
}
use com_webos_service_locati.Base.Int.{ℤ, pos}
use com_webos_service_locati.Errors.{LocationError, success}
use com_webos_service_locati.Geofence.{
  Geofences, GpsRequest, add_geofence, remove_geofence, geofence_slot, draw_id, release, insert,
  lookup, cancel_geofence, add_geofence_area, send_geofence_remove_data,
}
use com_webos_service_locati.Geofence.Slots.{geofence_slot_iff, release-some}

get_or-of_get_elem? :
    (used : List Bool) (s : ℕ) → get_elem? used s ≡ some false → get_or used s true ≡ false
get_or-of_get_elem? [] s h = cc
get_or-of_get_elem? (u ∷ used) zero h = cc
get_or-of_get_elem? (u ∷ used) (suc s) h = get_or-of_get_elem? used s h

draw_id-first :
    (draws : ℕ → ℤ) (n i : ℕ) (used : List Bool) (s : ℕ)
    → geofence_slot (draws i) ≡ some s
    → get_or used s true ≡ false
    → draw_id (suc n) i draws used ≡ (draws i, set used s true)
unfolding draw_id
draw_id-first draws n i used s e f = rw (e, draw_id) (rw (f, draw_id))

add_geofence_area-first :
    {Area : Type 0} (g : Geofences) (token : String) (s : ℕ) (area : Area) (draws : ℕ → ℤ)
    → geofence_slot (draws 0) ≡ some s
    → get_elem? g.used s ≡ some false
    → add_geofence_area true draws (λ r. true) true token area g ≡ (
      record { used = set g.used s true; tokens = insert token (draws 0) g.tokens },
      success,
      add_geofence (draws 0) area ∷ [],
    )
unfolding add_geofence_area
add_geofence_area-first g token s area draws e f = ground (
  arith,
  (geofence_slot_iff (draws 0) s).0 e,
  draw_id-first draws 199 0 g.used s e (get_or-of_get_elem? g.used s f),
)

cancel_geofence-known :
    {Area : Type 0} (g : Geofences) (token : String) (id : ℤ) (s : ℕ)
    → lookup token g.tokens ≡ some id
    → geofence_slot id ≡ some s
    → cancel_geofence {Area = Area} token g
      ≡ (record g { used = set g.used s false }, remove_geofence id ∷ [])
unfolding cancel_geofence
cancel_geofence-known g token id s found slot =
    ground (arith, (geofence_slot_iff id s).0 slot, release-some id g.used slot, found)

module _ {Area : Type 0} (g : Geofences) (t u : String) (s : ℕ) (area : Area) (draws : ℕ → ℤ) where
  abbrev id : ℤ
  id = draws 0

  -- The client of the area `id` goes away.
  abbrev pub cancelled : Geofences × List (GpsRequest Area)
  cancelled = cancel_geofence t g

  -- Another client asks for an area and the first draw is `id`.
  abbrev pub added : Geofences × LocationError × List (GpsRequest Area)
  added = add_geofence_area true draws (λ r. true) true u area cancelled.0

  -- The library confirms the first removal.
  abbrev pub confirmed : Geofences
  confirmed = send_geofence_remove_data id (pos 0) added.0

  -- Whenever a cancelled area's id is drawn again before its removal is confirmed, the new area is
  -- added under that id, and the confirmation then marks the live area's slot as free.
  pub late_remove_frees_live :
      length g.used ≡ 200
      → lookup t g.tokens ≡ some id
      → geofence_slot id ≡ some s
      → (cancelled.1 ≡ remove_geofence id ∷ [])
        × (added.1 ≡ success)
        × (added.2 ≡ add_geofence id area ∷ [])
        × (get_elem? added.0.used s ≡ some true)
        × (get_elem? confirmed.used s ≡ some false)
  unfolding send_geofence_remove_data
  late_remove_frees_live len found slot =
      rw (cancel_geofence-known {Area = Area} g t id s found slot) (
        rw
          (add_geofence_area-first (record g { used = set g.used s false }) u s area draws slot
            (get_elem?-set_self g.used s false inside))
          (refl, refl, refl, get_elem?-set_self _ s true inside', freed))
    where
      inside : s < length g.used
      inside = omega (arith, (geofence_slot_iff id s).0 slot)

      inside' : s < length (set g.used s false)
      inside' = omega (arith, length-set g.used s false, inside)

      freed : get_elem? (release id (set (set g.used s false) s true)) s ≡ some false
      freed = rw (release-some id (set (set g.used s false) s true) slot) (
          get_elem?-set_self _ s false
            (omega (arith, length-set (set g.used s false) s true, inside')))
