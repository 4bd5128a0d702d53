-- ===== src/Geofence/Ids.antt =====
-- What addGeofenceArea promises of the id that it hands out (LocationService.cpp).
use com_webos_service_locati.Base.{
  ℕ, zero, suc, ◌+◌, ◌<◌, ◌≡◌, refl, ◌⊎◌, inl, inr, Bool, true, false, some, String, List, [], ◌∷◌,
  get_or, get_elem?, set, arith, Option-cases, Bool-cases,
}
use com_webos_service_locati.Base.Int.{ℤ, pos, negsuc}
use com_webos_service_locati.Errors.{success, too_many_geofence, unknown_error}
use com_webos_service_locati.Geofence.{
  Geofences, GpsRequest, add_geofence, geofence_slot, draw_id, insert, add_geofence_area,
  max_geofence_id,
}
use com_webos_service_locati.Geofence.Slots.{geofence_slot_iff, get_or-free}

-- What a draw found: an id whose slot was free and is now taken, or no id after draws that all met
-- a taken slot.
abbrev pub Drawn : (ℕ → ℤ) → ℕ → ℕ → List Bool → ℤ × List Bool → Type 0
Drawn draws n i used r =
    ((s : ℕ) × (geofence_slot r.0 ≡ some s)
      × (get_elem? used s ≡ some false)
      × (r.1 ≡ set used s true))
    ⊎ ((r.0 ≡ negsuc 0)
        × (r.1 ≡ used)
        × ((k s : ℕ) → k < n → geofence_slot (draws (i + k)) ≡ some s → get_or used s true ≡ true))

Drawn-next :
    (draws : ℕ → ℤ) (n i : ℕ) (used : List Bool) (r : ℤ × List Bool)
    → ((s : ℕ) → geofence_slot (draws i) ≡ some s → get_or used s true ≡ true)
    → Drawn draws n (suc i) used r
    → Drawn draws (suc n) i used r
Drawn-next draws n i used r taken (inl d) = inl d
Drawn-next draws n i used r taken (inr (none_free, same, all)) = inr (none_free, same, met)
  where
    met : (k s : ℕ) → k < suc n → geofence_slot (draws (i + k)) ≡ some s → get_or used s true ≡ true
    met zero s h e = let at : i + 0 ≡ i = omega arith in taken s (rw at at e)
    met (suc k) s h e =
        let at : i + suc k ≡ suc i + k = omega arith in all k s (omega arith) (rw at at e)

draw_id-Drawn :
    (draws : ℕ → ℤ) (n i : ℕ) (used : List Bool) → Drawn draws n i used (draw_id n i draws used)
unfolding draw_id
draw_id-Drawn draws zero i used = inr (refl, refl, λ k s h e. absurd (omega arith))
draw_id-Drawn draws (suc n) i used = elim (Option-cases (geofence_slot (draws i))) [
  | inl e ↦
      rw (e, draw_id) (Drawn-next draws n i used _ (λ s f. cc) (draw_id-Drawn draws n (suc i) used))
  | inr (s, e) ↦ elim (Bool-cases (get_or used s true)) [
    | inl t ↦
        rw (e, draw_id)
          (rw (t, draw_id)
            (Drawn-next draws n i used _ (λ s' f. ground arith)
              (draw_id-Drawn draws n (suc i) used)))
    | inr f ↦ rw (e, draw_id) (rw (f, draw_id) (inl (s, e, get_or-free used s f, refl)))
  ]
]

-- The whole loop.
first_draw :
    (draws : ℕ → ℤ) (n : ℕ) (used : List Bool)
    → ((s : ℕ) × (geofence_slot (draw_id n 0 draws used).0 ≡ some s)
        × (get_elem? used s ≡ some false)
        × ((draw_id n 0 draws used).1 ≡ set used s true))
      ⊎ (((draw_id n 0 draws used).0 ≡ negsuc 0)
          × ((draw_id n 0 draws used).1 ≡ used)
          × ((k s : ℕ) → k < n → geofence_slot (draws k) ≡ some s → get_or used s true ≡ true))
first_draw draws n used = elim (draw_id-Drawn draws n 0 used) [
  | inl d ↦ inl d
  | inr (e, same, all) ↦
      inr (e, same, λ k s h f. let at : 0 + k ≡ k = omega arith in all k s h (rw at f))
]

module _ {Area : Type 0} (draws : ℕ → ℤ) (accepts : GpsRequest Area → Bool) (subscribes : Bool)
    (token : String) (area : Area) (g : Geofences) where
  abbrev chosen : ℤ
  chosen = (draw_id max_geofence_id 0 draws g.used).0

  -- An area is added under an id of the table that was not in use: its slot was free, is taken
  -- now, and no other slot changed; the message's token is bound to the id, and the provider was
  -- asked once, for that id.
  pub add_geofence_area_success :
      (gps_on : Bool)
      → (add_geofence_area gps_on draws accepts subscribes token area g).1 ≡ success
      → (id : ℤ) × (s : ℕ) × (id ≡ pos (1000 + s))
        × (get_elem? g.used s ≡ some false)
        × (add_geofence_area gps_on draws accepts subscribes token area g ≡ (
          record { used = set g.used s true; tokens = insert token id g.tokens },
          success,
          add_geofence id area ∷ [],
        ))
  unfolding add_geofence_area
  add_geofence_area_success gps_on h = elim (first_draw draws max_geofence_id g.used) [
    | inl (s, e, free, taken) ↦ (_, s, ((geofence_slot_iff chosen s).0 e).0, free, ground arith)
    | inr (e, same, all) ↦ absurd (ground arith)
  ]

  -- The handler says that there are too many areas only when location is on and all of its 200
  -- draws met an id in use; it changes nothing then.
  pub add_geofence_area_exhausted :
      (gps_on : Bool)
      → (add_geofence_area gps_on draws accepts subscribes token area g).1 ≡ too_many_geofence
      → (gps_on ≡ true)
        × ((k s : ℕ) → k < 200 → geofence_slot (draws k) ≡ some s → get_or g.used s true ≡ true)
        × (add_geofence_area gps_on draws accepts subscribes token area g
            ≡ (g, too_many_geofence, []))
  unfolding add_geofence_area
  add_geofence_area_exhausted gps_on h = elim (first_draw draws max_geofence_id g.used) [
    | inl (s, e, free, taken) ↦ absurd (ground (arith, (geofence_slot_iff chosen s).0 e))
    | inr (e, same, all) ↦ (ground arith, all, ground arith)
  ]

  -- One draw that meets a free slot is enough: with location on, and a provider and a bus that
  -- accept, the area is added.
  pub add_geofence_area_finds :
      (k s : ℕ)
      → k < 200
      → geofence_slot (draws k) ≡ some s
      → get_or g.used s true ≡ false
      → ((r : GpsRequest Area) → accepts r ≡ true)
      → subscribes ≡ true
      → (add_geofence_area true draws accepts subscribes token area g).1 ≡ success
  unfolding add_geofence_area
  add_geofence_area_finds k s h e f a b = elim (first_draw draws max_geofence_id g.used) [
    | inl (s', e', free, taken) ↦
        ground (arith, (geofence_slot_iff chosen s').0 e', a (add_geofence chosen area))
    | inr (e', same, all) ↦ absurd (cc (all k s h e))
  ]

  -- When the provider refuses the area, the handler reports an unknown error and keeps the slot
  -- that it took: the id stays in use although no token is bound to it.
  pub refused_add_keeps_slot :
      (k s : ℕ)
      → k < 200
      → geofence_slot (draws k) ≡ some s
      → get_or g.used s true ≡ false
      → ((r : GpsRequest Area) → accepts r ≡ false)
      → (id : ℤ) × (slot : ℕ) × (geofence_slot id ≡ some slot)
        × (get_elem? g.used slot ≡ some false)
        × (add_geofence_area true draws accepts subscribes token area g ≡ (
          record { used = set g.used slot true; tokens = g.tokens },
          unknown_error,
          add_geofence id area ∷ [],
        ))
  unfolding add_geofence_area
  refused_add_keeps_slot k s h e f a = elim (first_draw draws max_geofence_id g.used) [
    | inl (s', e', free, taken) ↦ (
      _,
      s',
      e',
      free,
      ground (arith, (geofence_slot_iff chosen s').0 e', a (add_geofence chosen area)),
    )
    | inr (e', same, all) ↦ absurd (cc (all k s h e))
  ]
