-- ===== src/Geofence/Slots.antt =====
-- Which ids index the table of used ids (LocationService::geofenceSlot).
use com_webos_service_locati.Base.{
  ℕ, ◌+◌, ◌<◌, ◌≡◌, ◌↔◌, Bool, true, false, some, List, [], ◌∷◌, length, get_or, get_elem?, set,
  zero, suc, arith, length-set, Option-cases, inl, inr,
}
use com_webos_service_locati.Base.Int.{ℤ, pos, ◌-ℤ◌}
use com_webos_service_locati.Geofence.{geofence_slot, release}

-- An id has the slot s exactly when it is 1000 + s and s lies in the table of 200; so no index
-- leaves the table, and two ids never share a slot.
pub geofence_slot_iff :
    (id : ℤ) (s : ℕ) → (geofence_slot id ≡ some s) ↔ ((id ≡ pos (1000 + s)) × (s < 200))
unfolding geofence_slot ◌-ℤ◌
geofence_slot_iff id s = (λ h. ground arith, λ h. ground arith)

pub get_or-free :
    (used : List Bool) (s : ℕ) → get_or used s true ≡ false → get_elem? used s ≡ some false
get_or-free [] s h = cc
get_or-free (u ∷ used) zero h = cc
get_or-free (u ∷ used) (suc s) h = get_or-free used s h

-- Giving an id back keeps the size of the table.
pub length-release : (id : ℤ) (used : List Bool) → length (release id used) ≡ length used
unfolding release
length-release id used = elim (Option-cases (geofence_slot id)) [
  | inl e ↦ rw (e, release)
  | inr (s, e) ↦ rw (e, release) (length-set used s false)
]

-- An id that has a slot leaves it free.
pub release-some :
    (id : ℤ) (used : List Bool) {s : ℕ}
    → geofence_slot id ≡ some s
    → release id used ≡ set used s false
unfolding release
release-some id used e = rw (e, release)
