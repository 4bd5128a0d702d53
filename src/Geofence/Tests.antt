-- ===== src/Geofence/Tests.antt =====
-- The theorems on geofence ids at concrete tables: an empty one, and a full one.
use com_webos_service_locati.Base.{
  ℕ, ◌+◌, ◌<◌, ◌≡◌, ◌↔◌, refl, Bool, true, false, some, List, [], ◌∷◌, get_or, get_elem?, set,
  replicate, arith,
}
use com_webos_service_locati.Base.Int.{ℤ, pos, ◌-ℤ◌}
use com_webos_service_locati.Errors.{success, too_many_geofence, unknown_error}
use com_webos_service_locati.Geofence.{
  Geofences, GpsRequest, add_geofence, remove_geofence, geofence_slot, draw_id, insert, lookup,
  add_geofence_area, register,
}
use com_webos_service_locati.Geofence.Ids.{
  add_geofence_area_success, add_geofence_area_exhausted, add_geofence_area_finds,
  refused_add_keeps_slot,
}
use com_webos_service_locati.Geofence.Keys.{suffix_text, printed, add_area, geofence_key}
use com_webos_service_locati.Geofence.Keys.Unique.{geofence_key_unique}
use com_webos_service_locati.Geofence.Replies.{Breach, nyx_entered, nyx_exited, breaches}
use com_webos_service_locati.Geofence.Replies.Heard.{told, breaches_of, breaches-told}
use com_webos_service_locati.Geofence.Races.{late_remove_frees_live, cancelled, added, confirmed}
use com_webos_service_locati.Geofence.Slots.{geofence_slot_iff}

abbrev no_area : Geofences
no_area = record { used = replicate 200 false; tokens = [] }

abbrev full : Geofences
full = record { used = replicate 200 true; tokens = [] }

-- Every draw is 1007.
abbrev seven : ℕ → ℤ
seven k = pos 1007

abbrev yes : GpsRequest ℕ → Bool
yes r = true

abbrev no : GpsRequest ℕ → Bool
no r = false

slot_seven : geofence_slot (pos 1007) ≡ some 7
slot_seven = (geofence_slot_iff (pos 1007) 7).1 (refl, omega arith)

add_geofence_area_finds_example :
    (add_geofence_area true seven yes true "token" 3 no_area).1 ≡ success
add_geofence_area_finds_example =
    add_geofence_area_finds seven yes true "token" 3 no_area 0 7 (omega arith) slot_seven refl
      (λ r. refl) refl

added_seven : (add_geofence_area true seven yes true "token" 3 no_area).1 ≡ success
added_seven =
    add_geofence_area_finds seven yes true "token" 3 no_area 0 7 (omega arith) slot_seven refl
      (λ r. refl) refl

add_geofence_area_success_example :
    (id : ℤ) × (s : ℕ) × (id ≡ pos (1000 + s))
    × (get_elem? no_area.used s ≡ some false)
    × (add_geofence_area true seven yes true "token" 3 no_area ≡ (
      record { used = set no_area.used s true; tokens = insert "token" id no_area.tokens },
      success,
      add_geofence id 3 ∷ [],
    ))
add_geofence_area_success_example =
    add_geofence_area_success seven yes true "token" 3 no_area true added_seven

all_taken : (add_geofence_area true seven yes true "token" 3 full).1 ≡ too_many_geofence
unfolding add_geofence_area draw_id register geofence_slot ◌-ℤ◌
all_taken = refl

add_geofence_area_exhausted_example :
    (true ≡ true)
    × ((k s : ℕ) → k < 200 → geofence_slot (seven k) ≡ some s → get_or full.used s true ≡ true)
    × (add_geofence_area true seven yes true "token" 3 full ≡ (full, too_many_geofence, []))
add_geofence_area_exhausted_example =
    add_geofence_area_exhausted seven yes true "token" 3 full true all_taken

refused_add_keeps_slot_example :
    (id : ℤ) × (slot : ℕ) × (geofence_slot id ≡ some slot)
    × (get_elem? no_area.used slot ≡ some false)
    × (add_geofence_area true seven no true "token" 3 no_area ≡ (
      record { used = set no_area.used slot true; tokens = no_area.tokens },
      unknown_error,
      add_geofence id 3 ∷ [],
    ))
refused_add_keeps_slot_example =
    refused_add_keeps_slot seven no true "token" 3 no_area 0 7 (omega arith) slot_seven refl
      (λ r. refl)

-- The client "a" has the area 1007.
abbrev one_area : Geofences
one_area = record { used = set (replicate 200 false) 7 true; tokens = ("a", pos 1007) ∷ [] }

has_seven : lookup "a" one_area.tokens ≡ some (pos 1007)
unfolding lookup
has_seven = refl

late_remove_frees_live_example :
    ((cancelled {Area = ℕ} one_area "a" "b" 7 3 seven).1 ≡ remove_geofence (pos 1007) ∷ [])
    × ((added {Area = ℕ} one_area "a" "b" 7 3 seven).1 ≡ success)
    × ((added {Area = ℕ} one_area "a" "b" 7 3 seven).2 ≡ add_geofence (pos 1007) 3 ∷ [])
    × (get_elem? (added {Area = ℕ} one_area "a" "b" 7 3 seven).0.used 7 ≡ some true)
    × (get_elem? (confirmed {Area = ℕ} one_area "a" "b" 7 3 seven).used 7 ≡ some false)
late_remove_frees_live_example =
    late_remove_frees_live {Area = ℕ} one_area "a" "b" 7 3 seven refl has_seven slot_seven

geofence_key_unique_example :
    (geofence_key (pos 1007) add_area ≡ printed (pos 1007) (suffix_text add_area))
    × ((geofence_key (pos 1007) add_area ≡ geofence_key (pos 1008) add_area)
        ↔ ((pos 1007 ≡ pos 1008) × (add_area ≡ add_area)))
geofence_key_unique_example =
    geofence_key_unique (pos 1007) (pos 1008) add_area add_area (omega arith) (omega arith)

abbrev crossings : List (Breach ℕ)
crossings =
    record {
      geofence_id = pos 1007;
      transition = nyx_entered;
      timestamp = pos 5;
      latitude = 52;
      longitude = 13;
    }
    ∷ record {
      geofence_id = pos 1008;
      transition = nyx_exited;
      timestamp = pos 6;
      latitude = 52;
      longitude = 14;
    }
    ∷ []

breaches-told_example :
    told (geofence_key (pos 1007) add_area) (breaches crossings) ≡ breaches_of (pos 1007) crossings
breaches-told_example = breaches-told (pos 1007) crossings (omega arith) (omega arith)
