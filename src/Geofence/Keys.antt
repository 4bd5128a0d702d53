-- ===== src/Geofence/Keys.antt =====
-- The subscription keys of geofences: "%d%s" of an id and a suffix, printed by snprintf into 32
-- bytes (src/lunaIpc/LocationService.cpp, with the suffixes of include/ServiceAgent.h).
pub mod Unique
use com_webos_service_locati.Base.{
  ℕ, zero, suc, ◌+◌, ◌/◌, ◌%◌, List, [], ◌∷◌, ◌++◌, take, codes, ltb, if◌then◌else◌,
}
use com_webos_service_locati.Base.Int.{ℤ, pos, negsuc}

pub data Suffix : Type 0 where
  add_area remove_area pause_area resume_area : Suffix

abbrev pub suffix_text : Suffix → List ℕ
suffix_text add_area = codes "addGeofenceArea"
suffix_text remove_area = codes "removeGeofenceArea"
suffix_text pause_area = codes "pauseGeofenceArea"
suffix_text resume_area = codes "resumeGeofenceArea"

-- The digits of a number in front of a text. Fuel above the number is enough.
pub digits : ℕ → ℕ → List ℕ → List ℕ
digits zero n text = text
digits (suc fuel) n text =
    let more = digits fuel (n / 10) ((n % 10 + 48) ∷ text) in
    if ltb n 10 then (n + 48) ∷ text else more

-- "%d%s"
pub printed : ℤ → List ℕ → List ℕ
printed (pos n) text = digits (suc n) n text
printed (negsuc n) text = b'-' ∷ digits (suc (suc n)) (suc n) text

-- snprintf keeps what fits with the end of the text.
pub geofence_key : ℤ → Suffix → List ℕ
geofence_key id s = take 31 (printed id (suffix_text s))
