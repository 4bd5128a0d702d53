-- ===== src/Updates/Criteria.antt =====
-- LocationService::meetsCriteria (src/lunaIpc/LocationService.cpp). `F` is `double`; the test of
-- the accuracy and the test of the distance (loc_geometry_calc_distance, which is no part of the
-- repository) are parameters. The time is in milliseconds.
pub mod Interval
use com_webos_service_locati.Base.{
  ℕ, zero, ◌≡◌, refl, Bool, true, false, ◌&&◌, ◌||◌, not, Option, none, some, List, [], ◌∷◌,
  if◌then◌else◌,
}
use com_webos_service_locati.Base.Int.{ℤ, pos, eq_ℤ, ltb_ℤ, leb_ℤ, ◌-ℤ◌}
use com_webos_service_locati.Updates.Table.{UpdateRequest, find, put}

pub record Position (F : Type 0) : Type 0 where
  pub timestamp : ℤ
  pub latitude : F
  pub longitude : F
  pub altitude : F
  pub direction : F
  pub climb : F
  pub speed : F

pub record Accuracy (F : Type 0) : Type 0 where
  pub horiz_accuracy : F
  pub vert_accuracy : F

-- `HANDLER_HYBRID` of include/Location.h.
abbrev pub handler_hybrid : ℤ
handler_hybrid = pos 3

-- `accurate a` is `a < MINIMAL_ACCURACY`; `far lat long lat' long' d` is that the distance of the
-- two places is at least `d` metres.
pub record Geometry (F : Type 0) : Type 0 where
  pub accurate : F → Bool
  pub far : F → F → F → F → ℤ → Bool

module _ {F : Type 0} (geo : Geometry F) where
  abbrev pub meets_interval : ℤ → ℤ → Bool
  meets_interval min_interval elapsed =
      if ltb_ℤ (pos 0) min_interval then ltb_ℤ min_interval elapsed else true

  abbrev pub meets_distance : ℤ → Position F → UpdateRequest F → Bool
  meets_distance min_dist p r =
      if ltb_ℤ (pos 0) min_dist
      then geo.far p.latitude p.longitude r.last_latitude r.last_longitude min_dist
      else true

  abbrev pub meets_handler : Accuracy F → ℤ → UpdateRequest F → Bool
  meets_handler acc elapsed r =
      if eq_ℤ r.handler_type handler_hybrid
      then ltb_ℤ (pos 60000) elapsed || geo.accurate acc.horiz_accuracy
      else true

  -- The criteria of a request that was answered before. A timestamp of 0 marks a cached position.
  abbrev pub meets_again : ℤ → Position F → Accuracy F → ℤ → ℤ → UpdateRequest F → Bool
  meets_again now p acc min_interval min_dist r =
      let elapsed = now -ℤ r.request_time in
      not (eq_ℤ p.timestamp (pos 0))
      && (meets_interval min_interval elapsed && meets_distance min_dist p r)
      && meets_handler acc elapsed r

  -- `updateRequestTime`, `updateLatAndLong`
  abbrev pub update : ℤ → Position F → UpdateRequest F → UpdateRequest F
  update now p r = record r {
    request_time = now;
    last_latitude = p.latitude;
    last_longitude = p.longitude;
  }

  unfoldable pub meets_found :
      ℕ
      → ℤ
      → Position F
      → Accuracy F
      → ℤ
      → ℤ
      → List (ℕ × UpdateRequest F)
      → Option (UpdateRequest F)
      → Bool × List (ℕ × UpdateRequest F)
  meets_found m now p acc min_interval min_dist t none = (false, t)
  meets_found m now p acc min_interval min_dist t (some r) =
      if r.first_reply
      then (true, put m (record (update now p r) { first_reply = false }) t)
      else (if meets_again now p acc min_interval min_dist r
          then (true, put m (update now p r) t)
          else (false, t))

  unfoldable pub meets_criteria :
      ℕ
      → ℤ
      → Position F
      → Accuracy F
      → ℤ
      → ℤ
      → List (ℕ × UpdateRequest F)
      → Bool × List (ℕ × UpdateRequest F)
  unfolding meets_found
  meets_criteria m now p acc min_interval min_dist t =
      meets_found m now p acc min_interval min_dist t (find m t)
