-- ===== src/Updates/Cached.antt =====
-- LocationService::getCachedPosition and comparePositionTimeStamps
-- (src/lunaIpc/LocationService.cpp). `F` is `double`: `less` is `<`, and `is_zero x` is `x == 0`.
-- The reply is an error or the position; memory does not run out.
pub mod Newest
use com_webos_service_locati.Base.{Bool, ◌&&◌, ◌||◌, Option, some, if◌then◌else◌}
use com_webos_service_locati.Base.Int.{ℤ, pos, ltb_ℤ, leb_ℤ, eq_ℤ, ◌-ℤ◌}
use com_webos_service_locati.Errors.{pos_not_available}
use com_webos_service_locati.Updates.Criteria.{Position, Accuracy}
use com_webos_service_locati.Updates.Notices.{add_pos_json}
use com_webos_service_locati.Updates.Requests.{
  HandlerName, gps_name, network_name, hybrid_name, passive_name, other_name, name_of,
}
use com_webos_service_locati.Updates.Service.{Payload, located, failed}

module _ {F : Type 0} (less : F → F → Bool) where
  unfoldable pub compare_position_time_stamps :
      Position F → Position F → Accuracy F → Accuracy F → Position F × Accuracy F
  compare_position_time_stamps p1 p2 a1 a2 =
      if leb_ℤ p2.timestamp p1.timestamp
      then (if eq_ℤ p1.timestamp p2.timestamp
          then (if less a1.horiz_accuracy a2.horiz_accuracy then (p1, a1) else (p2, a2))
          else (p1, a1))
      else (p2, a2)

module _ {F : Type 0} (less : F → F → Bool) (is_zero : F → Bool)
    (zeros : Position F × Accuracy F) where
  -- The last positions of the two providers; getLastPosition leaves the zeros where there is none.
  abbrev pub cached :
      HandlerName → Position F × Accuracy F → Position F × Accuracy F → Position F × Accuracy F
  cached gps_name g n = g
  cached network_name g n = n
  cached hybrid_name g n = compare_position_time_stamps less g.0 n.0 g.1 n.1
  cached passive_name g n = compare_position_time_stamps less g.0 n.0 g.1 n.1
  cached (other_name s) g n = zeros

  unfoldable pub get_cached_position :
      ℤ → Option HandlerName → ℤ → Position F × Accuracy F → Position F × Accuracy F → Payload F
  get_cached_position now handler maximum_age g n =
      let (p, a) = cached (name_of handler) g n in
      if is_zero p.latitude || is_zero p.longitude
      then failed pos_not_available
      else (if ltb_ℤ (pos 0) maximum_age && ltb_ℤ maximum_age (now -ℤ p.timestamp)
          then failed pos_not_available
          else located (add_pos_json now (some (p, a))))
