-- ===== src/Updates/Cached/Newest.antt =====
-- What getCachedPosition answers (src/lunaIpc/LocationService.cpp).
use com_webos_service_locati.Base.{
  ◌≡◌, refl, Bool, true, false, ◌&&◌, ◌||◌, not, ◌⊎◌, inl, inr, Option, some, List, [], ◌∷◌,
  if◌then◌else◌, arith, Bool-cases,
}
use com_webos_service_locati.Base.Int.{ℤ, pos, ltb_ℤ, leb_ℤ, eq_ℤ, ◌-ℤ◌}
use com_webos_service_locati.Errors.{pos_not_available}
use com_webos_service_locati.Updates.Cached.{
  compare_position_time_stamps, cached, get_cached_position,
}
use com_webos_service_locati.Updates.Criteria.{Position, Accuracy}
use com_webos_service_locati.Updates.Notices.{add_pos_json}
use com_webos_service_locati.Updates.Requests.{
  HandlerName, gps_name, network_name, hybrid_name, passive_name, other_name, name_of,
}
use com_webos_service_locati.Updates.Service.{located, failed}

module _ {F : Type 0} (less : F → F → Bool) where
  -- The specification: newer, or as old and more accurate.
  abbrev pub better : Position F × Accuracy F → Position F × Accuracy F → Bool
  better (p, a) (q, b) =
      ltb_ℤ q.timestamp p.timestamp
      || eq_ℤ q.timestamp p.timestamp && less a.horiz_accuracy b.horiz_accuracy

  irreflexive : (asym : (x y : F) → less x y ≡ true → less y x ≡ false) (x : F) → less x x ≡ false
  irreflexive asym x = elim (Bool-cases (less x x)) [ inl e ↦ asym x x e | inr e ↦ e ]

  -- Of two positions one is chosen, with its own accuracy, and neither of the two is better than
  -- it, if no two accuracies are below each other.
  chosen_best :
      (asym : (x y : F) → less x y ≡ true → less y x ≡ false) (p1 p2 : Position F)
      (a1 a2 : Accuracy F)
      → let r = compare_position_time_stamps less p1 p2 a1 a2 in
        ((r ≡ (p1, a1)) ⊎ (r ≡ (p2, a2)))
        × (better (p1, a1) r ≡ false)
        × (better (p2, a2) r ≡ false)
  unfolding compare_position_time_stamps
  chosen_best asym p1 p2 a1 a2 =
      let no1 = irreflexive asym a1.horiz_accuracy in
      let no2 = irreflexive asym a2.horiz_accuracy in
      elim (Bool-cases (leb_ℤ p2.timestamp p1.timestamp)) [
        | inr e ↦ rw e (inr refl, ground (arith, e, no2), ground (arith, e, no2))
        | inl e ↦ elim (Bool-cases (eq_ℤ p1.timestamp p2.timestamp)) [
          | inr f ↦ rw (e, f) (inl refl, ground (arith, no1), ground (arith, e, f, no1))
          | inl f ↦ elim (Bool-cases (less a1.horiz_accuracy a2.horiz_accuracy)) [
            | inl l ↦
                rw (e, f, l)
                  (
                    inl refl,
                    ground (arith, no1),
                    ground (arith, f, asym a1.horiz_accuracy a2.horiz_accuracy l),
                  )
            | inr l ↦ rw (e, f, l) (inr refl, ground (arith, e, f, l), ground (arith, no2))
          ]
        ]
      ]

  -- The positions that a handler may be answered with; `zeros` is what is left for an unknown name.
  abbrev pub candidates :
      Position F × Accuracy F
      → HandlerName
      → Position F × Accuracy F
      → Position F × Accuracy F
      → List (Position F × Accuracy F)
  candidates zeros gps_name g n = g ∷ []
  candidates zeros network_name g n = n ∷ []
  candidates zeros hybrid_name g n = g ∷ n ∷ []
  candidates zeros passive_name g n = g ∷ n ∷ []
  candidates zeros (other_name s) g n = zeros ∷ []

  -- One of the list, and none of the list is better.
  abbrev pub IsOne : Position F × Accuracy F → List (Position F × Accuracy F) → Type 0
  IsOne c [] = ⊥
  IsOne c (d ∷ ds) = (c ≡ d) ⊎ IsOne c ds

  abbrev pub NoneBetter : Position F × Accuracy F → List (Position F × Accuracy F) → Type 0
  NoneBetter c [] = Unit {0}
  NoneBetter c (d ∷ ds) = (better d c ≡ false) × NoneBetter c ds

  -- The answer for a position.
  abbrev pub fresh : (F → Bool) → ℤ → ℤ → Position F → Bool
  fresh is_zero now maximum_age p =
      not (is_zero p.latitude)
      && not (is_zero p.longitude)
      && (leb_ℤ maximum_age (pos 0) || leb_ℤ (now -ℤ p.timestamp) maximum_age)

module _ {F : Type 0} (less : F → F → Bool) (is_zero : F → Bool)
    (zeros : Position F × Accuracy F) where
  alone :
      (asym : (x y : F) → less x y ≡ true → less y x ≡ false) (c : Position F × Accuracy F)
      → IsOne less c (c ∷ []) × NoneBetter less c (c ∷ [])
  alone asym c = (inl refl, (ground (arith, irreflexive less asym c.1.horiz_accuracy), tt))

  of_two :
      (asym : (x y : F) → less x y ≡ true → less y x ≡ false) (g n : Position F × Accuracy F)
      → let r = compare_position_time_stamps less g.0 n.0 g.1 n.1 in
        IsOne less r (g ∷ n ∷ []) × NoneBetter less r (g ∷ n ∷ [])
  of_two asym g n =
      let (one, no_g, no_n) = chosen_best less asym g.0 n.0 g.1 n.1 in
      (elim one [ inl e ↦ inl e | inr e ↦ inr (inl e) ], (no_g, (no_n, tt)))

  cached-best :
      (asym : (x y : F) → less x y ≡ true → less y x ≡ false) (h : HandlerName)
      (g n : Position F × Accuracy F)
      → let c = cached less is_zero zeros h g n in
        IsOne less c (candidates less zeros h g n) × NoneBetter less c (candidates less zeros h g n)
  cached-best asym gps_name g n = alone asym g
  cached-best asym network_name g n = alone asym n
  cached-best asym hybrid_name g n = of_two asym g n
  cached-best asym passive_name g n = of_two asym g n
  cached-best asym (other_name s) g n = alone asym zeros

  -- Where no two accuracies are below each other, getCachedPosition answers for one of the positions
  -- that the named handler may be answered with (that of its provider, or either provider's for the
  -- hybrid and passive handlers), and none of these is newer, or as old and more accurate. That
  -- position is the answer where its coordinates are not 0 and it is not older than a maximumAge
  -- above 0, and otherwise the answer is the error.
  pub cached_fresh :
      (asym : (x y : F) → less x y ≡ true → less y x ≡ false) (now maximum_age : ℤ)
      (handler : Option HandlerName) (g n : Position F × Accuracy F)
      → let all = candidates less zeros (name_of handler) g n in
        (c : Position F × Accuracy F) × IsOne less c all
        × NoneBetter less c all
        × (get_cached_position less is_zero zeros now handler maximum_age g n ≡ (
            if fresh less is_zero now maximum_age c.0
            then located (add_pos_json now (some c))
            else failed pos_not_available))
  unfolding get_cached_position
  cached_fresh asym now maximum_age handler g n =
      let c = cached less is_zero zeros (name_of handler) g n in
      let (one, best) = cached-best asym (name_of handler) g n in (c, one, best, ground arith)
