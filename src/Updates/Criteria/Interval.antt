-- ===== src/Updates/Criteria/Interval.antt =====
-- How often a request is answered (LocationService::meetsCriteria).
use com_webos_service_locati.Base.{
  ℕ, ◌≡◌, refl, ◌∙◌, Bool, true, false, ◌&&◌, some, List, [], ◌∷◌, arith, if◌then◌else◌, Bool-cases,
  inl, inr, ==_iff, ◌⊎◌,
}
use com_webos_service_locati.Base.Int.{ℤ, pos, ltb_ℤ, ◌-ℤ◌}
use com_webos_service_locati.Updates.Table.{UpdateRequest, find, find-put}
use com_webos_service_locati.Updates.Criteria.{
  Geometry, Position, Accuracy, meets_criteria, meets_found, meets_again, update,
}

module _ {F : Type 0} (geo : Geometry F) (m : ℕ) (min_interval min_dist : ℤ) where
  -- The positions that come in, with the time of each, and the times that the request is answered.
  abbrev pub answers : List (ℤ × Position F × Accuracy F) → List (ℕ × UpdateRequest F) → List ℤ
  answers [] t = []
  answers ((now, p, acc) ∷ ps) t =
      let (ok, t') = meets_criteria geo m now p acc min_interval min_dist t in
      let rest = answers ps t' in if ok then now ∷ rest else rest

  -- Each time is more than the interval after the one before it.
  abbrev pub after : ℤ → List ℤ → Bool
  after last [] = true
  after last (t ∷ ts) = ltb_ℤ min_interval (t -ℤ last) && after t ts

  abbrev pub apart : List ℤ → Bool
  apart [] = true
  apart (t ∷ ts) = after t ts

  -- What a request that is answered has in the table.
  abbrev Answered : ℤ → List (ℕ × UpdateRequest F) → Type 0
  Answered last t =
      (r : UpdateRequest F) × (find m t ≡ some r)
      × (r.first_reply ≡ false)
      × (r.request_time ≡ last)

  -- A request that was answered is answered again, after its interval, or is left as it is.
  again :
      (last now : ℤ) (p : Position F) (acc : Accuracy F) (t : List (ℕ × UpdateRequest F))
      → ltb_ℤ (pos 0) min_interval ≡ true
      → Answered last t
      → ((meets_criteria geo m now p acc min_interval min_dist t).0 ≡ true)
          × (ltb_ℤ min_interval (now -ℤ last) ≡ true)
          × Answered now (meets_criteria geo m now p acc min_interval min_dist t).1
        ⊎ (meets_criteria geo m now p acc min_interval min_dist t ≡ (false, t))
  unfolding meets_criteria meets_found
  again last now p acc t h (r, f, first, time) =
      elim (Bool-cases (meets_again geo now p acc min_interval min_dist r)) [
        | inl b ↦
            rw (f, first, b)
              (inl (
                refl,
                ground (arith, b, h, time),
                (update geo now p r, find-put m m _ t ∙ ground (arith, ==_iff m m), first, refl),
              ))
        | inr b ↦ inr (rw (f, first, b) refl)
      ]

  answers-after :
      (last : ℤ) (ps : List (ℤ × Position F × Accuracy F)) (t : List (ℕ × UpdateRequest F))
      → ltb_ℤ (pos 0) min_interval ≡ true
      → Answered last t
      → after last (answers ps t) ≡ true
  answers-after last [] t h a = refl
  answers-after last ((now, p, acc) ∷ ps) t h a = elim (again last now p acc t h a) [
    | inl (ok, later, a') ↦ rw (ok, later) (answers-after now ps _ h a')
    | inr e ↦ rw e (answers-after last ps t h a)
  ]

  first_answer :
      (now : ℤ) (p : Position F) (acc : Accuracy F) (t : List (ℕ × UpdateRequest F))
      → ((r : UpdateRequest F) × (find m t ≡ some r) × (r.first_reply ≡ true))
      → ((meets_criteria geo m now p acc min_interval min_dist t).0 ≡ true)
        × Answered now (meets_criteria geo m now p acc min_interval min_dist t).1
  unfolding meets_criteria meets_found
  first_answer now p acc t (r, f, first) =
      rw (f, first)
        (
          refl,
          (
            record (update geo now p r) { first_reply = false },
            find-put m m _ t ∙ ground (arith, ==_iff m m),
            refl,
            refl,
          ),
        )

  -- For a request with a `minimumInterval` above 0 that waits for its first reply, whatever
  -- positions come in and whenever they come, each position that meets the criteria and so is sent
  -- comes more than `minimumInterval` milliseconds after the one that was sent before it. Replies of
  -- an error, which are sent without these criteria, are not counted.
  pub apart-answers :
      (ps : List (ℤ × Position F × Accuracy F)) (t : List (ℕ × UpdateRequest F))
      (r : UpdateRequest F)
      → ltb_ℤ (pos 0) min_interval ≡ true
      → find m t ≡ some r
      → r.first_reply ≡ true
      → apart (answers ps t) ≡ true
  apart-answers [] t r h f first = refl
  apart-answers ((now, p, acc) ∷ ps) t r h f first =
      let (ok, a) = first_answer now p acc t (r, f, first) in rw ok (answers-after now ps _ h a)
