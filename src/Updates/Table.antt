-- ===== src/Updates/Table.antt =====
-- LocationUpdateRequest (include/LocationService.h) and m_locUpdate_req_table, with removeTimer and
-- LSMessageRemoveReqList (src/lunaIpc/LocationService.cpp). The unordered_map is an association
-- list; the message of a request is its key, so `getMessage() == message` holds. `F` is `double`.
use com_webos_service_locati.Base.{
  ℕ, zero, ◌≡◌, refl, Bool, true, false, Option, none, some, List, [], ◌∷◌, ◌==◌, if◌then◌else◌,
  arith, Option-cases, Bool-cases, ==_iff, inl, inr,
}
use com_webos_service_locati.Base.Int.{ℤ}

pub record UpdateRequest (F : Type 0) : Type 0 where
  pub request_time : ℤ
  pub last_latitude : F
  pub last_longitude : F
  pub first_reply : Bool
  pub timer_id : ℕ
  pub has_timer_data : Bool
  pub handler_type : ℤ

module _ {ℓ} {A : Type ℓ} where
  unfoldable pub find : ℕ → List (ℕ × A) → Option A
  find k [] = none
  find k ((j, a) ∷ t) = if j == k then some a else find k t

  unfoldable pub erase : ℕ → List (ℕ × A) → List (ℕ × A)
  erase k [] = []
  erase k ((j, a) ∷ t) = if j == k then erase k t else (j, a) ∷ erase k t

  -- `table[k] = a`
  unfoldable pub put : ℕ → A → List (ℕ × A) → List (ℕ × A)
  put k a [] = (k, a) ∷ []
  put k a ((j, b) ∷ t) = if j == k then (k, a) ∷ t else (j, b) ∷ put k a t

  pub find-erase :
      (k j : ℕ) (t : List (ℕ × A)) → find j (erase k t) ≡ (if k == j then none else find j t)
  unfolding find erase
  find-erase k j [] = ground arith
  find-erase k j ((i, a) ∷ t) = ground (arith, find-erase k j t)

  pub find-put :
      (k j : ℕ) (a : A) (t : List (ℕ × A))
      → find j (put k a t) ≡ (if k == j then some a else find j t)
  unfolding find put
  find-put k j a [] = refl
  find-put k j a ((i, b) ∷ t) = ground (arith, find-put k j a t)

abbrev pub is_some {ℓ} : {A : Type ℓ} → Option A → Bool
is_some none = false
is_some (some a) = true

-- `g_source_remove(timerID)` where there is a timer.
abbrev pub stopped : ℕ → List ℕ
stopped zero = []
stopped t = t ∷ []

-- The results: the table, whether the message was found, the timers that are removed.
module _ {F : Type 0} where
  remove_found :
      ℕ
      → Option (UpdateRequest F)
      → List (ℕ × UpdateRequest F)
      → List (ℕ × UpdateRequest F) × Bool × List ℕ
  remove_found m none t = (t, false, [])
  remove_found m (some r) t =
      (put m (record r { has_timer_data = false }) t, true, stopped r.timer_id)

  unfoldable pub remove_timer :
      ℕ → List (ℕ × UpdateRequest F) → List (ℕ × UpdateRequest F) × Bool × List ℕ
  unfolding remove_found
  remove_timer m t = remove_found m (find m t) t

  erase_found :
      ℕ
      → Option (UpdateRequest F)
      → List (ℕ × UpdateRequest F)
      → List (ℕ × UpdateRequest F) × Bool × List ℕ
  erase_found m none t = (t, false, [])
  erase_found m (some r) t = (erase m t, true, stopped r.timer_id)

  unfoldable pub ls_message_remove_req_list :
      ℕ → List (ℕ × UpdateRequest F) → List (ℕ × UpdateRequest F) × Bool × List ℕ
  unfolding erase_found
  ls_message_remove_req_list m t = erase_found m (find m t) t

  none_at :
      (m j : ℕ) (t : List (ℕ × UpdateRequest F))
      → find m t ≡ none
      → find j t ≡ (if m == j then none else find j t)
  none_at m j t e = elim (Bool-cases (m == j)) [
    | inl b ↦ ground (arith, ==_iff m j)
    | inr b ↦ rw b refl
  ]

  -- A request that is removed is gone with its timer, and no other request changes.
  pub find-remove_req_list :
      (m j : ℕ) (t : List (ℕ × UpdateRequest F))
      → find j (ls_message_remove_req_list m t).0 ≡ (if m == j then none else find j t)
  unfolding ls_message_remove_req_list erase_found
  find-remove_req_list m j t = elim (Option-cases (find m t)) [
    | inl e ↦ rw e (none_at m j t e)
    | inr (r, e) ↦ rw e (find-erase m j t)
  ]

  -- Removing a timer leaves every request in the table.
  pub find-remove_timer :
      (m j : ℕ) (t : List (ℕ × UpdateRequest F))
      → is_some (find j (remove_timer m t).0) ≡ is_some (find j t)
  unfolding remove_timer remove_found
  find-remove_timer m j t = elim (Option-cases (find m t)) [
    | inl e ↦ rw e refl
    | inr (r, e) ↦
        rw (e, find-put m j (record r { has_timer_data = false }) t)
          (elim (Bool-cases (m == j)) [ inl b ↦ ground (arith, ==_iff m j, e) | inr b ↦ rw b refl ])
  ]
