-- ===== src/Geofence/Replies/Heard.antt =====
-- Who is told of a breach (src/lunaIpc/LocationService.cpp).
use com_webos_service_locati.Base.{
  ℕ, ◌≡◌, refl, sym, ap, ◌∙◌, true, false, List, [], ◌∷◌, if◌then◌else◌, inl, inr, Bool-cases,
  arith,
}
use com_webos_service_locati.Base.Int.{ℤ, eq_ℤ}
use com_webos_service_locati.Gps.Extra.{same_text}
use com_webos_service_locati.Gps.Extra.Texts.{same_text_eq, same_text_refl}
use com_webos_service_locati.Geofence.Keys.{Suffix, add_area, geofence_key}
use com_webos_service_locati.Geofence.Keys.Unique.{Int32, geofence_key_unique}
use com_webos_service_locati.Geofence.Replies.{
  Payload, Effect, tell, respond, reply_error, subscribe, Breach, breaches, geofence_breach_cb,
  send_geofence_breach_data, posted_breach, breach_reply, Transition, nyx_entered, nyx_exited,
  nyx_uncertain, nyx_other, GeofenceState, transition_entered, transition_exited,
  transition_uncertain, state_of, which_way,
}

-- What the subscribers of a key are told by LSSubscriptionReply.
abbrev pub told : {F : Type 0} → List ℕ → List (Effect F) → List (Payload F)
told k [] = []
told k (tell j p ∷ es) = if same_text j k then p ∷ told k es else told k es
told k (respond j p ∷ es) = told k es
told k (reply_error m e ∷ es) = told k es
told k (subscribe j m ∷ es) = told k es

-- How a transition is told: one that is not known is told as an entry.
abbrev pub seen : Transition → GeofenceState
seen nyx_entered = transition_entered
seen nyx_exited = transition_exited
seen nyx_uncertain = transition_uncertain
seen nyx_other = transition_entered

-- The breaches of one area.
abbrev pub breaches_of : {F : Type 0} → ℤ → List (Breach F) → List (Payload F)
breaches_of id [] = []
breaches_of id (b ∷ bs) =
    let rest = breaches_of id bs in
    if eq_ℤ b.geofence_id id
    then breach_reply (seen b.transition) b.timestamp b.latitude b.longitude ∷ rest
    else rest

abbrev pub AllInt32 : {F : Type 0} → List (Breach F) → Type 0
AllInt32 [] = Unit
AllInt32 (b ∷ bs) = Int32 b.geofence_id × AllInt32 bs

eq_ℤ_refl : (i : ℤ) → eq_ℤ i i ≡ true
eq_ℤ_refl i = ground arith

different :
    (i j : ℤ) (s : Suffix)
    → Int32 i
    → Int32 j
    → eq_ℤ i j ≡ false
    → same_text (geofence_key i s) (geofence_key j s) ≡ eq_ℤ i j
different i j s p q h = elim (Bool-cases (same_text (geofence_key i s) (geofence_key j s))) [
  | inl e ↦
      let same = ((geofence_key_unique i j s s p q).1.0 (same_text_eq _ _ e)).0 in
      e ∙ sym (eq_ℤ_refl i) ∙ ap (eq_ℤ i) same
  | inr e ↦ e ∙ sym h
]

same_key-eq :
    (i j : ℤ) (s : Suffix)
    → Int32 i
    → Int32 j
    → same_text (geofence_key i s) (geofence_key j s) ≡ eq_ℤ i j
same_key-eq i j s p q = elim (Bool-cases (eq_ℤ i j)) [
  | inl h ↦
      let e : i ≡ j = ground arith in
      ap (λ k. same_text (geofence_key i s) (geofence_key k s)) (sym e)
      ∙ same_text_refl (geofence_key i s)
      ∙ sym h
  | inr h ↦ different i j s p q h
]

way-seen : (t : Transition) → state_of (which_way t) ≡ seen t
way-seen nyx_entered = refl
way-seen nyx_exited = refl
way-seen nyx_uncertain = refl
way-seen nyx_other = refl

-- For ids that are 32-bit integers, the client of an area is told exactly the breaches of that area,
-- in their order, each as its transition was; a transition that is not known is told as an entry.
pub breaches-told :
    {F : Type 0} (id : ℤ) (bs : List (Breach F))
    → Int32 id
    → AllInt32 bs
    → told (geofence_key id add_area) (breaches bs) ≡ breaches_of id bs
unfolding breaches geofence_breach_cb send_geofence_breach_data posted_breach
breaches-told id [] p q = refl
breaches-told id (b ∷ bs) p (r, q) = ground (
  arith,
  same_key-eq b.geofence_id id add_area r p,
  breaches-told id bs p q,
  way-seen b.transition,
)
