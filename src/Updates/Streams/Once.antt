-- ===== src/Updates/Streams/Once.antt =====
-- Who gets NMEA data (src/lunaIpc/LocationService.cpp): a client that asks once, and a subscriber.
use mathlib.Core.List.{append-nil}
use com_webos_service_locati.Base.{
  ℕ, suc, ◌≡◌, refl, ap, ◌∙◌, Bool, true, false, List, [], ◌∷◌, ◌++◌, ◌==◌, ==_iff, if◌then◌else◌,
  replicate, arith, inl, inr, Bool-cases,
}
use com_webos_service_locati.Bus.{Key, nmea_data, Subscriptions, without, same_key_refl}
use com_webos_service_locati.Updates.Cancel.{reply_messages, ls_subscription_non_subscription_reply}
use com_webos_service_locati.Updates.Service.{
  Messages, Payload, other, Effect, reply, gps, network, remove_source, add_source, wake, Service,
  stop_non_subcription,
}
use com_webos_service_locati.Commands.{stop_nmea_cmd}
use com_webos_service_locati.Updates.Streams.{send_nmea_data}
use com_webos_service_locati.Wake.{Call}

-- What a message is replied.
abbrev pub received : {F : Type 0} → ℕ → List (Effect F) → List (Payload F)
received n [] = []
received n (reply m p ∷ es) = if m == n then p ∷ received n es else received n es
received n (gps c ∷ es) = received n es
received n (network c ∷ es) = received n es
received n (remove_source t ∷ es) = received n es
received n (add_source t i ∷ es) = received n es
received n (wake c ∷ es) = received n es

abbrev pub count : ℕ → List ℕ → ℕ
count n [] = 0
count n (m ∷ ms) = if m == n then suc (count n ms) else count n ms

pub received-append :
    {F : Type 0} (n : ℕ) (es fs : List (Effect F))
    → received n (es ++ fs) ≡ received n es ++ received n fs
received-append n [] fs = refl
received-append n (reply m p ∷ es) fs = ground (arith, received-append n es fs)
received-append n (gps c ∷ es) fs = received-append n es fs
received-append n (network c ∷ es) fs = received-append n es fs
received-append n (remove_source t ∷ es) fs = received-append n es fs
received-append n (add_source t i ∷ es) fs = received-append n es fs
received-append n (wake c ∷ es) fs = received-append n es fs

-- Where no reply to the message follows.
received-appended :
    {F : Type 0} (n : ℕ) (es fs : List (Effect F))
    → received n fs ≡ []
    → received n (es ++ fs) ≡ received n es
received-appended n es fs h =
    received-append n es fs ∙ ap (λ ps. received n es ++ ps) h ∙ append-nil (received n es)

-- The stop of the GPS provider is no reply.
pub received-stop :
    {F : Type 0} (n : ℕ) (b : Bool)
    → received {F = F} n (if b then gps stop_nmea_cmd ∷ [] else []) ≡ []
received-stop n true = refl
received-stop n false = refl

pub count-without :
    (n m : ℕ) (ms : List ℕ) → count n (without m ms) ≡ (if m == n then 0 else count n ms)
count-without n m [] = ground arith
count-without n m (k ∷ ms) = ground (arith, count-without n m ms)

same :
    (msgs : Messages) (m n : ℕ) → (m == n) ≡ true → msgs.is_subscription m ≡ msgs.is_subscription n
same msgs m n h = ap msgs.is_subscription ((==_iff m n).0 h)

module _ {F : Type 0} (subs : Subscriptions) (msgs : Messages) (accepts : Call → Bool) where
  -- Each message of the list is replied to as often as it is in it.
  received-messages :
      (n : ℕ) (ms : List ℕ) (k : Key) (p : Payload F) (s : Service F subs.Lists)
      → received n (reply_messages subs msgs accepts ms k p s).1 ≡ replicate (count n ms) p
  unfolding reply_messages
  received-messages n [] k p s = refl
  received-messages n (m ∷ ms) k p s =
      let s1 = if msgs.is_subscription m then s else record s { lists = subs.remove s.lists k m } in
      ground (arith, received-messages n ms k p s1)

  -- The messages that stay.
  count-messages :
      (n : ℕ) (ms : List ℕ) (k : Key) (p : Payload F) (s : Service F subs.Lists)
      → count n (subs.messages (reply_messages subs msgs accepts ms k p s).0.lists k) ≡ (
          if msgs.is_subscription n
          then count n (subs.messages s.lists k)
          else if 0 == count n ms
          then count n (subs.messages s.lists k)
          else 0)
  unfolding reply_messages
  count-messages n [] k p s = ground arith
  count-messages n (m ∷ ms) k p s = elim (Bool-cases (msgs.is_subscription m)) [
    | inl e ↦ rw e (count-messages n ms k p s ∙ ground (arith, same msgs m n))
    | inr e ↦ rw e (
        count-messages n ms k p (record s { lists = subs.remove s.lists k m })
        ∙ ground (
          arith,
          same msgs m n,
          subs.messages_remove s.lists k k m,
          same_key_refl k,
          count-without n m (subs.messages s.lists k),
        ))
  ]

  -- A list that a message is on gives an iterator.
  module _
      (acquired : (l : subs.Lists) (k : Key) (m : ℕ)
        → (0 == count m (subs.messages l k)) ≡ false
        → subs.acquires l k ≡ true) where
    pub received-send_nmea_data :
        (n text : ℕ) (s : Service F subs.Lists)
        → received n (send_nmea_data subs msgs accepts text s).1
          ≡ replicate (count n (subs.messages s.lists nmea_data)) (other text)
    unfolding send_nmea_data ls_subscription_non_subscription_reply stop_non_subcription
    received-send_nmea_data n text s =
        let ms = subs.messages s.lists nmea_data in
        let (s', es) = reply_messages subs msgs accepts ms nmea_data (other text) s in
        elim (Bool-cases (subs.acquires s.lists nmea_data)) [
          | inl e ↦ rw e (
              received-appended n es _ (received-stop n _)
              ∙ received-messages n ms nmea_data (other text) s)
          | inr e ↦ ground (arith, acquired s.lists nmea_data n, e)
        ]

    pub count-send_nmea_data :
        (n text : ℕ) (s : Service F subs.Lists)
        → count n (subs.messages (send_nmea_data subs msgs accepts text s).0.lists nmea_data)
          ≡ (if msgs.is_subscription n then count n (subs.messages s.lists nmea_data) else 0)
    unfolding send_nmea_data ls_subscription_non_subscription_reply
    count-send_nmea_data n text s =
        let ms = subs.messages s.lists nmea_data in
        elim (Bool-cases (subs.acquires s.lists nmea_data)) [
          | inl e ↦ rw e (count-messages n ms nmea_data (other text) s ∙ ground arith)
          | inr e ↦ ground (arith, acquired s.lists nmea_data n, e)
        ]
