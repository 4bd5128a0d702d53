-- ===== src/Updates/Streams/Heard.antt =====
-- What a client of getNmeaData gets from when it has asked, while the GPS handler stays on
-- (src/lunaIpc/LocationService.cpp).
use com_webos_service_locati.Base.{
  ℕ, suc, ◌≡◌, refl, ap, ◌∙◌, Bool, true, false, none, some, ◌||◌, Option, List, [], ◌∷◌, ◌++◌, map,
  ◌==◌, if◌then◌else◌, take, replicate, arith,
}
use com_webos_service_locati.Bus.{Key, nmea_data, Subscriptions}
use com_webos_service_locati.Errors.{ErrorCode, LocationError}
use com_webos_service_locati.Updates.Cancel.{cancel_other}
use com_webos_service_locati.Updates.Service.{
  Messages, Payload, other, Effect, Service, stop_subcription,
}
use com_webos_service_locati.Updates.Streams.{
  get_nmea_data, send_nmea_data, provider_error, reply_failed,
}
use com_webos_service_locati.Updates.Streams.Events.{
  Event, asks, goes, sends, is_named, texts, step, run,
}
use com_webos_service_locati.Updates.Streams.Once.{
  received, count, received-append, count-without, received-send_nmea_data, count-send_nmea_data,
}
use com_webos_service_locati.Wake.{Call}

-- What a message that is on the list `c` times gets of the texts; one that is no subscription is
-- taken off with the first.
due : {F : Type 0} → Bool → ℕ → List ℕ → List (Payload F)
due sub c [] = []
due sub c (t ∷ ts) = replicate c (other t) ++ due sub (if sub then c else 0) ts

due-nothing : {F : Type 0} (sub : Bool) (ts : List ℕ) → due {F = F} sub 0 ts ≡ []
unfolding due
due-nothing sub [] = refl
due-nothing true (t ∷ ts) = due-nothing true ts
due-nothing false (t ∷ ts) = due-nothing false ts

due-once :
    {F : Type 0} (sub : Bool) (ts : List ℕ)
    → due {F = F} sub 1 ts ≡ map other (if sub then ts else take 1 ts)
unfolding due
due-once true [] = refl
due-once false [] = refl
due-once true (t ∷ ts) = ap (λ ps. other t ∷ ps) (due-once true ts)
due-once false (t ∷ ts) = ap (λ ps. other t ∷ ps) (due-nothing false ts)

count-append :
    (n m : ℕ) (ms : List ℕ)
    → count n (ms ++ m ∷ []) ≡ (if m == n then suc (count n ms) else count n ms)
count-append n m [] = refl
count-append n m (k ∷ ms) = ground (arith, count-append n m ms)

false_left : (a b : Bool) → a || b ≡ false → a ≡ false
false_left a b h = ground (arith, h)

false_right : (a b : Bool) → a || b ≡ false → b ≡ false
false_right a b h = ground (arith, h)

-- Where no reply to the message comes first.
append-received :
    {F : Type 0} (n : ℕ) (es fs : List (Effect F))
    → received n es ≡ []
    → received n (es ++ fs) ≡ received n fs
append-received n es fs h = received-append n es fs ∙ ap (λ ps. ps ++ received n fs) h

received-failed :
    {F : Type 0} (n m : ℕ) (e : Option LocationError)
    → (m == n) ≡ false
    → received {F = F} n (reply_failed m e) ≡ []
unfolding reply_failed
received-failed n m none h = refl
received-failed n m (some e) h = ground (arith, h)

module _ {F : Type 0} (subs : Subscriptions) (msgs : Messages) (accepts : Call → Bool) where
  -- The request of another client.
  received-get_nmea_data :
      (valid adds : Bool) (result : ErrorCode) (n m : ℕ) (s : Service F subs.Lists)
      → (m == n) ≡ false
      → received n (get_nmea_data subs valid adds result m s).1 ≡ []
  unfolding get_nmea_data
  received-get_nmea_data valid adds result n m s h =
      ground (arith, h, received-failed {F = F} n m (provider_error result) h)

  count-get_nmea_data :
      (valid adds : Bool) (result : ErrorCode) (n m : ℕ) (s : Service F subs.Lists)
      → (m == n) ≡ false
      → count n (subs.messages (get_nmea_data subs valid adds result m s).0.lists nmea_data)
        ≡ count n (subs.messages s.lists nmea_data)
  unfolding get_nmea_data
  count-get_nmea_data valid adds result n m s h = ground (
    arith,
    h,
    subs.messages_add s.lists nmea_data nmea_data m,
    count-append n m (subs.messages s.lists nmea_data),
  )

  received-goes :
      (n m : ℕ) (s : Service F subs.Lists) → received n (step subs msgs accepts (goes m) s).1 ≡ []
  unfolding step cancel_other stop_subcription
  received-goes n m s = ground arith

  count-goes :
      (n m : ℕ) (s : Service F subs.Lists)
      → (m == n) ≡ false
      → count n (subs.messages (step subs msgs accepts (goes m) s).0.lists nmea_data)
        ≡ count n (subs.messages s.lists nmea_data)
  unfolding step
  count-goes n m s h = ground (
    arith,
    h,
    subs.messages_remove s.lists nmea_data nmea_data m,
    count-without n m (subs.messages s.lists nmea_data),
  )

  -- A list that a message is on gives an iterator.
  module _
      (acquired : (l : subs.Lists) (k : Key) (m : ℕ)
        → (0 == count m (subs.messages l k)) ≡ false
        → subs.acquires l k ≡ true) where
    received-run :
        (n : ℕ) (es : List Event) (s : Service F subs.Lists)
        → is_named n es ≡ false
        → received n (run subs msgs accepts es s)
          ≡ due (msgs.is_subscription n) (count n (subs.messages s.lists nmea_data)) (texts es)
    unfolding run due step
    received-run n [] s h = refl
    received-run n (asks valid adds result m ∷ es) s h =
        let (s', fs) = get_nmea_data subs valid adds result m s in
        let g = false_left (m == n) _ h in
        append-received n fs _ (received-get_nmea_data valid adds result n m s g)
        ∙ received-run n es s' (false_right (m == n) _ h)
        ∙ ap (λ c. due (msgs.is_subscription n) c (texts es))
            (count-get_nmea_data valid adds result n m s g)
    received-run n (goes m ∷ es) s h =
        let (s', fs) = step subs msgs accepts (goes m) s in
        append-received n fs _ (received-goes n m s)
        ∙ received-run n es s' (false_right (m == n) _ h)
        ∙ ap (λ c. due (msgs.is_subscription n) c (texts es))
            (count-goes n m s (false_left (m == n) _ h))
    received-run n (sends text ∷ es) s h =
        let (s', fs) = send_nmea_data subs msgs accepts text s in
        received-append n fs (run subs msgs accepts es s')
        ∙ ap (λ ps. ps ++ received n (run subs msgs accepts es s'))
            (received-send_nmea_data subs msgs accepts acquired n text s)
        ∙ ap (λ ps. replicate (count n (subs.messages s.lists nmea_data)) (other text) ++ ps)
            (received-run n es s' h
              ∙ ap (λ c. due (msgs.is_subscription n) c (texts es))
                  (count-send_nmea_data subs msgs accepts acquired n text s))

    -- A client whose getNmeaData is accepted while the GPS handler is on, with a message that was not
    -- on the list yet, is sent all later texts in order if it subscribes, and only the first one
    -- otherwise, whatever the GPS provider's result is and whichever other messages ask for NMEA data
    -- and go in between, as long as the handler is not turned off and the client neither asks with that
    -- message again nor goes.
    pub nmea_heard :
        (n : ℕ) (result : ErrorCode) (es : List Event) (s : Service F subs.Lists)
        → s.gps_status ≡ true
        → count n (subs.messages s.lists nmea_data) ≡ 0
        → is_named n es ≡ false
        → received n (run subs msgs accepts es (get_nmea_data subs true true result n s).0)
          ≡ map other (if msgs.is_subscription n then texts es else take 1 (texts es))
    unfolding get_nmea_data
    nmea_heard n result es s on fresh h =
        received-run n es (get_nmea_data subs true true result n s).0 h
        ∙ ap (λ c. due (msgs.is_subscription n) c (texts es))
            (rw on (
              ground (
                arith,
                fresh,
                subs.messages_add s.lists nmea_data nmea_data n,
                count-append n n (subs.messages s.lists nmea_data),
              )))
        ∙ due-once (msgs.is_subscription n) (texts es)
