-- ===== src/Gps/DataNetwork/Heard.antt =====
-- What the GNSS library has had of the data network, over any reports (GPSPositionProvider.cpp).
use com_webos_service_locati.Base.{
  ap, sym, ◌∙◌, ◌≡◌, ◌≢◌, ◌⊎◌, inl, inr, refl, Bool, true, Option, none, some, List, [], ◌∷◌,
  if◌then◌else◌, arith,
}
use com_webos_service_locati.Base.Int.{ℤ, eq_ℤ_eq, eq_ℤ_refl}
use com_webos_service_locati.Gps.DataNetwork.{
  DataNetwork, nothing_known, Answer, is_taken, send_data_network_locked, update_data_network,
  Event, report, opened, closing, step, run,
}

-- What the library took last, `o` before these calls.
abbrev pub taken : Answer → Option (Bool × ℤ) → List (Bool × ℤ) → Option (Bool × ℤ)
taken rc o [] = o
taken rc o (t ∷ ts) = taken rc (if is_taken rc then some t else o) ts

abbrev pub taken_all : Option (Bool × ℤ) → List (Answer × Event) → DataNetwork → Option (Bool × ℤ)
taken_all o [] d = o
taken_all o ((rc, e) ∷ es) d = taken_all (taken rc o (step rc e d).1) es (step rc e d).0

-- The last report.
abbrev pub reported : Option (Bool × ℤ) → List (Answer × Event) → Option (Bool × ℤ)
reported o [] = o
reported o ((rc, report connected type) ∷ es) = reported (some (connected, type)) es
reported o ((rc, opened) ∷ es) = reported o es
reported o ((rc, closing) ∷ es) = reported o es

-- The library takes each call.
abbrev pub AllTaken : List (Answer × Event) → Type 0
AllTaken [] = Unit
AllTaken ((rc, e) ∷ es) = (is_taken rc ≡ true) × AllTaken es

-- What the fields say was sent, and what was reported.
abbrev sent_of : DataNetwork → Option (Bool × ℤ)
sent_of d = if d.sent then some (d.sent_connected, d.sent_type) else none

abbrev known_of : DataNetwork → Option (Bool × ℤ)
known_of d = if d.known then some (d.connected, d.network_type) else none

step-sent :
    (rc : Answer) (e : Event) (d : DataNetwork)
    → sent_of (step rc e d).0 ≡ taken rc (sent_of d) (step rc e d).1
unfolding step update_data_network send_data_network_locked
step-sent rc (report connected type) d = ground arith
step-sent rc opened d = ground arith
step-sent rc closing d = ground arith

step-known :
    (rc : Answer) (e : Event) (d : DataNetwork)
    → known_of (step rc e d).0 ≡ reported (known_of d) ((rc, e) ∷ [])
unfolding step update_data_network send_data_network_locked
step-known rc (report connected type) d = ground arith
step-known rc opened d = ground arith
step-known rc closing d = ground arith

run-sent :
    (es : List (Answer × Event)) (d : DataNetwork) → sent_of (run es d) ≡ taken_all (sent_of d) es d
unfolding run
run-sent [] d = refl
run-sent ((rc, e) ∷ es) d =
    run-sent es (step rc e d).0 ∙ ap (λ o. taken_all o es (step rc e d).0) (step-sent rc e d)

reported-step :
    (o : Option (Bool × ℤ)) (rc : Answer) (e : Event) (es : List (Answer × Event))
    → reported (reported o ((rc, e) ∷ [])) es ≡ reported o ((rc, e) ∷ es)
reported-step o rc (report connected type) es = refl
reported-step o rc opened es = refl
reported-step o rc closing es = refl

run-known :
    (es : List (Answer × Event)) (d : DataNetwork) → known_of (run es d) ≡ reported (known_of d) es
unfolding run
run-known [] d = refl
run-known ((rc, e) ∷ es) d =
    run-known es (step rc e d).0
    ∙ (ap (λ o. reported o es) (step-known rc e d) ∙ reported-step (known_of d) rc e es)

-- A library that is open has had what was reported.
IsCurrent : DataNetwork → Type 0
IsCurrent d = d.nyx_ready ≡ true → d.known ≡ true → sent_of d ≡ known_of d

step-IsCurrent :
    (rc : Answer) (e : Event) (d : DataNetwork)
    → is_taken rc ≡ true
    → IsCurrent d
    → IsCurrent (step rc e d).0
unfolding IsCurrent step update_data_network send_data_network_locked
step-IsCurrent rc (report connected type) d t c = ground (arith, eq_ℤ_eq d.sent_type type)
step-IsCurrent rc opened d t c = ground (arith, eq_ℤ_eq d.sent_type d.network_type)
step-IsCurrent rc closing d t c = ground arith

run-IsCurrent :
    (es : List (Answer × Event)) (d : DataNetwork)
    → AllTaken es
    → IsCurrent d
    → IsCurrent (run es d)
unfolding run
run-IsCurrent [] d a c = c
run-IsCurrent ((rc, e) ∷ es) d a c =
    run-IsCurrent es (step rc e d).0 a.1 (step-IsCurrent rc e d a.0 c)

sent-known :
    (d : DataNetwork) → IsCurrent d → d.nyx_ready ≡ true → d.known ≡ true → sent_of d ≡ known_of d
unfolding IsCurrent
sent-known d c = c

initial-IsCurrent : IsCurrent nothing_known
unfolding IsCurrent
initial-IsCurrent r k = refl

-- After any reports, opening and closing of the library, each call of it taken: if the library is
-- open and there was a report, the last call that the library took is the last report.
pub run-reported :
    (es : List (Answer × Event))
    → AllTaken es
    → (run es nothing_known).nyx_ready ≡ true
    → (run es nothing_known).known ≡ true
    → taken_all none es nothing_known ≡ reported none es
run-reported es a ready known =
    let d = run es nothing_known in
    sym (run-sent es nothing_known)
    ∙ (sent-known d (run-IsCurrent es nothing_known a initial-IsCurrent) ready known
        ∙ run-known es nothing_known)

send-news :
    (rc : Answer) (d : DataNetwork)
    → ((send_data_network_locked rc d).1 ≡ [])
      ⊎ (((send_data_network_locked rc d).1 ≡ (d.connected, d.network_type) ∷ [])
          × (sent_of d ≢ some (d.connected, d.network_type)))
unfolding send_data_network_locked
send-news rc d = ground (arith, eq_ℤ_refl d.sent_type)

step-news :
    (rc : Answer) (e : Event) (d : DataNetwork)
    → ((step rc e d).1 ≡ [])
      ⊎ ((t : Bool × ℤ) × (((step rc e d).1 ≡ t ∷ []) × (sent_of d ≢ some t)))
unfolding step update_data_network
step-news rc (report connected type) d =
    elim (send-news rc (record d { known = true; connected = connected; network_type = type })) [
      | inl none_sent ↦ inl none_sent
      | inr news ↦ inr ((connected, type), news)
    ]
step-news rc opened d = elim (send-news rc (record d { nyx_ready = true })) [
  | inl none_sent ↦ inl none_sent
  | inr news ↦ inr ((d.connected, d.network_type), news)
]
step-news rc closing d = inl refl

-- After any events, with calls that fail among them, the next event calls the library at most once,
-- and not with what it took last.
run-news :
    (es : List (Answer × Event)) (rc : Answer) (e : Event)
    → let calls = (step rc e (run es nothing_known)).1 in
      (calls ≡ [])
      ⊎ ((t : Bool × ℤ) × ((calls ≡ t ∷ []) × (taken_all none es nothing_known ≢ some t)))
run-news es rc e = rw (sym (run-sent es nothing_known)) (step-news rc e (run es nothing_known))

report-known :
    (rc : Answer) (connected : Bool) (type : ℤ) (d : DataNetwork)
    → (step rc (report connected type) d).0.nyx_ready ≡ d.nyx_ready
      × ((step rc (report connected type) d).0.known ≡ true)
      × (known_of (step rc (report connected type) d).0 ≡ some (connected, type))
unfolding step update_data_network send_data_network_locked
report-known rc connected type d = ground arith

-- A report to an open library that takes it is what the library took last.
pub report-taken :
    (es : List (Answer × Event)) (rc : Answer) (connected : Bool) (type : ℤ)
    → AllTaken es
    → is_taken rc ≡ true
    → (run es nothing_known).nyx_ready ≡ true
    → taken rc
        (taken_all none es nothing_known)
        (update_data_network rc connected type (run es nothing_known)).1
      ≡ some (connected, type)
unfolding step
report-taken es rc connected type a t ready =
    let d = run es nothing_known in
    let e = report connected type in
    let (kept, known, reported_now) = report-known rc connected type d in
    let current = step-IsCurrent rc e d t (run-IsCurrent es nothing_known a initial-IsCurrent) in
    sym (ap (λ o. taken rc o (step rc e d).1) (run-sent es nothing_known))
    ∙ (sym (step-sent rc e d)
        ∙ (sent-known (step rc e d).0 current (kept ∙ ready) known ∙ reported_now))
