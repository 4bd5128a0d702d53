-- ===== src/Network/Wifi/Change.antt =====
-- What a scan is measured by (NetworkPositionProvider::parseWifiData).
use text.Mathlib.Text.{◌==◌ as str_eq}
use text.Mathlib.TextEquality.{eq_iff}
use text.Mathlib.TextPositions.{eq_refl}
use com_webos_service_locati.Base.{
  ℕ, zero, suc, ◌+◌, ◌*◌, ◌≡◌, refl, ap, ◌∙◌, ◌≢◌, Bool, true, false, not, ◌&&◌, String, List, [],
  ◌∷◌, ◌++◌, length, ltb, if◌then◌else◌, arith, Bool-cases, inl, inr, some, none, Option,
  length-append,
}
use com_webos_service_locati.Base.Int.{ℤ, pos, negsuc, ◌-ℤ◌, abs}
use com_webos_service_locati.Network.Wifi.{
  Signals, lookup, is_null, change, new_changes, vanished_changes, vanished_count, parse_wifi_data,
}

abbrev pub has : String → Signals → Bool
has k [] = false
has k ((j, v) ∷ m) = if str_eq j k then true else has k m

-- A hash table has a key once. That no signal is 0 is assumed: NetworkData.cpp may keep 0 for an access
-- point that has no "signal".
abbrev pub IsScan : Signals → Type 0
IsScan [] = Unit {0}
IsScan ((k, v) ∷ m) = (has k m ≡ false) × (v ≢ pos 0) × IsScan m

-- The access points of either scan: those of the new one, then those that are gone.
abbrev pub gone : Signals → Signals → List String
gone new [] = []
gone new ((k, v) ∷ old) = if has k new then gone new old else k ∷ gone new old

abbrev pub keys : Signals → List String
keys [] = []
keys ((k, v) ∷ m) = k ∷ keys m

abbrev pub either : Signals → Signals → List String
either new old = keys new ++ gone new old

-- The sum of the differences, an access point that is not heard counting as 0.
abbrev pub total : Signals → Signals → List String → ℕ
total new old [] = 0
total new old (k ∷ ks) = abs (lookup k new -ℤ lookup k old) + total new old ks

-- The entries of a part of a table are what the table says.
abbrev Says : Signals → Signals → Type 0
Says m [] = Unit {0}
Says m ((k, v) ∷ r) = (lookup k m ≡ v) × (v ≢ pos 0) × Says m r

Says-cons : (j : String) (w : ℤ) (m r : Signals) → has j r ≡ false → Says m r → Says ((j, w) ∷ m) r
unfolding lookup
Says-cons j w m [] h s = tt
Says-cons j w m ((k, v) ∷ r) h s =
    (ground (arith, eq_iff j k, eq_iff k j), s.1, Says-cons j w m r (ground arith) s.2)

Says-self : (m : Signals) → IsScan m → Says m m
unfolding lookup
Says-self [] h = tt
Says-self ((k, v) ∷ m) h =
    (ground (arith, eq_iff k k, eq_refl k), h.1, Says-cons k v m m h.0 (Says-self m h.2))

lookup-absent : (k : String) (m : Signals) → has k m ≡ false → lookup k m ≡ pos 0
unfolding lookup
lookup-absent k [] h = refl
lookup-absent k ((j, v) ∷ m) h = ground (arith, lookup-absent k m)

lookup-present : (k : String) (m : Signals) → IsScan m → has k m ≡ true → lookup k m ≢ pos 0
unfolding lookup
lookup-present k [] s h = cc
lookup-present k ((j, v) ∷ m) s h = elim (Bool-cases (str_eq j k)) [
  | inl e ↦ rw (e, lookup) s.1
  | inr e ↦ rw (e, lookup) (lookup-present k m s.2 (ground arith))
]

sub-zero : (a : ℤ) → a -ℤ pos 0 ≡ a
unfolding ◌-ℤ◌
sub-zero a = ground arith

abs-zero_sub : (a : ℤ) → abs (pos 0 -ℤ a) ≡ abs a
unfolding ◌-ℤ◌
abs-zero_sub a = ground arith

is_null-eq : (a : ℤ) → is_null a ≡ true → a ≡ pos 0
is_null-eq (pos n) h = ground arith
is_null-eq (negsuc n) h = cc

change_lem : (old : Signals) (v : ℤ) (k : String) → change old v k ≡ abs (v -ℤ lookup k old)
unfolding change
change_lem old v k = elim (Bool-cases (is_null (lookup k old))) [
  | inl e ↦ rw (e, change) (rw (is_null-eq (lookup k old) e) (rw sub-zero))
  | inr e ↦ rw (e, change)
]

new_changes-total : (new old r : Signals) → Says new r → new_changes old r ≡ total new old (keys r)
unfolding new_changes
new_changes-total new old [] s = refl
new_changes-total new old ((k, v) ∷ r) s =
    rw (change_lem old v k) (rw s.0 (ap (◌+◌ _) (new_changes-total new old r s.2)))

is_null-of_ne : (a : ℤ) → a ≢ pos 0 → is_null a ≡ false
is_null-of_ne (pos zero) h = absurd (h refl)
is_null-of_ne (pos (suc n)) h = refl
is_null-of_ne (negsuc n) h = refl

vanished-total :
    (new old r : Signals)
    → IsScan new
    → Says old r
    → (vanished_changes new r ≡ total new old (gone new r))
      × (vanished_count new r ≡ length (gone new r))
unfolding vanished_changes vanished_count
vanished-total new old [] n s = (refl, refl)
vanished-total new old ((k, v) ∷ r) n s =
    let (sums, counts) = vanished-total new old r n s.2 in
    elim (Bool-cases (has k new)) [
      | inl here ↦
          let e = is_null-of_ne (lookup k new) (lookup-present k new n here) in
          ground (arith, e, here, sums, counts)
      | inr away ↦
          let z = lookup-absent k new away in
          rw (away, z)
            (rw (s.0, abs-zero_sub v) (ap (◌+◌ (abs v)) sums, ap (◌+◌ 1) counts ∙ omega arith))
    ]

total-append :
    (new old : Signals) (ks js : List String)
    → total new old (ks ++ js) ≡ total new old ks + total new old js
total-append new old [] js = omega arith
total-append new old (k ∷ ks) js = omega (arith, total-append new old ks js)

length-keys : (m : Signals) → length (keys m) ≡ length m
length-keys [] = refl
length-keys ((k, v) ∷ m) = ap suc (length-keys m)

-- Where in both scans each access point stands once and with a signal other than 0 (an access point
-- whose signal is missing may be kept with 0, and is not covered), a later scan is posted exactly when
-- it holds two access points or more and the differences to the scan last posted, summed over the
-- access points of either, exceed 20 for each of them; it is then the scan that counts as posted, and
-- otherwise nothing changes.
pub parse_wifi_data_later :
    (old new : Signals)
    → IsScan old
    → IsScan new
    → parse_wifi_data (record { current = some new; last = some old }) ≡ (
        if not (ltb (length new) 2)
          && ltb (20 * length (either new old)) (total new old (either new old))
        then (record { current = some new; last = some new }, some new)
        else (record { current = some new; last = some old }, none))
unfolding parse_wifi_data
parse_wifi_data_later old new o n = ground (arith, sums, counts)
  where
    gone_of :
        (vanished_changes new old ≡ total new old (gone new old))
        × (vanished_count new old ≡ length (gone new old))
    gone_of = vanished-total new old old n (Says-self old o)

    sums : new_changes old new + vanished_changes new old ≡ total new old (either new old)
    sums = omega (
      arith,
      new_changes-total new old new (Says-self new n),
      gone_of,
      total-append new old (keys new) (gone new old),
    )

    counts : length new + vanished_count new old ≡ length (either new old)
    counts = omega (arith, length-keys new, gone_of, length-append (keys new) (gone new old))

abs-sub_self : (a : ℤ) → abs (a -ℤ a) ≡ 0
unfolding ◌-ℤ◌
abs-sub_self a = ground arith

total_self : (m : Signals) (ks : List String) → total m m ks ≡ 0
total_self m [] = refl
total_self m (k ∷ ks) = omega (arith, abs-sub_self (lookup k m), total_self m ks)

-- Against itself no scan has moved.
still :
    (new : Signals)
    → IsScan new
    → parse_wifi_data (record { current = some new; last = some new })
      ≡ (record { current = some new; last = some new }, none)
still new n = parse_wifi_data_later new new n n ∙ ground (arith, total_self new (either new new))

-- A scan is posted once: asked again with no new scan in between, the handler posts nothing.
parse_wifi_data_again :
    (new : Signals) (last : Option Signals)
    → IsScan new
    → (parse_wifi_data (parse_wifi_data (record { current = some new; last = last })).0).1 ≡ none
unfolding parse_wifi_data
parse_wifi_data_again new none n = ground (arith, still new n)
parse_wifi_data_again new (some old) n = ground (arith, still new n)
