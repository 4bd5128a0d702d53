-- ===== src/Network/Wifi.antt =====
-- When a scan is posted: NetworkPositionProvider::parseWifiData and onUpdateWifiData
-- (src/handler/position/network/NetworkPositionProvider.cpp). A GHashTable of access points is an
-- association list in the order of its iterator; a signal is an `int`, stored as a pointer, so a
-- signal of 0 reads back as a missing entry. The average change is compared as the product that
-- the quotient of two small integers in a `double` decides alike; sums do not overflow.
pub mod Change
use text.Mathlib.Text.{◌==◌ as str_eq}
use com_webos_service_locati.Base.{
  ℕ, ◌+◌, ◌*◌, Bool, true, false, ◌||◌, Option, none, some, String, List, [], ◌∷◌, length, ltb,
  if◌then◌else◌,
}
use com_webos_service_locati.Base.Int.{ℤ, pos, ◌-ℤ◌, abs}

abbrev pub Signals : Type 0
Signals = List (String × ℤ)

-- `g_hash_table_lookup`, with 0 for a null pointer.
pub lookup : String → Signals → ℤ
lookup k [] = pos 0
lookup k ((j, v) ∷ m) = if str_eq j k then v else lookup k m

-- The pointer as a condition.
abbrev pub is_null : ℤ → Bool
is_null (pos Prim.Native.Nat.zero) = true
is_null _ = false

abbrev pub signal_change_threshold : ℕ
signal_change_threshold = 20

-- The change of one access point of the new scan.
pub change : Signals → ℤ → String → ℕ
change old new key = if is_null (lookup key old) then abs new else abs (new -ℤ lookup key old)

-- The first loop: over the new scan.
pub new_changes : Signals → Signals → ℕ
unfolding change
new_changes old [] = 0
new_changes old ((key, new) ∷ rest) = change old new key + new_changes old rest

-- The second loop: access points of the last posted scan that are gone, their signals and number.
pub vanished_changes : Signals → Signals → ℕ
vanished_changes new [] = 0
vanished_changes new ((key, old) ∷ rest) =
    (if is_null (lookup key new) then abs old else 0) + vanished_changes new rest

pub vanished_count : Signals → Signals → ℕ
vanished_count new [] = 0
vanished_count new ((key, old) ∷ rest) =
    (if is_null (lookup key new) then 1 else 0) + vanished_count new rest

-- `avgSignalChange > SIGNAL_CHANGE_THRESHOLD`
pub moved : Signals → Signals → Bool
unfolding new_changes vanished_changes vanished_count
moved old new =
    ltb (signal_change_threshold * (length new + vanished_count new old))
      (new_changes old new + vanished_changes new old)

-- The scan that is kept and the one last posted: `wifiAccessPointsList` and `lastAps`.
pub record Scans : Type 0 where
  pub current : Option Signals
  pub last : Option Signals

-- The result is the list that is put under "wifiAccessPoints", if one is.
compare_scans : Option Signals → Option Signals → Signals → Scans × Option Signals
unfolding moved
compare_scans current none new = (record { current = current; last = some new }, some new)
compare_scans current (some old) new =
    if moved old new
    then (record { current = current; last = some new }, some new)
    else (record { current = current; last = some old }, none)

parse_current : Scans → Option Signals → Scans × Option Signals
unfolding compare_scans
parse_current s none = (s, none)
parse_current s (some new) =
    if ltb (length new) 2 then (s, none) else compare_scans s.current s.last new

pub parse_wifi_data : Scans → Scans × Option Signals
unfolding parse_current
parse_wifi_data s = parse_current s s.current

-- The part of onUpdateWifiData before it triggers a query: the new scan replaces the kept one; a
-- null table leaves it empty.
pub keep_scan : Option Signals → Scans → Scans
keep_scan none s = record s { current = some [] }
keep_scan (some new) s = record s { current = some new }
