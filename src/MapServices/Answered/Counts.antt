-- ===== src/MapServices/Answered/Counts.antt =====
-- Tables of tasks, and the messages that wait in them (NetworkRequestManager.cpp).
use com_webos_service_locati.Base.{ℕ, ◌+◌, ◌≡◌, refl, none, some, List, [], ◌∷◌, map, arith}
use com_webos_service_locati.MapServices.Answered.{one, waiting, tag}
use com_webos_service_locati.MapServices.Manager.{map_services, put, erase, find}

pub put-tag :
    (t m : ℕ) (l : List (ℕ × ℕ)) → map tag (put t m l) ≡ put t (some map_services) (map tag l)
unfolding put
put-tag t m [] = refl
put-tag t m ((u, n) ∷ l) = ground (arith, put-tag t m l)

pub erase-tag : (t : ℕ) (l : List (ℕ × ℕ)) → map tag (erase t l) ≡ erase t (map tag l)
unfolding erase
erase-tag t [] = refl
erase-tag t ((u, n) ∷ l) = ground (arith, erase-tag t l)

pub find-tag :
    (t m : ℕ) (l : List (ℕ × ℕ)) → find t l ≡ some m → find t (map tag l) ≡ some (some map_services)
unfolding find
find-tag t m [] h = ground arith
find-tag t m ((u, n) ∷ l) h = ground (arith, find-tag t m l)

pub erase-put : (t m : ℕ) (l : List (ℕ × ℕ)) → find t l ≡ none → erase t (put t m l) ≡ l
unfolding find erase put
erase-put t m [] h = ground arith
erase-put t m ((u, n) ∷ l) h = ground (arith, erase-put t m l)

pub waiting-put :
    (t m k : ℕ) (l : List (ℕ × ℕ)) → find t l ≡ none → waiting k (put t m l) ≡ waiting k l + one m k
unfolding find put
waiting-put t m k [] h = ground arith
waiting-put t m k ((u, n) ∷ l) h = ground (arith, waiting-put t m k l)

pub waiting-erase :
    (t m k : ℕ) (l : List (ℕ × ℕ))
    → find t l ≡ some m
    → waiting k l ≡ waiting k (erase t l) + one m k
unfolding find erase
waiting-erase t m k [] h = ground arith
waiting-erase t m k ((u, n) ∷ l) h = ground (arith, waiting-erase t m k l)
