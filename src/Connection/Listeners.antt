-- ===== src/Connection/Listeners.antt =====
-- Who hears a notice (src/lunaIpc/ConnectionStateObserver.cpp).
use com_webos_service_locati.Base.{
  ℕ, suc, ◌-◌, ◌≡◌, refl, ap, ◌∙◌, Bool, true, false, Option, none, some, List, [], ◌∷◌, ◌++◌, map,
  ◌==◌, ltb, if◌then◌else◌, arith,
}
use com_webos_service_locati.Connection.Observer.{
  Notice, has, without, register_listener, unregister_listener, notify_all,
}

-- RegisterListener and UnregisterListener.
data Op : Type 0 where
  registers unregisters : Option ℕ → Op

abbrev apply : List Op → List ℕ → List ℕ
apply [] ls = ls
apply (registers l ∷ ops) ls = apply ops (register_listener l ls)
apply (unregisters l ∷ ops) ls = apply ops (unregister_listener l ls)

-- Whether the last call for the listener was a registration.
abbrev is_in : ℕ → Bool → List Op → Bool
is_in l b [] = b
is_in l b (registers none ∷ ops) = is_in l b ops
is_in l b (registers (some k) ∷ ops) = is_in l (if l == k then true else b) ops
is_in l b (unregisters none ∷ ops) = is_in l b ops
is_in l b (unregisters (some k) ∷ ops) = is_in l (if l == k then false else b) ops

-- What one listener hears.
abbrev heard : ℕ → List (ℕ × Notice) → List Notice
heard l [] = []
heard l ((k, n) ∷ rest) = if l == k then n ∷ heard l rest else heard l rest

times : ℕ → List ℕ → ℕ
times l [] = 0
times l (k ∷ ks) = let rest = times l ks in if l == k then suc rest else rest

abbrev one_if : Bool → ℕ
one_if b = if b then 1 else 0

has-times : (l : ℕ) (ls : List ℕ) → has l ls ≡ ltb 0 (times l ls)
unfolding times
has-times l [] = refl
has-times l (k ∷ ks) = ground (arith, has-times l ks)

times-without :
    (l k : ℕ) (ls : List ℕ)
    → times l (without k ls) ≡ (if l == k then times l ls - 1 else times l ls)
unfolding times
times-without l k [] = ground arith
times-without l k (j ∷ js) = ground (arith, times-without l k js)

times-register :
    (l : ℕ) (b : Bool) (k : ℕ) (ls : List ℕ)
    → times l ls ≡ one_if b
    → times l (register_listener (some k) ls) ≡ one_if (if l == k then true else b)
unfolding register_listener times
times-register l b k ls h = ground (arith, has-times k ls)

times-unregister :
    (l : ℕ) (b : Bool) (k : ℕ) (ls : List ℕ)
    → times l ls ≡ one_if b
    → times l (unregister_listener (some k) ls) ≡ one_if (if l == k then false else b)
unfolding unregister_listener
times-unregister l b k ls h = ground (arith, times-without l k ls)

times-apply :
    (l : ℕ) (ops : List Op) (b : Bool) (ls : List ℕ)
    → times l ls ≡ one_if b
    → times l (apply ops ls) ≡ one_if (is_in l b ops)
unfolding register_listener unregister_listener
times-apply l [] b ls h = h
times-apply l (registers none ∷ ops) b ls h = times-apply l ops b ls h
times-apply l (registers (some k) ∷ ops) b ls h =
    times-apply l ops (if l == k then true else b) (register_listener (some k) ls)
      (times-register l b k ls h)
times-apply l (unregisters none ∷ ops) b ls h = times-apply l ops b ls h
times-apply l (unregisters (some k) ∷ ops) b ls h =
    times-apply l ops (if l == k then false else b) (unregister_listener (some k) ls)
      (times-unregister l b k ls h)

heard-none :
    (l : ℕ) (n : Notice) (ls : List ℕ) (rest : List (ℕ × Notice))
    → times l ls ≡ 0
    → heard l (map (λ k. (k, n)) ls ++ rest) ≡ heard l rest
unfolding times
heard-none l n [] rest h = refl
heard-none l n (k ∷ ks) rest h = ground (arith, heard-none l n ks rest)

heard-one :
    (l : ℕ) (n : Notice) (ls : List ℕ) (rest : List (ℕ × Notice))
    → times l ls ≡ 1
    → heard l (map (λ k. (k, n)) ls ++ rest) ≡ n ∷ heard l rest
unfolding times
heard-one l n [] rest h = ground arith
heard-one l n (k ∷ ks) rest h = ground (arith, heard-one l n ks rest, heard-none l n ks rest)

heard-all :
    (l : ℕ) (b : Bool) (ls : List ℕ) (ns : List Notice)
    → times l ls ≡ one_if b
    → heard l (notify_all ls ns) ≡ (if b then ns else [])
unfolding notify_all
heard-all l true ls [] h = refl
heard-all l false ls [] h = refl
heard-all l true ls (n ∷ ns) h =
    heard-one l n ls (notify_all ls ns) h ∙ ap (λ ms. n ∷ ms) (heard-all l true ls ns h)
heard-all l false ls (n ∷ ns) h = heard-none l n ls (notify_all ls ns) h ∙ heard-all l false ls ns h

empty-times : (l : ℕ) → times l [] ≡ 0
unfolding times
empty-times l = refl

-- After any calls of RegisterListener and UnregisterListener, with null pointers and repeated ones
-- among them, a listener whose last call registered it hears every notice of a callback exactly
-- once and in order, and any other hears none.
notify_all-heard :
    (ops : List Op) (l : ℕ) (ns : List Notice)
    → heard l (notify_all (apply ops []) ns) ≡ (if is_in l false ops then ns else [])
notify_all-heard ops l ns =
    heard-all l (is_in l false ops) (apply ops []) ns (times-apply l ops false [] (empty-times l))
