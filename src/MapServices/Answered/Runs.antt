-- ===== src/MapServices/Answered/Runs.antt =====
-- Every geocoding request is answered once, over all runs (LocationService.cpp, MapServicesImpl.cpp,
-- NetworkRequestManager.cpp).
use com_webos_service_locati.Base.{ℕ, ◌+◌, ◌≡◌, refl, List, [], ◌∷◌, ◌++◌, map, arith}
use com_webos_service_locati.MapServices.Answered.{
  one, count, replies, refs, unrefs, waiting, tag, World, Event, asks_reverse, asks_geocode,
  responds, connects, after, step, Allowed, Run, start, next, Accounted,
}
use com_webos_service_locati.MapServices.Answered.Steps.{request-Accounted, response-Accounted}
use com_webos_service_locati.MapServices.Geocode.{
  Geocoding, Effect, reply, ref_message, unref_message, Outside, get_reverse_location,
  get_geo_code_location,
}

replies-append : (m : ℕ) (es fs : List Effect) → replies m (es ++ fs) ≡ replies m es + replies m fs
replies-append m [] fs = omega arith
replies-append m (reply n r ∷ es) fs = omega (arith, replies-append m es fs)
replies-append m (e ∷ es) fs = replies-append m es fs

refs-append : (m : ℕ) (es fs : List Effect) → refs m (es ++ fs) ≡ refs m es + refs m fs
refs-append m [] fs = omega arith
refs-append m (ref_message n ∷ es) fs = omega (arith, refs-append m es fs)
refs-append m (e ∷ es) fs = refs-append m es fs

unrefs-append : (m : ℕ) (es fs : List Effect) → unrefs m (es ++ fs) ≡ unrefs m es + unrefs m fs
unrefs-append m [] fs = omega arith
unrefs-append m (unref_message n ∷ es) fs = omega (arith, unrefs-append m es fs)
unrefs-append m (e ∷ es) fs = unrefs-append m es fs

-- The books of a world.
record Books (w : World) : Type 0 where
  tasks_listed : w.geo.manager.requests ≡ map tag w.held
  all_answered : (m : ℕ) → replies m w.effects + waiting m w.held ≡ count m w.asked
  all_balanced : (m : ℕ) → refs m w.effects ≡ unrefs m w.effects + waiting m w.held

after-Books :
    (new : ℕ → ℕ) (m0 : ℕ) (asked : List ℕ) (w : World) (r : Geocoding × List Effect)
    → ((m : ℕ) → count m asked ≡ count m w.asked + new m)
    → Books w
    → Accounted new m0 w.held r.0 r.1
    → Books (after m0 asked w r)
after-Books new m0 asked w (g, es) grown b a = record {
  tasks_listed = a.table_kept;
  all_answered =
      λ m. omega (arith, replies-append m w.effects es, a.answered m, b.all_answered m, grown m);
  all_balanced = λ m. omega (
    arith,
    refs-append m w.effects es,
    unrefs-append m w.effects es,
    a.balanced m,
    b.all_balanced m,
  );
}

step-Books :
    {F : Type 0} (o : Outside F) (e : Event F) (w : World)
    → Allowed e w
    → Books w
    → Books (step o e w)
unfolding step get_reverse_location get_geo_code_location
step-Books o (asks_reverse found m r) w fresh b =
    after-Books (one m) m (m ∷ w.asked) w _ (λ k. omega arith) b
      (request-Accounted o _ found m _ w.geo w.held fresh b.tasks_listed)
step-Books o (asks_geocode found m r) w fresh b =
    after-Books (one m) m (m ∷ w.asked) w _ (λ k. omega arith) b
      (request-Accounted o _ found m _ w.geo w.held fresh b.tasks_listed)
step-Books o (responds t) w (here, known, body) b =
    after-Books (λ k. 0) t.message w.asked w _ (λ k. omega arith) b
      (response-Accounted o t w.geo w.held here known body b.tasks_listed)
step-Books o (connects c) w a b = record {
  tasks_listed = b.tasks_listed;
  all_answered = b.all_answered;
  all_balanced = b.all_balanced;
}

run-Books : {F : Type 0} (o : Outside F) (w : World) → Run o w → Books w
run-Books o _ (start g empty) = record {
  tasks_listed = empty;
  all_answered = λ m. refl;
  all_balanced = λ m. refl;
}
run-Books o _ (next e {w} run a) = step-Books o e w a (run-Books o w run)

-- In every run of geocoding requests, answers of loc-http and changes of the connection, in which no
-- response with status 200 is without a body, each new task is none of those that are held, and no
-- other client puts tasks into the table of the manager: each message has as many replies, with the tasks of it that loc-http still holds, as it
-- made requests; it is referenced exactly while a task of it is held; and the table of the manager
-- lists exactly the tasks that are held.
pub run-answered :
    {F : Type 0} (o : Outside F) (w : World) (m : ℕ)
    → Run o w
    → (replies m w.effects + waiting m w.held ≡ count m w.asked)
      × (refs m w.effects ≡ unrefs m w.effects + waiting m w.held)
      × (w.geo.manager.requests ≡ map tag w.held)
run-answered o w m run =
    let b = run-Books o w run in (b.all_answered m, b.all_balanced m, b.tasks_listed)
