-- ===== src/MapServices/Answered/Steps.antt =====
-- What each handler does with the messages and the tasks (LocationService.cpp, MapServicesImpl.cpp).
use mathlib.Core.Path.{subst}
use com_webos_service_locati.Base.{
  ℕ, ◌≡◌, refl, ap, ◌∙◌, sym, Bool, true, false, not, Option, none, some, List, [], ◌∷◌, ◌++◌, map,
  codes, if◌then◌else◌, arith,
}
use com_webos_service_locati.Errors.{
  ErrorCode, LocationError, success, invalid_input, data_connection_off,
}
use com_webos_service_locati.MapServices.Answered.{
  one, waiting, tag, Fresh, Accounted, is_geocoding, has_body,
}
use com_webos_service_locati.MapServices.Answered.Counts.{
  put-tag, erase-tag, find-tag, erase-put, waiting-put, waiting-erase,
}
use com_webos_service_locati.MapServices.Geocode.{
  Geocoding, Effect, reply, Reply, error_reply, Outside, post, ask_services, lbs_post_query, taken,
  with_conf, request, Found, custom_error, HttpReqTask, handle_data_cb, dispatch, handle_response,
  called, call_back, geocoding_reply, http, unref_message, Method, geocode_method, reverse_method,
  other_method,
}
use com_webos_service_locati.MapServices.Manager.{
  Manager, Http, Client, map_services, put, erase, find, initiate_transaction, clear_transaction,
  client_of,
}
use com_webos_service_locati.MapServices.Query.{format_url}
use com_webos_service_locati.MapServices.Wsp.{
  WspConf, FeatureType, is_supported, is_empty, get_url, read_wsp_configuration,
}

if-holds : {A : Type 0} (P : A → Type 0) (c : Bool) (x y : A) → P x → P y → P (if c then x else y)
if-holds P true x y p q = p
if-holds P false x y p q = q

-- A task that is created and destroyed at once.
undone :
    (m t k : ℕ) (held : List (ℕ × ℕ))
    → find t held ≡ none
    → waiting k (erase t (put t m held)) ≡ waiting k held
undone m t k held e = ap (waiting k) (erase-put t m held e)

module _ (m : ℕ) (held : List (ℕ × ℕ)) (g : Geocoding) where
  Good : Manager × ErrorCode × List Effect → Type 0
  Good r = Accounted (one m) m held (record g { manager = r.0 }) (r.2 ++ taken m r.1)

  refused-Good :
      (n : Manager) (e : ErrorCode)
      → taken m e ≡ taken m ErrorCode.error_network_error
      → n.requests ≡ map tag held
      → Good (n, e, [])
  unfolding Good taken
  refused-Good n e h table =
      rw h record { table_kept = table; answered = λ k. omega arith; balanced = λ k. omega arith }

  posted-Good :
      (created : Option ℕ) (prepares takes active : Bool) (requests : List (ℕ × Option Client))
      (url : List ℕ)
      → Fresh created held
      → requests ≡ map tag held
      → Good (
          lbs_post_query
            (record { created = created; prepares = prepares; takes = takes })
            url
            (record { active = active; requests = requests }))
  unfolding Good lbs_post_query initiate_transaction taken
  posted-Good created prepares takes false requests url fresh table = record {
    table_kept = table;
    answered = λ k. omega arith;
    balanced = λ k. omega arith;
  }
  posted-Good none prepares takes true requests url fresh table = record {
    table_kept = table;
    answered = λ k. omega arith;
    balanced = λ k. omega arith;
  }
  posted-Good (some t) false takes true requests url fresh table = record {
    table_kept = table ∙ ap (map tag) (sym (erase-put t m held fresh));
    answered = λ k. omega (arith, undone m t k held fresh);
    balanced = λ k. omega (arith, undone m t k held fresh);
  }
  posted-Good (some t) true false true requests url fresh table = record {
    table_kept = table ∙ ap (map tag) (sym (erase-put t m held fresh));
    answered = λ k. omega (arith, undone m t k held fresh);
    balanced = λ k. omega (arith, undone m t k held fresh);
  }
  posted-Good (some t) true true true requests url fresh table = record {
    table_kept = ap (put t (some map_services)) table ∙ sym (put-tag t m held);
    answered = λ k. omega (arith, waiting-put t m k held fresh);
    balanced = λ k. omega (arith, waiting-put t m k held fresh);
  }

  asked-Good :
      {F : Type 0} (o : Outside F) (f : FeatureType) (h : Http) (geo : List ℕ) (c : Option WspConf)
      → Fresh h.created held
      → g.manager.requests ≡ map tag held
      → Good (ask_services o f h geo c g.manager)
  unfolding ask_services taken
  asked-Good o f h geo none fresh table = refused-Good g.manager _ refl table
  asked-Good o f h geo (some c) fresh table =
      let n = g.manager in
      let url = format_url o.decode o.signs geo (codes (get_url f c)) (codes c.key) in
      if-holds Good (not (is_supported f c)) _ _ (refused-Good n _ refl table) (
        if-holds Good (is_empty c.key) _ _ (refused-Good n _ refl table)
          (posted-Good h.created h.prepares h.takes n.active n.requests url fresh table))

module _ {F : Type 0} (o : Outside F) (f : FeatureType) (h : Http) (m : ℕ)
    (held : List (ℕ × ℕ)) where
  replied-Accounted :
      (g : Geocoding) (r : Reply)
      → g.manager.requests ≡ map tag held
      → Accounted (one m) m held g (reply m r ∷ [])
  replied-Accounted g r table = record {
    table_kept = table;
    answered = λ k. omega arith;
    balanced = λ k. omega arith;
  }

  text-Accounted :
      (geo : Option (List ℕ)) (g : Geocoding)
      → Fresh h.created held
      → g.manager.requests ≡ map tag held
      → let r = elim geo as (λ x. Geocoding × List Effect) [
        | none ↦ (g, reply m (error_reply invalid_input) ∷ [])
        | some text ↦ post o f h m text g
      ] in
        Accounted (one m) m held r.0 r.1
  unfolding post Good
  text-Accounted none g fresh table = replied-Accounted g _ table
  text-Accounted (some text) g fresh table = asked-Good m held g o f h text g.conf_file fresh table

  conf-Accounted :
      (geo : Option (List ℕ)) (g : Geocoding) (e : LocationError)
      → Fresh h.created held
      → g.manager.requests ≡ map tag held
      → Accounted (one m) m held (with_conf o f h m geo g e).0 (with_conf o f h m geo g e).1
  unfolding with_conf
  conf-Accounted geo g success fresh table =
      if-holds (λ (r : Geocoding × List Effect). Accounted (one m) m held r.0 r.1) (not g.internet)
        _ _ (replied-Accounted g (error_reply data_connection_off) table)
        (text-Accounted geo g fresh table)
  conf-Accounted geo g e fresh table = replied-Accounted g _ table

-- A request accounts for its message.
pub request-Accounted :
    {F : Type 0} (o : Outside F) (f : FeatureType) (found : Found) (m : ℕ) (geo : Option (List ℕ))
    (g : Geocoding) (held : List (ℕ × ℕ))
    → Fresh found.answers.created held
    → g.manager.requests ≡ map tag held
    → let r = request o f found m geo g in Accounted (one m) m held r.0 r.1
unfolding request
request-Accounted o f found m geo g held fresh table =
    let (conf, error) = read_wsp_configuration found.root g.conf_file in
    if-holds (λ (r : Geocoding × List Effect). Accounted (one m) m held r.0 r.1) (not found.valid) _
      _ (replied-Accounted o f found.answers m held g (custom_error invalid_input) table)
      (conf-Accounted o f found.answers m held geo (record g { conf_file = conf }) error fresh
        table)

one_reply :
    {F : Type 0} (o : Outside F) (internet : Bool) (t m : ℕ) (method : Method) (succeeded : Bool)
    (body : Option (List ℕ))
    → is_geocoding method ≡ true
    → has_body succeeded body ≡ true
    → (r : Reply) × (called o internet (record {
      task = t;
      message = m;
      method = method;
      succeeded = succeeded;
      response_data = body;
    })
        ≡ reply m r ∷ unref_message m ∷ [])
unfolding called call_back geocoding_reply
one_reply o internet t m other_method succeeded body g h = absurd (ground arith)
one_reply o internet t m geocode_method true none g h = absurd (ground arith)
one_reply o internet t m geocode_method true (some text) g h = (_, refl)
one_reply o internet t m geocode_method false body g h = (_, refl)
one_reply o internet t m reverse_method true none g h = absurd (ground arith)
one_reply o internet t m reverse_method true (some text) g h = (_, refl)
one_reply o internet t m reverse_method false body g h = (_, refl)

found_client :
    (t : ℕ) (n : Manager) (c : Option Client) → find t n.requests ≡ some c → client_of t n ≡ (n, c)
unfolding client_of
found_client t n c e = rw (e, client_of) refl

cleared-Accounted :
    (t m : ℕ) (g : Geocoding) (held : List (ℕ × ℕ)) (r : Reply)
    → find t held ≡ some m
    → g.manager.requests ≡ map tag held
    → Accounted
        (λ k. 0)
        m
        held
        (record g { manager = (clear_transaction t g.manager).0 })
        (map http (clear_transaction t g.manager).1 ++ (reply m r ∷ unref_message m ∷ []))
unfolding clear_transaction
cleared-Accounted t m g held r here table = record {
  table_kept = ap (erase t) table ∙ sym (erase-tag t held);
  answered = λ k. omega (arith, waiting-erase t m k held here);
  balanced = λ k. omega (arith, waiting-erase t m k held here);
}

-- A response accounts for the message of its task.
pub response-Accounted :
    {F : Type 0} (o : Outside F) (t : HttpReqTask) (g : Geocoding) (held : List (ℕ × ℕ))
    → find t.task held ≡ some t.message
    → is_geocoding t.method ≡ true
    → has_body t.succeeded t.response_data ≡ true
    → g.manager.requests ≡ map tag held
    → let r = handle_data_cb o t g in Accounted (λ k. 0) t.message held r.0 r.1
unfolding handle_data_cb dispatch handle_response
response-Accounted o t g held here known body table =
    let e =
      found_client t.task g.manager (some map_services)
        (ap (find t.task) table ∙ find-tag t.task t.message held here) in
    let (r, p) =
      one_reply o g.internet t.task t.message t.method t.succeeded t.response_data known body in
    subst (λ c. Accounted (λ k. 0) t.message held (dispatch o t g c).0 (dispatch o t g c).1) (sym e)
      (rw p (cleared-Accounted t.task t.message g held r here table))
