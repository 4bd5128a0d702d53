-- ===== src/Network/Provider/Replies.antt =====
-- handleResponse and parseHTTPResponse of NetworkPositionProvider.cpp. `zero` is 0.0 and `feq` the
-- comparison of doubles.
use com_webos_service_locati.Base.{
  Bool, not, ◌&&◌, Option, none, some, List, [], ◌∷◌, if◌then◌else◌,
}
use com_webos_service_locati.Base.Int.{ℤ, pos, eq_ℤ}
use com_webos_service_locati.Errors.{error_none, error_network_error}
use com_webos_service_locati.Network.Provider.{
  PositionData, Provider, Env, Effect, clear_transaction, store_position, report, current_backend,
}

-- The parsed body of a reply: "error" with its "code", "location" with "lat" and "lng",
-- "accuracy"; a number that is not there or no number is `none`.
pub record Body (F : Type 0) : Type 0 where
  pub error : Option (Option ℤ)
  pub lat : Option F
  pub lng : Option F
  pub accuracy : Option F

pub record Task (F : Type 0) : Type 0 where
  -- HTTP_STATUS_CODE_SUCCESS
  pub http_ok : Bool
  -- `none`: no body, or one that does not parse.
  pub body : Option (Body F)

-- What parseHTTPResponse returns and writes.
pub record Parsed (F : Type 0) : Type 0 where
  pub error_code : ℤ
  pub latitude : F
  pub longitude : F
  pub accuracy : F

-- ERROR_NO_DATA
abbrev pub error_no_data : ℤ
error_no_data = pos 3

abbrev pub or_else {ℓ} : {A : Type ℓ} → Option A → A → A
or_else none a = a
or_else (some b) a = b

module _ {F : Type 0} (zero : F) where
  parse_location : Option F → Option F → Option F → Parsed F
  parse_location none lng accuracy = record {
    error_code = error_no_data;
    latitude = zero;
    longitude = zero;
    accuracy = zero;
  }
  parse_location (some lat) none accuracy = record {
    error_code = error_no_data;
    latitude = lat;
    longitude = zero;
    accuracy = zero;
  }
  parse_location (some lat) (some lng) accuracy = record {
    error_code = pos 0;
    latitude = lat;
    longitude = lng;
    accuracy = or_else accuracy zero;
  }

  unfoldable pub parse_http_response : Option (Body F) → Parsed F
  unfolding parse_location
  parse_http_response none = record {
    error_code = error_no_data;
    latitude = zero;
    longitude = zero;
    accuracy = zero;
  }
  parse_http_response (some b) = elim b.error [
    | some code ↦ record {
      error_code = or_else code error_no_data;
      latitude = zero;
      longitude = zero;
      accuracy = zero;
    }
    | none ↦ parse_location b.lat b.lng b.accuracy
  ]

module _ {F : Type 0} (zero : F) (feq : F → F → Bool) where
  same_fix : PositionData F → Parsed F → Bool
  same_fix d r =
      feq r.latitude d.last_latitude
      && (feq r.longitude d.last_longitude && feq r.accuracy d.last_accuracy)

  -- A new position: kept with its server and time, stored, and reported.
  new_fix : Env → Parsed F → Provider F → Provider F × List (Effect F)
  unfolding current_backend
  new_fix env r p =
      let (p', b) = current_backend env p in
      (
        record p' {
          position = record (p'.position) {
            last_latitude = r.latitude;
            last_longitude = r.longitude;
            last_accuracy = r.accuracy;
            last_time_stamp = env.now;
          };
          fix_backend = b;
        },
        clear_transaction
            ∷ store_position env.now r.latitude r.longitude r.accuracy
            ∷ (if p.has_callback
                then report r.latitude r.longitude r.accuracy env.now error_none ∷ []
                else []),
      )

  located : Env → Parsed F → Provider F → Provider F × List (Effect F)
  unfolding same_fix new_fix
  located env r p =
      if not (eq_ℤ r.error_code (pos 0))
      then (p, clear_transaction ∷ [])
      else if same_fix p.position r
      then (
        record p { position = record (p.position) { last_time_stamp = env.now } },
        clear_transaction ∷ [],
      )
      else new_fix env r p

  -- `none` is the null task.
  unfoldable pub handle_response : Env → Option (Task F) → Provider F → Provider F × List (Effect F)
  unfolding located parse_http_response
  handle_response env none p = (p, [])
  handle_response env (some t) p =
      if t.http_ok then located env (parse_http_response zero t.body) p else (
        p,
        clear_transaction
            ∷ (if p.has_callback
                then report zero zero zero env.now error_network_error ∷ []
                else []),
      )
