-- ===== src/MapServices/Manager.antt =====
-- The pending transactions: src/utils/NetworkRequestManager.cpp. A task is named by its pointer; the
-- answers of loc-http are inputs. The table is an association list, whose order does not matter.
use com_webos_service_locati.Base.{
  ℕ, Bool, true, false, not, Option, none, some, List, [], ◌∷◌, ◌==◌, if◌then◌else◌,
}
use com_webos_service_locati.Errors.{ErrorCode, error_none, error_network_error, error_mutlithread}

pub data Client : Type 0 where
  map_services network_provider : Client

pub record Manager : Type 0 where
  pub active : Bool
  -- httpRequestList
  pub requests : List (ℕ × Option Client)

-- What loc-http answers: the task that it creates, if any, and whether the connection is prepared
-- and the request taken.
pub record Http : Type 0 where
  pub created : Option ℕ
  pub prepares : Bool
  pub takes : Bool

pub data HttpEffect : Type 0 where
  start_http stop_http : HttpEffect
  create_task destroy_task remove_request : ℕ → HttpEffect
  add_request : ℕ → HttpEffect

pub init : Manager → Manager × List HttpEffect
init n = (record n { active = true }, start_http ∷ [])

pub de_init : Manager → Manager × List HttpEffect
de_init n = if n.active then (record n { active = false }, stop_http ∷ []) else (n, [])

module _ {A : Type 0} where
  -- `map[key] = value`
  unfoldable pub put : ℕ → A → List (ℕ × A) → List (ℕ × A)
  put t c [] = (t, c) ∷ []
  put t c ((u, d) ∷ l) = if u == t then (t, c) ∷ l else (u, d) ∷ put t c l

  unfoldable pub erase : ℕ → List (ℕ × A) → List (ℕ × A)
  erase t [] = []
  erase t ((u, d) ∷ l) = if u == t then l else (u, d) ∷ erase t l

  unfoldable pub find : ℕ → List (ℕ × A) → Option A
  find t [] = none
  find t ((u, d) ∷ l) = if u == t then some d else find t l

unfoldable pub initiate_transaction :
    Http → Client → Manager → Manager × ErrorCode × List HttpEffect
initiate_transaction h client n =
    if not n.active then (n, error_mutlithread, []) else elim h.created [
      | none ↦ (n, error_network_error, [])
      | some t ↦
          if not h.prepares
          then (n, error_network_error, create_task t ∷ destroy_task t ∷ [])
          else if not h.takes
          then (n, error_network_error, create_task t ∷ add_request t ∷ destroy_task t ∷ [])
          else (
            record n { requests = put t (some client) n.requests },
            error_none,
            create_task t ∷ add_request t ∷ [],
          )
    ]

unfoldable pub clear_transaction : ℕ → Manager → Manager × List HttpEffect
clear_transaction t n =
    (record n { requests = erase t n.requests }, remove_request t ∷ destroy_task t ∷ [])

-- `httpRequestList[task]`, which enters a null client where there is none.
unfoldable pub client_of : ℕ → Manager → Manager × Option Client
client_of t n = elim (find t n.requests) [
  | some c ↦ (n, c)
  | none ↦ (record n { requests = put t none n.requests }, none)
]
