-- ===== src/Session.antt =====
-- request_session.py: `RequestsSession.request`, which gives requests their defaults and answers for servers
-- that cannot be reached. The library requests, with the retries of its adapter, is the function `send`.
pub mod Reached
use greenwave.Prelude.{String, Bool, true, false, List, [], ◌∷◌, Option, none, some, if◌then◌else◌}
use greenwave.Outcome.{Error, Result, ok, raise}
use greenwave.Json.{Json, str, obj, Object, empty, entry, has_key, assign}
use greenwave.Resources.{Response}

-- How `requests.Session.request` ends: with a response, or with an exception of these classes, or another.
pub data Sent {ℓ} (A : Type ℓ) : Type ℓ where
  responded : Response A → Sent A
  connect_timeout retry_error connection_error proxy_error ssl_error : String → Sent A
  raised : Error → Sent A

-- `REQUESTS_TIMEOUT` and `REQUESTS_VERIFY`, where there is an application.
pub record Defaults : Type 0 where
  pub timeout : Json
  pub verify : Json

-- `kwargs.setdefault(key, value)`
unfoldable pub setdefault : String → Json → Object → Object
setdefault key value kwargs = if has_key key kwargs then kwargs else assign key value kwargs

unfoldable pub with_defaults : Option Defaults → Object → Object
unfolding setdefault
with_defaults app kwargs =
    let with_headers =
      setdefault "headers" (obj (entry "Content-Type" (str "application/json") empty)) kwargs in
    elim app [
      | none ↦ with_headers
      | some defaults ↦
          setdefault "verify" defaults.verify (setdefault "timeout" defaults.timeout with_headers)
    ]

module _ {ℓ} {A : Type ℓ} (dumps : String → String) (no_payload : A) where
  -- `ErrorResponse`; `dumps` gives its text, and it has no data that are read.
  unfoldable pub error_response : String → String → String → Response A
  error_response status_code error_message url = record {
    is_ok = false;
    status_code = status_code;
    url = url;
    text = dumps error_message;
    payload = no_payload;
  }

  -- The `except` clauses.
  unfoldable pub or_error_response : String → Sent A → Result (Response A)
  or_error_response url (responded response) = ok response
  or_error_response url (connect_timeout e) = ok (error_response "504" e url)
  or_error_response url (retry_error e) = ok (error_response "504" e url)
  or_error_response url (connection_error e) = ok (error_response "502" e url)
  or_error_response url (proxy_error e) = ok (error_response "502" e url)
  or_error_response url (ssl_error e) = ok (error_response "502" e url)
  or_error_response url (raised e) = raise e

  -- `RequestsSession.request`, of a URL and the keyword arguments
  unfoldable pub session_request :
      (String → Object → Sent A) → Option Defaults → String → Object → Result (Response A)
  session_request send app url kwargs = or_error_response url (send url (with_defaults app kwargs))
