-- ===== src/Session/Reached.antt =====
-- What a retriever makes of a server that cannot be reached.
use greenwave.Prelude.{String, ◌≡◌, refl, Option, ◌<>◌, string_eq}
use greenwave.Outcome.{bad_gateway, Result, raise, ◌>>=◌}
use greenwave.Json.{Object}
use greenwave.Resources.{retrieve_data}
use greenwave.Session.{
  Sent, responded, connect_timeout, retry_error, connection_error, proxy_error, ssl_error, raised,
  Defaults, with_defaults, error_response, or_error_response, session_request,
}

-- A failed connection is a BadGateway with the status code that stands for it.
abbrev pub unreached {ℓ} : {A : Type ℓ} → (String → String) → String → String → String → Result A
unreached dumps url status_code e = raise (
    bad_gateway ("Got unexpected status code " <> status_code <> " for " <> url <> ": " <> dumps e))

-- The data of a response that came and is fine, or how the retrieval failed.
abbrev pub Retrieved {ℓ} : {A : Type ℓ} → (String → String) → String → Sent A → Result A → Type ℓ
Retrieved dumps url (responded response) out = out ≡ retrieve_data response
Retrieved dumps url (connect_timeout e) out = out ≡ unreached dumps url "504" e
Retrieved dumps url (retry_error e) out = out ≡ unreached dumps url "504" e
Retrieved dumps url (connection_error e) out = out ≡ unreached dumps url "502" e
Retrieved dumps url (proxy_error e) out = out ≡ unreached dumps url "502" e
Retrieved dumps url (ssl_error e) out = out ≡ unreached dumps url "502" e
Retrieved dumps url (raised e) out = out ≡ raise e

-- However a request for data ends, the caller gets the data of a fine response, a BadGateway where the server
-- could not be reached or the response is not fine, or the exception of another class; so a failed
-- connection is never taken for an empty answer.
pub session_request-Retrieved {ℓ} :
    {A : Type ℓ} (dumps : String → String) (no_payload : A) (send : String → Object → Sent A)
    (app : Option Defaults) (url : String) (kwargs : Object)
    → Retrieved dumps url
        (send url (with_defaults app kwargs))
        (session_request dumps no_payload send app url kwargs >>= retrieve_data)
unfolding session_request or_error_response error_response retrieve_data
session_request-Retrieved {A = A} dumps no_payload send app url kwargs =
    by_end (send url (with_defaults app kwargs))
  where
    by_end :
        (sent : Sent A)
        → Retrieved dumps url sent (or_error_response dumps no_payload url sent >>= retrieve_data)
    by_end (responded response) = refl
    by_end (connect_timeout e) = refl
    by_end (retry_error e) = refl
    by_end (connection_error e) = refl
    by_end (proxy_error e) = refl
    by_end (ssl_error e) = refl
    by_end (raised e) = refl
