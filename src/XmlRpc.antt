-- ===== src/XmlRpc.antt =====
-- xmlrpc_server_proxy.py: `SafeTransport.request`, which sends a request again after a timeout. The
-- server is a function of the number of the request, from 0.
pub mod Retried
use greenwave.Prelude.{ℕ, zero, suc}
use greenwave.Outcome.{Error}

-- How one request ends.
pub data Attempt {ℓ} (A : Type ℓ) : Type ℓ where
  returned : A → Attempt A
  timed_out : Attempt A
  raised : Error → Attempt A

module _ {ℓ} {A : Type ℓ} (server : ℕ → Attempt A) where
  -- Whether the next request counts, or what follows it.
  abbrev pub unless_timed_out : Attempt A → ℕ → Attempt A × ℕ → Attempt A × ℕ
  unless_timed_out timed_out sent rest = rest
  unless_timed_out (returned a) sent rest = (returned a, sent)
  unless_timed_out (raised e) sent rest = (raised e, sent)

  -- The loop with `left` rounds to go, after `sent` requests: how the last request ends, and how many
  -- requests there were.
  unfoldable pub attempts : ℕ → ℕ → Attempt A × ℕ
  attempts zero sent = (server sent, suc sent)
  attempts (suc left) sent = unless_timed_out (server sent) (suc sent) (attempts left (suc sent))

  unfoldable pub request : ℕ → Attempt A × ℕ
  request retry = attempts retry 0
