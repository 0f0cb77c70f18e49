-- ===== src/Tests/Retries.antt =====
-- Retries of XML-RPC requests.
use greenwave.Prelude.{ℕ, zero, suc, ◌≡◌, refl}
use greenwave.XmlRpc.{Attempt, returned, timed_out, attempts, request}
use greenwave.XmlRpc.Retried.{Run, request-Run}

-- The server answers the third request.
abbrev slow : ℕ → Attempt ℕ
slow zero = timed_out
slow (suc zero) = timed_out
slow (suc (suc n)) = returned 7

third_counts : request slow 3 ≡ (returned 7, 3)
unfolding request attempts
third_counts = refl

request-Run_example : Run slow 3 0 (request slow 3)
request-Run_example = request-Run slow 3
