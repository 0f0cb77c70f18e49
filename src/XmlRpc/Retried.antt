-- ===== src/XmlRpc/Retried.antt =====
-- How many requests there are, and which one counts.
use greenwave.Prelude.{
  ℕ, zero, suc, ◌+◌, ◌≤◌, ◌<◌, ◌≡◌, refl, sym, arith, inl, inr, Bool-cases, ◌==◌, ==_iff, nat_eq,
}
use greenwave.XmlRpc.{Attempt, returned, timed_out, raised, unless_timed_out, attempts, request}

-- A run after `sent` requests with at most `left` retries: `last` is the number of its last request.
pub record Run {ℓ} {A : Type ℓ} (server : ℕ → Attempt A) (left sent : ℕ) (run : Attempt A × ℕ)
    : Type ℓ where
  pub last : ℕ
  pub made : run.1 ≡ suc last
  pub at_least : sent ≤ last
  pub at_most : last ≤ sent + left
  pub outcome : run.0 ≡ server last
  pub earlier : (i : ℕ) → sent ≤ i → i < last → server i ≡ timed_out
  pub exhausted : run.0 ≡ timed_out → last ≡ sent + left

module _ {ℓ} {A : Type ℓ} (server : ℕ → Attempt A) where
  unless_timed_out-Run :
      (attempt : Attempt A) (left sent : ℕ) (rest : Attempt A × ℕ)
      → server sent ≡ attempt
      → Run server left (suc sent) rest
      → Run server (suc left) sent (unless_timed_out server attempt (suc sent) rest)
  unless_timed_out-Run timed_out left sent rest now later = record {
    last = later.last;
    made = later.made;
    at_least = omega (arith, later.at_least);
    at_most = omega (arith, later.at_most);
    outcome = later.outcome;
    earlier = λ i from before. elim (Bool-cases (i == sent)) [
      | inl same ↦ let equal : i ≡ sent = ground (arith, ==_iff i sent) in rw equal now
      | inr other ↦ later.earlier i (ground (arith, ==_iff i sent)) before
    ];
    exhausted = λ h. omega (arith, later.exhausted h);
  }
  unless_timed_out-Run (returned a) left sent rest now later = record {
    last = sent;
    made = refl;
    at_least = omega arith;
    at_most = omega arith;
    outcome = sym now;
    earlier = λ i from before. absurd (omega arith);
    exhausted = λ h. absurd (ground arith);
  }
  unless_timed_out-Run (raised x) left sent rest now later = record {
    last = sent;
    made = refl;
    at_least = omega arith;
    at_most = omega arith;
    outcome = sym now;
    earlier = λ i from before. absurd (omega arith);
    exhausted = λ h. absurd (ground arith);
  }

  attempts-Run : (left sent : ℕ) → Run server left sent (attempts server left sent)
  unfolding attempts
  attempts-Run zero sent = record {
    last = sent;
    made = refl;
    at_least = omega arith;
    at_most = omega arith;
    outcome = refl;
    earlier = λ i from before. absurd (omega arith);
    exhausted = λ h. omega arith;
  }
  attempts-Run (suc left) sent =
      unless_timed_out-Run (server sent) left sent (attempts server left (suc sent)) refl
        (attempts-Run left (suc sent))

  -- With `retry` retries there are at least one and at most retry + 1 requests; the call ends as the
  -- last of them does, all before it timed out, and the call times out only after retry + 1 requests.
  pub request-Run : (retry : ℕ) → Run server retry 0 (request server retry)
  unfolding request
  request-Run retry = attempts-Run retry 0
