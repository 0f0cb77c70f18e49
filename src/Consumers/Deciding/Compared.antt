-- ===== src/Consumers/Deciding/Compared.antt =====
-- Which decisions a consumer compares after a message.
use greenwave.Prelude.{
  String, ◌≡◌, refl, true, false, Option, none, some, is_some, truthy, arith, ap, Bool-cases, ◌==◌,
  ==_iff, string_eq, Option-cases, inl, inr,
}
use greenwave.Outcome.{unexpected, ok, raise, ◌>>=◌, Ensures, Ensures-ok}
use greenwave.Json.{Object}
use greenwave.Timestamp.{
  DateTime, read_iso, read_timestamp, minus_microsecond, print, read_to_seconds, read_digits,
  add_to_timestamp, right_before_this_time,
}
use greenwave.Timestamp.Instant.{Before, minus_microsecond-Before}
use greenwave.Timestamp.Printed.{read_iso-print, read_timestamp-Yields}
use greenwave.Subject.{Subject}
use greenwave.Policy.Matching.Pairs.{Pair}
use greenwave.Decision.Request.{Application}
use greenwave.Consumers.{Delivery, both, old_and_new_decisions}
use greenwave.Consumers.Deciding.{in_process}
use greenwave.Consumers.Deciding.Asked.{
  as_requested, decision_at, report_of, make_decision-decision_at,
}

-- A time in the format of a request.
abbrev IsAccepted : String → Type 0
IsAccepted time = (truthy time ≡ true) × (is_some (read_iso time) ≡ true)

no_time : is_some (read_iso "") ≡ false
unfolding read_iso read_to_seconds read_digits
no_time = refl

read_iso-truthy : (time : String) → is_some (read_iso time) ≡ true → truthy time ≡ true
read_iso-truthy time accepted = elim (Bool-cases (time == "")) [
  | inl empty ↦
      let same : time ≡ "" = (==_iff time "").0 empty in
      absurd (ground (arith, accepted, no_time, ap (λ t. is_some (read_iso t)) same))
  | inr full ↦ ground (arith, full)
]

print-IsAccepted :
    (t : DateTime) (o : Option DateTime)
    → Before t o
    → Ensures IsAccepted
        (elim o [ none ↦ raise (unexpected "OverflowError") | some t' ↦ ok (print t') ])
print-IsAccepted t none before = tt
print-IsAccepted t (some t') (valid, before) =
    let accepted : is_some (read_iso (print t')) ≡ true = rw (read_iso-print t' valid) refl in
    (read_iso-truthy (print t') accepted, accepted)

right_before_this_time-IsAccepted :
    (text : String) → Ensures IsAccepted (right_before_this_time text)
unfolding right_before_this_time add_to_timestamp
right_before_this_time-IsAccepted text = elim (Option-cases (read_timestamp text)) [
  | inl absent ↦ rw (absent, add_to_timestamp) tt
  | inr (t, found) ↦
      rw (found, add_to_timestamp)
        (print-IsAccepted t (minus_microsecond t)
          (minus_microsecond-Before t (read_timestamp-Yields text t found)))
]

-- A consumer compares the report of the decision for now with that for the time right before the message, of
-- the policies of the application for the subject of the message, with no results or waivers left
-- out; no request of its own is refused before the policies are checked. This is so for a decision
-- context and a version that are not empty, where requests are to have times of the form
-- "%Y-%m-%dT%H:%M:%S.%f".
pub old_and_new_decisions-decision_at :
    (app : Application) (publish : Object → Delivery) (s : Subject) (pair : Pair)
    (submit_time time : String)
    → ((t : String) → app.is_time t ≡ is_some (read_iso t))
    → truthy pair.0 ≡ true
    → truthy pair.1 ≡ true
    → right_before_this_time submit_time ≡ ok time
    → old_and_new_decisions (in_process app publish s) submit_time pair
      ≡ both
          (decision_at app (as_requested app s) pair none >>= λ d. ok (report_of d))
          (decision_at app (as_requested app s) pair (some time) >>= λ d. ok (report_of d))
unfolding old_and_new_decisions
old_and_new_decisions-decision_at app publish s pair submit_time time format context version
      before =
    let (full, accepted) =
      Ensures-ok IsAccepted (right_before_this_time submit_time) time
        (right_before_this_time-IsAccepted submit_time) before in
    rw
      (
        before,
        make_decision-decision_at app publish s pair none context version tt,
        make_decision-decision_at app publish s pair (some time) context version
            (full, rw (format time) accepted),
      )
      refl
