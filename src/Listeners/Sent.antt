-- ===== src/Listeners/Sent.antt =====
-- That the sending of updates comes to an end.
use greenwave.Prelude.{
  ℕ, zero, suc, ◌+◌, ◌≤◌, ◌<◌, ◌≡◌, refl, subst, String, Bool, true, false, List, [], ◌∷◌, ◌++◌,
  Option, none, some, is_some, arith, if◌then◌else◌, inl, inr, Bool-cases, ◌==◌, ==_iff, nat_eq,
}
use greenwave.Outcome.{unexpected, Result}
use greenwave.Json.{Json, Object}
use greenwave.Listeners.Acts.{Act, counts, publishes}
use greenwave.Listeners.{
  Listener, Sending, delivered, not_connected, refused, Connecting, is_connected, connects, fails,
  Broker, disconnect, terminate, connect, Published, published, killed, raised, update_headers,
  attempt_to_send, after_sending, unless_killed, then_send, send_update, perform, ended, then_run,
  Handler, Turn, consume_body, on_message, Event, message, connected, disconnected,
  receiver_loop_completed, sigterm, callback, handle, run,
}

-- The broker takes the update or refuses it.
abbrev pub answers : Sending → Bool
answers delivered = true
answers (refused e) = true
answers not_connected = false

connect-updates : (c : Connecting) (l : Listener) → (connect c l).updates ≡ l.updates
unfolding connect terminate disconnect
connect-updates is_connected l = refl
connect-updates connects l = ground arith
connect-updates fails l = ground arith

after_sending-returns :
    (s : Sending) (update : Object) (l : Listener) (again : Option (Listener × Published))
    → (answers s ≡ false → is_some again ≡ true)
    → is_some (after_sending s update l again) ≡ true
after_sending-returns delivered update l again h = refl
after_sending-returns (refused e) update l again h = refl
after_sending-returns not_connected update l again h = h refl

if-returns {ℓ} :
    {A : Type ℓ} (b : Bool) (x y : Option A)
    → is_some x ≡ true
    → is_some y ≡ true
    → is_some (if b then x else y) ≡ true
if-returns true x y hx hy = hx
if-returns false x y hx hy = hy

module _ (broker : Broker) where
  attempt_to_send-answers :
      (l : Listener) (k : ℕ) (update : Object)
      → answers (broker.send l.updates k) ≡ true
      → answers (attempt_to_send broker l k update) ≡ true
  unfolding attempt_to_send
  attempt_to_send-answers l k update h = by_headers (update_headers update)
    where
      by_headers :
          (m : Option (List (String × Json)))
          → answers (elim m as (λ m. Sending) [
            | none ↦ refused (unexpected "KeyError")
            | some headers ↦ broker.send l.updates k
          ])
            ≡ true
      by_headers none = refl
      by_headers (some headers) = h

  send_update-returns :
      (fuel attempt k : ℕ) (update : Object) (l : Listener)
      → attempt ≤ k
      → k < attempt + fuel
      → answers (broker.send l.updates k) ≡ true
      → is_some (send_update broker fuel attempt update l) ≡ true
  unfolding send_update
  send_update-returns zero attempt k update l from before h = absurd (omega (arith, from, before))
  send_update-returns (suc fuel) attempt k update l from before h =
      let l' = connect (broker.connect l.updates attempt) l in
      after_sending-returns (attempt_to_send broker l attempt update) update l
        (unless_killed l' (send_update broker fuel (suc attempt) update l'))
        (λ silent.
          if-returns l'.killed (some (l', killed)) (send_update broker fuel (suc attempt) update l')
            refl
            (elim (Bool-cases (attempt == k)) [
              | inl now ↦
                  let same : attempt ≡ k = ground (arith, ==_iff attempt k) in
                  let silent' : answers (attempt_to_send broker l k update) ≡ false =
                    subst (λ i. answers (attempt_to_send broker l i update) ≡ false) same silent in
                  let answered = attempt_to_send-answers l k update h in absurd (ground arith)
              | inr later ↦
                  send_update-returns fuel (suc attempt) k update l'
                    (ground (arith, ==_iff attempt k)) (omega (arith, before))
                    (rw (connect-updates (broker.connect l.updates attempt) l) h)
            ]))

  -- Each update is answered before that many attempts.
  abbrev pub Responsive : ℕ → Type 0
  Responsive bound = (n : ℕ) → (k : ℕ) × (k < bound) × (answers (broker.send n k) ≡ true)

  then_send-returns :
      (r : Option (Listener × Published)) (later : Listener → Option (Listener × Published))
      → is_some r ≡ true
      → ((l : Listener) → is_some (later l) ≡ true)
      → is_some (then_send r later) ≡ true
  then_send-returns none later e h = absurd (ground arith)
  then_send-returns (some (l, published)) later e h = h l
  then_send-returns (some (l, killed)) later e h = refl
  then_send-returns (some (l, raised x)) later e h = refl

  perform-returns :
      (bound : ℕ) (acts : List Act) (l : Listener)
      → Responsive bound
      → is_some (perform broker bound acts l) ≡ true
  unfolding perform
  perform-returns bound [] l h = refl
  perform-returns bound (counts event ∷ rest) l h =
      perform-returns bound rest (record l { counted = l.counted ++ event ∷ [] }) h
  perform-returns bound (publishes update ∷ rest) l h =
      let (k, before, answered) = h l.updates in
      then_send-returns (send_update broker bound 0 update l) (perform broker bound rest)
        (send_update-returns bound 0 k update l (omega arith) (omega (arith, before)) answered)
        (λ l'. perform-returns bound rest l' h)

module _ (broker : Broker) (loads : String → Option Json) (consume : Handler) where
  ended-returns :
      (result : Result Bool) (r : Option (Listener × Published))
      → is_some r ≡ true
      → is_some (ended result r) ≡ true
  ended-returns result none e = absurd (ground arith)
  ended-returns result (some end) e = refl

  consume_body-returns :
      (bound : ℕ) (body : String) (l : Listener)
      → Responsive broker bound
      → is_some (consume_body broker loads consume bound body l) ≡ true
  unfolding consume_body
  consume_body-returns bound body l h = by_content (loads body)
    where
      by_content :
          (m : Option Json)
          → is_some (elim m as (λ m. Turn) [
            | none ↦ some (record l { ignored = suc l.ignored }, none)
            | some content ↦ ended (consume content).1 (perform broker bound (consume content).0 l)
          ])
            ≡ true
      by_content none = refl
      by_content (some content) =
          ended-returns (consume content).1 (perform broker bound (consume content).0 l)
            (perform-returns broker bound (consume content).0 l h)

  on_message-returns :
      (bound : ℕ) (id body : String) (l : Listener)
      → Responsive broker bound
      → is_some (on_message broker loads consume bound id body l) ≡ true
  unfolding on_message
  on_message-returns bound id body l h =
      let taken = record l { acked = l.acked ++ id ∷ []; received = suc l.received } in
      if-returns l.stop (some (record l { nacked = l.nacked ++ id ∷ [] }, none))
        (consume_body broker loads consume bound body taken) refl
        (consume_body-returns bound body taken h)

  callback-returns :
      (bound : ℕ) (event : Event) (l : Listener)
      → Responsive broker bound
      → is_some (callback broker loads consume bound event l) ≡ true
  unfolding callback
  callback-returns bound (message id body) l h = on_message-returns bound id body l h
  callback-returns bound connected l h = refl
  callback-returns bound disconnected l h = refl
  callback-returns bound receiver_loop_completed l h = refl
  callback-returns bound sigterm l h = refl

  handle-returns :
      (bound : ℕ) (event : Event) (l : Listener)
      → Responsive broker bound
      → is_some (handle broker loads consume bound event l) ≡ true
  unfolding handle
  handle-returns bound event l h =
      if-returns l.killed (some (l, none)) (callback broker loads consume bound event l) refl
        (callback-returns bound event l h)

  then_run-returns :
      (t : Turn) (later : Listener → Option Listener)
      → is_some t ≡ true
      → ((l : Listener) → is_some (later l) ≡ true)
      → is_some (then_run t later) ≡ true
  then_run-returns none later e h = absurd (ground arith)
  then_run-returns (some (l, x)) later e h = h l

  -- If the broker takes or refuses each update within some number of attempts, that many rounds of the
  -- loop are enough: a listener gets through every sequence of events, and no update is retried forever.
  pub run-returns :
      (bound : ℕ) (events : List Event) (l : Listener)
      → Responsive broker bound
      → is_some (run broker loads consume bound events l) ≡ true
  unfolding run
  run-returns bound [] l h = refl
  run-returns bound (event ∷ rest) l h =
      then_run-returns (handle broker loads consume bound event l)
        (run broker loads consume bound rest) (handle-returns bound event l h)
        (λ l'. run-returns bound rest l' h)
