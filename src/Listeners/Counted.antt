-- ===== src/Listeners/Counted.antt =====
-- What the counters of a listener add up to.
use greenwave.Prelude.{
  ℕ, suc, ◌+◌, ◌≡◌, refl, sym, ap, ◌∙◌, subst, String, Bool, true, false, List, [], ◌∷◌, ◌++◌,
  Option, none, some, arith, length, length-append, if◌then◌else◌,
}
use greenwave.Outcome.{Result, ok, raise}
use greenwave.Json.{Json}
use greenwave.Listeners.{
  Listener, new_listener, Broker, disconnect, terminate, Published, published, killed, raised,
  perform, ended, then_run, Handler, Turn, consume_body, on_message, Event, message, connected,
  disconnected, receiver_loop_completed, sigterm, callback, handle, run,
}
use greenwave.Listeners.Kept.{Sent, After, perform-After}

-- Unless the process has ended, each message that was received is counted once by how it ended; each of
-- them was acknowledged; and the updates add up.
abbrev pub Sound : Listener → Type 0
Sound l =
    (l.killed ≡ false → l.received ≡ l.processed_ok + l.ignored + l.failed)
    × (length l.acked ≡ l.received)
    × Sent l

abbrev SoundTurn : Turn → Type 0
SoundTurn none = Unit
SoundTurn (some (l, e)) = Sound l

-- A message is counted when it has been consumed.
ended-Sound :
    (l : Listener) (result : Result Bool) (r : Option (Listener × Published))
    → l.received ≡ suc (l.processed_ok + l.ignored + l.failed)
    → length l.acked ≡ l.received
    → After l r
    → SoundTurn (ended result r)
ended-Sound l result none h acked a = tt
ended-Sound l result (some (l', killed)) h acked a =
    (λ alive. absurd (ground arith), ap length a.0.4 ∙ acked ∙ sym a.0.0, a.1)
ended-Sound l result (some (l', raised e)) h acked a = (
  λ alive. omega (arith, h, a.0.0, a.0.1, a.0.2, a.0.3),
  ap length a.0.4 ∙ acked ∙ sym a.0.0,
  a.1,
)
ended-Sound l (raise e) (some (l', published)) h acked a = (
  λ alive. omega (arith, h, a.0.0, a.0.1, a.0.2, a.0.3),
  ap length a.0.4 ∙ acked ∙ sym a.0.0,
  a.1,
)
ended-Sound l (ok true) (some (l', published)) h acked a = (
  λ alive. omega (arith, h, a.0.0, a.0.1, a.0.2, a.0.3),
  ap length a.0.4 ∙ acked ∙ sym a.0.0,
  a.1,
)
ended-Sound l (ok false) (some (l', published)) h acked a = (
  λ alive. omega (arith, h, a.0.0, a.0.1, a.0.2, a.0.3),
  ap length a.0.4 ∙ acked ∙ sym a.0.0,
  a.1,
)

module _ (broker : Broker) (loads : String → Option Json) (consume : Handler) where
  consume_body-Sound :
      (fuel : ℕ) (body : String) (l : Listener)
      → l.received ≡ suc (l.processed_ok + l.ignored + l.failed)
      → length l.acked ≡ l.received
      → Sent l
      → SoundTurn (consume_body broker loads consume fuel body l)
  unfolding consume_body
  consume_body-Sound fuel body l h acked s = by_message (loads body)
    where
      by_message :
          (m : Option Json)
          → SoundTurn (elim m [
            | none ↦ some (record l { ignored = suc l.ignored }, none)
            | some content ↦ ended (consume content).1 (perform broker fuel (consume content).0 l)
          ])
      by_message none = (λ alive. omega (arith, h), acked, s)
      by_message (some content) =
          ended-Sound l (consume content).1 (perform broker fuel (consume content).0 l) h acked
            (perform-After broker fuel (consume content).0 l s)

  on_message-Sound :
      (fuel : ℕ) (id body : String) (l : Listener)
      → l.killed ≡ false
      → Sound l
      → SoundTurn (on_message broker loads consume fuel id body l)
  unfolding on_message
  on_message-Sound fuel id body l alive h = by_stop l.stop
    where
      acked : Listener
      acked = record l { acked = l.acked ++ id ∷ []; received = suc l.received }

      by_stop :
          (b : Bool)
          → SoundTurn (
              if b
              then some (record l { nacked = l.nacked ++ id ∷ [] }, none)
              else consume_body broker loads consume fuel body acked)
      by_stop true = h
      by_stop false =
          consume_body-Sound fuel body acked (omega (arith, h.0 alive))
            (omega (arith, h.1, length-append l.acked (id ∷ []))) h.2

  callback-Sound :
      (fuel : ℕ) (event : Event) (l : Listener)
      → l.killed ≡ false
      → Sound l
      → SoundTurn (callback broker loads consume fuel event l)
  unfolding callback terminate disconnect
  callback-Sound fuel (message id body) l alive h = on_message-Sound fuel id body l alive h
  callback-Sound fuel connected l alive h = h
  callback-Sound fuel disconnected l alive h = (λ e. h.0 alive, h.1, (h.2.0, h.2.1, λ e. refl))
  callback-Sound fuel receiver_loop_completed l alive h =
      (λ e. h.0 alive, h.1, (h.2.0, h.2.1, λ e. refl))
  callback-Sound fuel sigterm l alive h = (λ e. h.0 alive, h.1, (h.2.0, h.2.1, λ e. refl))

  handle-Sound :
      (fuel : ℕ) (event : Event) (l : Listener)
      → Sound l
      → SoundTurn (handle broker loads consume fuel event l)
  unfolding handle
  handle-Sound fuel event l h = by_killed l.killed refl
    where
      by_killed :
          (b : Bool)
          → l.killed ≡ b
          → SoundTurn (if b then some (l, none) else callback broker loads consume fuel event l)
      by_killed true dead = h
      by_killed false alive = callback-Sound fuel event l alive h

  then_run-Sound :
      (later : Listener → Option Listener) (t : Turn) (l' : Listener)
      → SoundTurn t
      → ((next : Listener) → Sound next → later next ≡ some l' → Sound l')
      → then_run t later ≡ some l'
      → Sound l'
  then_run-Sound later none l' sound next e = absurd (ground arith)
  then_run-Sound later (some (l, x)) l' sound next e = next l sound e

  run-Sound_from :
      (fuel : ℕ) (events : List Event) (l l' : Listener)
      → Sound l
      → run broker loads consume fuel events l ≡ some l'
      → Sound l'
  unfolding run
  run-Sound_from fuel [] l l' h e = let same : l ≡ l' = ground arith in subst Sound same h
  run-Sound_from fuel (event ∷ rest) l l' h e =
      then_run-Sound (run broker loads consume fuel rest) (handle broker loads consume fuel event l)
        l' (handle-Sound fuel event l h)
        (λ next sound e'. run-Sound_from fuel rest next l' sound e') e

  -- Whatever happens to a listener, at the end each message that it took is acknowledged and, unless the
  -- process has ended, counted once: as processed, as ignored or as failed. Each update was sent or
  -- counted as failed, and a process that has ended was told to stop.
  pub run-Sound :
      (fuel : ℕ) (events : List Event) (l : Listener)
      → run broker loads consume fuel events new_listener ≡ some l
      → Sound l
  unfolding new_listener
  run-Sound fuel events l e =
      run-Sound_from fuel events new_listener l
        (λ alive. refl, refl, (refl, refl, λ h. absurd (ground arith))) e
