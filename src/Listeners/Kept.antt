-- ===== src/Listeners/Kept.antt =====
-- What the sending of updates changes of a listener.
use greenwave.Prelude.{
  ℕ, zero, suc, ◌+◌, ◌≡◌, refl, ◌∙◌, Bool, true, false, List, [], ◌∷◌, ◌++◌, Option, none, some,
  arith, length, length-append, if◌then◌else◌, inl, inr, Bool-cases,
}
use greenwave.Json.{Object}
use greenwave.Listeners.Acts.{Act, counts, publishes}
use greenwave.Listeners.{
  Listener, Sending, delivered, not_connected, refused, Connecting, is_connected, connects, fails,
  Broker, disconnect, terminate, connect, Published, published, killed, raised, attempt_to_send,
  after_sending, unless_killed, then_send, send_update, perform,
}

-- Each update was sent or failed, and a process that has ended was told to stop.
abbrev pub Sent : Listener → Type 0
Sent l =
    (l.updates ≡ l.tx_sent_ok + l.tx_failed)
    × (length l.sent ≡ l.tx_sent_ok)
    × (l.killed ≡ true → l.stop ≡ true)

-- The counters of messages are as they were.
abbrev pub Kept : Listener → Listener → Type 0
Kept l l' =
    (l'.received ≡ l.received)
    × (l'.processed_ok ≡ l.processed_ok)
    × (l'.ignored ≡ l.ignored)
    × (l'.failed ≡ l.failed)
    × (l'.acked ≡ l.acked)

connect-Kept : (c : Connecting) (l : Listener) → Kept l (connect c l)
unfolding connect terminate disconnect
connect-Kept is_connected l = (refl, refl, refl, refl, refl)
connect-Kept connects l = elim (Bool-cases l.connecting) [
  | inl busy ↦ rw busy (refl, refl, refl, refl, refl)
  | inr free ↦ rw free (refl, refl, refl, refl, refl)
]
connect-Kept fails l = elim (Bool-cases l.connecting) [
  | inl busy ↦ rw busy (refl, refl, refl, refl, refl)
  | inr free ↦ rw free (refl, refl, refl, refl, refl)
]

connect-Sent : (c : Connecting) (l : Listener) → Sent l → Sent (connect c l)
unfolding connect terminate disconnect
connect-Sent is_connected l h = h
connect-Sent connects l h = elim (Bool-cases l.connecting) [
  | inl busy ↦ rw busy h
  | inr free ↦ rw free h
]
connect-Sent fails l h = elim (Bool-cases l.connecting) [
  | inl busy ↦ rw busy h
  | inr free ↦ rw free (h.0, h.1, λ e. refl)
]

-- What the sending of updates does to a listener.
abbrev pub After : Listener → Option (Listener × Published) → Type 0
After l none = Unit
After l (some (l', killed)) = Kept l l' × Sent l' × (l'.killed ≡ true)
After l (some (l', p)) = Kept l l' × Sent l'

Kept-trans : (l l' l'' : Listener) → Kept l l' → Kept l' l'' → Kept l l''
Kept-trans l l' l'' h h' = (h'.0 ∙ h.0, h'.1 ∙ h.1, h'.2 ∙ h.2, h'.3 ∙ h.3, h'.4 ∙ h.4)

After-Kept :
    (l l' : Listener) (r : Option (Listener × Published)) → Kept l l' → After l' r → After l r
After-Kept l l' none h a = tt
After-Kept l l' (some (l'', killed)) h a = (Kept-trans l l' l'' h a.0, a.1, a.2)
After-Kept l l' (some (l'', published)) h a = (Kept-trans l l' l'' h a.0, a.1)
After-Kept l l' (some (l'', raised e)) h a = (Kept-trans l l' l'' h a.0, a.1)

after_sending-After :
    (s : Sending) (update : Object) (l : Listener) (again : Option (Listener × Published))
    → Sent l
    → After l again
    → After l (after_sending s update l again)
after_sending-After delivered update l again h a = (
  (refl, refl, refl, refl, refl),
  (omega (arith, h.0), omega (arith, h.1, length-append l.sent (update ∷ [])), h.2),
)
after_sending-After (refused e) update l again h a =
    ((refl, refl, refl, refl, refl), (omega (arith, h.0), h.1, h.2))
after_sending-After not_connected update l again h a = a

unless_killed-After :
    (l : Listener) (again : Option (Listener × Published))
    → Sent l
    → After l again
    → After l (unless_killed l again)
unless_killed-After l again h a = by_killed l.killed refl
  where
    by_killed : (b : Bool) → l.killed ≡ b → After l (if b then some (l, killed) else again)
    by_killed true dead = ((refl, refl, refl, refl, refl), h, dead)
    by_killed false alive = a

module _ (broker : Broker) where
  send_update-After :
      (fuel attempt : ℕ) (update : Object) (l : Listener)
      → Sent l
      → After l (send_update broker fuel attempt update l)
  unfolding send_update
  send_update-After zero attempt update l h = tt
  send_update-After (suc fuel) attempt update l h =
      let c = broker.connect l.updates attempt in
      let l' = connect c l in
      after_sending-After (attempt_to_send broker l attempt update) update l
        (unless_killed l' (send_update broker fuel (suc attempt) update l')) h
        (After-Kept l l' (unless_killed l' (send_update broker fuel (suc attempt) update l'))
          (connect-Kept c l)
          (unless_killed-After l' (send_update broker fuel (suc attempt) update l')
            (connect-Sent c l h)
            (send_update-After fuel (suc attempt) update l' (connect-Sent c l h))))

  then_send-After :
      (l : Listener) (r : Option (Listener × Published))
      (later : Listener → Option (Listener × Published))
      → After l r
      → ((l' : Listener) → Sent l' → After l' (later l'))
      → After l (then_send r later)
  then_send-After l none later a h = tt
  then_send-After l (some (l', published)) later a h = After-Kept l l' (later l') a.0 (h l' a.1)
  then_send-After l (some (l', killed)) later a h = a
  then_send-After l (some (l', raised e)) later a h = a

  pub perform-After :
      (fuel : ℕ) (acts : List Act) (l : Listener) → Sent l → After l (perform broker fuel acts l)
  unfolding perform
  perform-After fuel [] l h = ((refl, refl, refl, refl, refl), h)
  perform-After fuel (counts event ∷ rest) l h =
      perform-After fuel rest (record l { counted = l.counted ++ event ∷ [] }) h
  perform-After fuel (publishes update ∷ rest) l h =
      then_send-After l (send_update broker fuel 0 update l) (perform broker fuel rest)
        (send_update-After fuel 0 update l h) (λ l' h'. perform-After fuel rest l' h')
