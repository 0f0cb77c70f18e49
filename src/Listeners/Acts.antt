-- ===== src/Listeners/Acts.antt =====
-- listeners/base.py: what a handler of a listener does.
use greenwave.Prelude.{List, [], ◌∷◌}
use greenwave.Json.{Object}
use greenwave.Consumers.{Event}

-- What a handler does in turn: it counts, or it publishes an update. A handler is the list of what it does
-- while each update is sent, with its end; what it does does not depend on what was sent. `perform` goes
-- through the list, and where an update is not sent, the handler ends there.
pub data Act : Type 0 where
  counts : Event → Act
  publishes : Object → Act

-- The updates among them.
abbrev pub updates_in : List Act → List Object
updates_in [] = []
updates_in (counts event ∷ acts) = updates_in acts
updates_in (publishes update ∷ acts) = update ∷ updates_in acts
