-- ===== src/Examples/Subscribe.antt =====
-- The forwarding of events on concrete inputs.
use wmux.Prelude.{
  ◌≡◌, refl, true, false, List, [], ◌∷◌, Option, some, none, Bytes, codes, bytes_eq, ◌>>=◌,
}
use wmux.Events.{
  Event, new_bus, subscribe, unsubscribe, publish, receive, close, deliver_all, deliver, close_all,
}
use wmux.Events.Names.{session_created}
use wmux.Daemon.Subscribe.{Forwarder, handle_subscribe, done, forward}

abbrev created : Bytes → Event
created id = record { type = session_created; session_id = id; payload = [] }

abbrev print : Event → Option Bytes
print e = some e.session_id

abbrev forwarder : Forwarder
forwarder = record { sub = 0; session_id = codes "a"; returned = false }

subscribes :
    handle_subscribe (some (codes "a")) (some new_bus)
    ≡ (some (subscribe none new_bus).1, done, some forwarder)
unfolding handle_subscribe subscribe new_bus
subscribes = refl

-- The frames of one round behind a publication.
abbrev frames : Bytes → Option (List Bytes)
frames id = do
  b ← publish (created id) (subscribe none new_bus).1
  r ← forward print true (forwarder, b)
  some (elim r.1 [ [] ↦ [] | f ∷ fs ↦ f.payload ∷ [] ])

forwards : (frames (codes "a") ≡ some (codes "a" ∷ [])) × (frames (codes "b") ≡ some [])
unfolding forward publish subscribe new_bus receive bytes_eq deliver_all deliver
forwards = (refl, refl)

-- On a bus that is closed, the goroutine ends at once, and its deferred call panics.
panics : (do b ← close new_bus; (forward print true (forwarder, (subscribe none b).1))) ≡ none
unfolding forward subscribe unsubscribe new_bus receive close close_all
panics = refl
