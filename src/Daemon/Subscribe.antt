-- ===== src/Daemon/Subscribe.antt =====
-- handleSubscribe of internal/daemon/service.go, with the goroutine that forwards the events; a round of
-- it is one turn of its loop. `json` and whether a frame can be written are arguments. `none` is a
-- panic, as on the bus.
use wmux.Prelude.{
  not, if◌then◌else◌, Bool, true, false, ℕ, List, [], ◌∷◌, Option, none, some, Bytes, bytes_eq,
}
use mathlib.Core.Option
use wmux.Events.{Event, Bus, subscribe, unsubscribe, receive}
use wmux.Protocol.{Frame, protocol_version}

abbrev msg_event : ℕ
msg_event = 10

pub data Reply : Type 0 where
  events_not_enabled invalid_request done : Reply

-- The goroutine: its subscription and the session of the request, which may be empty.
pub record Forwarder : Type 0 where
  pub sub : ℕ
  pub session_id : Bytes
  pub returned : Bool

-- The request is a session, and `none` if it cannot be read.
unfoldable pub handle_subscribe : Option Bytes → Option Bus → Option Bus × Reply × Option Forwarder
handle_subscribe request none = (none, events_not_enabled, none)
handle_subscribe none (some b) = (some b, invalid_request, none)
handle_subscribe (some session_id) (some b) =
    let (i, c) = subscribe none b in
    (some c, done, some (record { sub = i; session_id = session_id; returned = false }))

abbrev wanted : Bytes → Event → Bool
wanted [] e = true
wanted (c ∷ id) e = bytes_eq e.session_id (c ∷ id)

abbrev event_frame : Bytes → Frame
event_frame text = record { version = protocol_version; type = msg_event; payload = text }

-- The end of the goroutine, with its deferred call.
return_from : Forwarder → Bus → Option (Forwarder × Bus)
return_from f b = Option.map (λ c. (record f { returned = true }, c)) (unsubscribe f.sub b)

-- The frame of an event, if one is written, and the end of the goroutine if that fails.
forward_event :
    (Event → Option Bytes)
    → Bool
    → Event
    → Forwarder
    → Bus
    → Option ((Forwarder × Bus) × List Frame)
unfolding return_from
forward_event marshal writable e f b =
    if not (wanted f.session_id e) then some ((f, b), []) else elim (marshal e) [
      | none ↦ some ((f, b), [])
      | some text ↦
          if writable
          then some ((f, b), event_frame text ∷ [])
          else Option.map (λ r. (r, [])) (return_from f b)
    ]

-- A turn that finds an event, or a closed channel; without either it waits.
unfoldable pub forward :
    (Event → Option Bytes) → Bool → Forwarder × Bus → Option ((Forwarder × Bus) × List Frame)
unfolding forward_event return_from
forward marshal writable (f, b) =
    if f.returned
    then some ((f, b), [])
    else let (e, c) = receive f.sub b in
      elim e [
        | some event ↦ forward_event marshal writable event f c
        | none ↦
            if (c.cell f.sub).ch_closed
            then Option.map (λ r. (r, [])) (return_from f c)
            else some ((f, c), [])
      ]
