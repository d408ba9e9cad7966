-- ===== src/Client/Stream.antt =====
-- pkg/client/stream.go: what the client writes to open its stream, what it makes of the frames on it,
-- and how it sorts the frames of the control channel.
use wmux.Prelude.{
  ℕ, ◌+◌, ◌%◌, ltb, ◌==◌, if◌then◌else◌, List, [], ◌∷◌, ◌++◌, Option, none, some, Bytes, length,
  take, drop, ◌||◌,
}
use wmux.Protocol.{Frame}
use wmux.Transport.{frame, msg_auth, channel_stream}
use wmux.Daemon.Output.{msg_data}
use wmux.Daemon.History.{msg_history, msg_history_end}

abbrev pub msg_event : ℕ
msg_event = 10

unfoldable pub decode_data_payload : Bytes → Option (Bytes × Bytes)
decode_data_payload [] = none
decode_data_payload (id_len ∷ rest) =
    if ltb (1 + length rest) (1 + id_len) then none else some (take id_len rest, drop id_len rest)

-- The frame that `dialStream` writes.
unfoldable pub auth_frame : Bytes → Bytes → Frame
auth_frame token client_id =
    frame msg_auth (channel_stream ∷ token ++ length client_id % 256 ∷ client_id)

-- The calls of the data handler that `readStream` makes.
unfoldable pub read_stream : List Frame → List (Bytes × Bytes)
unfolding decode_data_payload
read_stream [] = []
read_stream (f ∷ fs) =
    let rest = read_stream fs in
    if f.type == msg_data
    then elim (decode_data_payload f.payload) [ none ↦ rest | some call ↦ call ∷ rest ]
    else rest

-- The frames that `readControl` puts into the history channel, those for the response channel, and the
-- payloads of events.
pub record Control : Type 0 where
  pub history : List Frame
  pub responses : List Frame
  pub events : List Bytes

unfoldable pub read_control : List Frame → Control
read_control [] = record { history = []; responses = []; events = [] }
read_control (f ∷ fs) =
    let rest = read_control fs in
    if f.type == msg_event
    then record rest { events = f.payload ∷ rest.events }
    else if (f.type == msg_history) || (f.type == msg_history_end)
    then record rest { history = f ∷ rest.history }
    else record rest { responses = f ∷ rest.responses }
