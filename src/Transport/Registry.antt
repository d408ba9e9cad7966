-- ===== src/Transport/Registry.antt =====
-- internal/transport/service.go: the registration of a connection that the handshake admits, and the
-- other methods of the server. A method that takes the lock twice is two functions here, as other
-- methods can run between them.
use wmux.Prelude.{
  ℕ, ◌+◌, ◌-◌, ◌/◌, ◌%◌, ltb, ◌==◌, if◌then◌else◌, Bool, true, false, List, [], ◌∷◌, ◌++◌, Option,
  none, some, Bytes, Map, lookup, insert, delete, length, take, drop,
}
use wmux.Protocol.{Frame, max_payload_size}
use wmux.Transport.{
  Server, Client, Creds, Incoming, Effect, sends, closes, on_client, Host, Error, auth_failed,
  client_not_found, invalid_channel, duplicate_channel, no_client_id, refuse, judge, Verdict, drops,
  refuses, admits, token_size, channel_control, channel_stream, msg_ok, frame,
}

hex_digit : ℕ → ℕ
hex_digit n = if ltb n 10 then b'0' + n else b'a' + (n - 10)

-- hex.EncodeToString.
unfoldable pub encode_to_string : Bytes → Bytes
unfolding hex_digit
encode_to_string [] = []
encode_to_string (b ∷ bs) = hex_digit (b / 16) ∷ hex_digit (b % 16) ∷ encode_to_string bs

-- What the connection is registered as, before its answer is written.
pub data Registered : Type 0 where
  nothing : Registered
  a_control : Bytes → Registered
  a_stream : Bytes → Registered

unfoldable pub open_control : ℕ → Option Bytes → Creds → Server → Server × Registered × List Effect
unfolding encode_to_string refuse
open_control conn none creds s = (s, nothing, refuse conn no_client_id)
open_control conn (some bytes) creds s =
    let id = encode_to_string bytes in
    let c : Client = record {
      id = id;
      control = conn;
      stream = none;
      creds = creds;
      missed_heartbeats = 0;
      last_heartbeat_ack = 0;
    } in
    (record s { clients = insert id c s.clients }, a_control id, [])

-- With the client that the registry has under the id.
unfoldable pub set_stream : ℕ → Bytes → Option Client → Server → Server × Registered × List Effect
unfolding refuse
set_stream conn id none s = (s, nothing, refuse conn client_not_found)
set_stream conn id (some c) s = elim c.stream [
  | some _ ↦ (s, nothing, refuse conn duplicate_channel)
  | none ↦ (
    record s { clients = insert id (record c { stream = some conn }) s.clients },
    a_stream id,
    [],
  )
]

-- With the length of the payload, and `payload[streamHeaderSize:]`: the length of the id and what
-- follows it.
unfoldable pub open_stream_at : ℕ → ℕ → Bytes → Server → Server × Registered × List Effect
unfolding set_stream refuse
open_stream_at conn size [] s = (s, nothing, refuse conn auth_failed)
open_stream_at conn size (id_len ∷ rest) s =
    if ltb size (1 + token_size + 2)
    then (s, nothing, refuse conn auth_failed)
    else if ltb size (1 + token_size + 1 + id_len)
    then (s, nothing, refuse conn auth_failed)
    else let id = take id_len rest in set_stream conn id (lookup id s.clients) s

unfoldable pub open_stream : ℕ → Bytes → Server → Server × Registered × List Effect
unfolding open_stream_at
open_stream conn payload s = open_stream_at conn (length payload) (drop (1 + token_size) payload) s

unfoldable pub register : ℕ → Incoming → Verdict → Server → Server × Registered × List Effect
unfolding open_control open_stream refuse
register conn i drops s = (s, nothing, closes conn ∷ [])
register conn i refuses s = (s, nothing, refuse conn auth_failed)
register conn i (admits creds channel payload) s =
    if channel == channel_control
    then open_control conn i.random creds s
    else if channel == channel_stream
    then open_stream conn payload s
    else (s, nothing, refuse conn invalid_channel)

-- `handleConn` up to the write of the answer.
unfoldable pub accept : Host → ℕ → Incoming → Server → Server × Registered × List Effect
unfolding register judge
accept host conn i s = register conn i (judge host s i) s

-- The answer could not be written: the registration is undone.
unfoldable pub abort_control : Bytes → Server → Server
abort_control id s = record s { clients = delete id s.clients }

unfoldable pub abort_stream : Bytes → Server → Server
abort_stream id s = elim (lookup id s.clients) [
  | none ↦ s
  | some c ↦ record s { clients = insert id (record c { stream = none }) s.clients }
]

unfoldable pub answer : ℕ → Incoming → Registered → Server → Server × List Effect
unfolding abort_control abort_stream
answer conn i nothing s = (s, [])
answer conn i (a_control id) s =
    if i.answered
    then (s, sends conn (frame msg_ok id) ∷ (if s.has_callback then on_client id ∷ [] else []))
    else (abort_control id s, closes conn ∷ [])
answer conn i (a_stream id) s =
    if i.answered
    then (s, sends conn (frame msg_ok []) ∷ [])
    else (abort_stream id s, closes conn ∷ [])

-- `handleConn`, when nothing runs between its parts.
unfoldable pub handle_conn : Host → ℕ → Incoming → Server → Server × List Effect
unfolding accept answer
handle_conn host conn i s =
    let (s₁, registered, refused) = accept host conn i s in
    let (s₂, answered) = answer conn i registered s₁ in (s₂, refused ++ answered)

unfoldable pub client : Bytes → Server → Option Client
client id s = lookup id s.clients

close_client : Client → List Effect
close_client c = closes c.control ∷ elim c.stream [ none ↦ [] | some conn ↦ closes conn ∷ [] ]

unfoldable pub kick : Bytes → Server → Server × List Effect × Option Error
unfolding close_client
kick id s = elim (lookup id s.clients) [
  | none ↦ (s, [], some client_not_found)
  | some c ↦ (record s { clients = delete id s.clients }, close_client c, none)
]

unfoldable pub remove_client : Bytes → Server → Server
remove_client id s = record s { clients = delete id s.clients }

close_clients : Map Client → List Effect
unfolding close_client
close_clients [] = []
close_clients ((id, c) ∷ m) = close_client c ++ close_clients m

-- `Close`, up to the listener.
unfoldable pub close : Server → Server × List Effect
unfolding close_clients
close s = (record s { clients = []; closed = true }, close_clients s.clients)

-- Whether `WriteFrame` sends a frame: `Encode` refuses a payload over the limit, and a write to the
-- connection may fail.
unfoldable pub write_frame : (ℕ → Bool) → ℕ → Frame → Bool
write_frame writable conn f =
    if ltb max_payload_size (length f.payload) then false else writable conn

-- The connections of a broadcast, and whether one of the writes failed.
streams : Map Client → List ℕ
streams [] = []
streams ((id, c) ∷ m) = elim c.stream [ none ↦ streams m | some conn ↦ conn ∷ streams m ]

write_to : (ℕ → Bool) → Frame → List ℕ → List Effect × Bool
unfolding write_frame
write_to writable f [] = ([], false)
write_to writable f (conn ∷ conns) =
    let (sent, failed) = write_to writable f conns in
    if write_frame writable conn f then (sends conn f ∷ sent, failed) else (sent, true)

unfoldable pub broadcast : (ℕ → Bool) → Frame → Server → List Effect × Bool
unfolding write_to streams
broadcast writable f s = write_to writable f (streams s.clients)

-- What `BroadcastTo` returns: nil, that there is no client, or that the write failed.
pub data Sent : Type 0 where
  fine no_such_client write_failed : Sent

unfoldable pub broadcast_to : (ℕ → Bool) → Bytes → Frame → Server → List Effect × Sent
unfolding write_frame
broadcast_to writable id f s = elim (lookup id s.clients) [
  | none ↦ ([], no_such_client)
  | some c ↦ elim c.stream [
    | none ↦ ([], fine)
    | some conn ↦
        if write_frame writable conn f then (sends conn f ∷ [], fine) else ([], write_failed)
  ]
]
