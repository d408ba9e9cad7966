-- ===== src/Transport/Heartbeat.antt =====
-- internal/transport/heartbeat.go: the manager and one tick of its loop. The manager has
-- its own copy of a client, with the stream that the client has when it is tracked.
pub mod Beats
pub mod Waits
pub mod Silence
use wmux.Prelude.{
  ℕ, suc, ◌+◌, ltb, if◌then◌else◌, Bool, true, false, List, [], ◌∷◌, ◌++◌, Option, none, some,
  Bytes, Map, lookup, insert, delete,
}
use wmux.Prelude.Keys.{delete_all}
use wmux.Transport.{Client, Effect, sends, frame}

abbrev pub msg_heartbeat : ℕ
msg_heartbeat = 11

pub record HeartbeatManager : Type 0 where
  pub clients : Map Client
  pub max_missed : ℕ

unfoldable pub new_heartbeat_manager : ℕ → HeartbeatManager
new_heartbeat_manager max_missed = record { clients = []; max_missed = max_missed }

unfoldable pub track : Client → HeartbeatManager → HeartbeatManager
track c h = record h { clients = insert c.id c h.clients }

unfoldable pub untrack : Bytes → HeartbeatManager → HeartbeatManager
untrack id h = record h { clients = delete id h.clients }

unfoldable pub ack : ℕ → Bytes → HeartbeatManager → HeartbeatManager
ack now id h = elim (lookup id h.clients) [
  | none ↦ h
  | some c ↦ record h {
    clients = insert id (record c { missed_heartbeats = 0; last_heartbeat_ack = now }) h.clients;
  }
]

-- One client: what it becomes, whether it is dead, and what is sent to it. `writable` tells whether a
-- write on a connection succeeds.
unfoldable pub beat : (ℕ → Bool) → ℕ → Client → Client × Bool × List Effect
beat writable max_missed c = elim c.stream [
  | none ↦ (c, false, [])
  | some conn ↦
      let missed = record c { missed_heartbeats = suc c.missed_heartbeats } in
      if ltb max_missed (suc c.missed_heartbeats)
      then (missed, true, [])
      else if writable conn
      then (missed, false, sends conn (frame msg_heartbeat []) ∷ [])
      else (record c { missed_heartbeats = max_missed + 1 }, true, [])
]

-- All clients, the dead ones, and what is sent.
unfoldable pub beats : (ℕ → Bool) → ℕ → Map Client → Map Client × List Bytes × List Effect
unfolding beat
beats writable max_missed [] = ([], [], [])
beats writable max_missed ((id, c) ∷ m) =
    let (d, is_dead, sent) = beat writable max_missed c in
    let (n, dead, more) = beats writable max_missed m in
    ((id, d) ∷ n, (if is_dead then id ∷ dead else dead), sent ++ more)

-- The ids are those that `onDead` is called with.
unfoldable pub tick : (ℕ → Bool) → HeartbeatManager → HeartbeatManager × List Bytes × List Effect
unfolding beats
tick writable h =
    let (m, dead, sent) = beats writable h.max_missed h.clients in
    (record h { clients = delete_all dead m }, dead, sent)
