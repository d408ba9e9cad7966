-- ===== src/Daemon/Attach.antt =====
-- The attachments of clients to sessions in internal/daemon/service.go: handleAttach, handleDetach
-- and detachClient, on the two maps of the daemon and the session service. A frame whose JSON is not
-- valid is `none`. The lock makes each update of the maps one step. Of the response to an attach the
-- model has the session's data; its snapshot and its command history only read other components.
pub mod Agree
pub mod Reached
use wmux.Prelude.{
  ℕ, ◌==◌, if◌then◌else◌, Bool, true, false, List, [], ◌∷◌, Option, none, some, Bytes, codes, Map,
  lookup, insert, delete, length,
}
use wmux.Session.Defs.{Session, Error, Result, ok, err, Service}
use wmux.Session.Service.{get, attach, detach}
use wmux.Events.{Event, text}
use wmux.Events.Names.{session_attached, session_detached}

-- A set of client ids.
abbrev pub Clients : Type 0
Clients = Map (Unit {0})

pub record Daemon : Type 0 where
  pub attachments : Map Clients
  pub client_session : Map Bytes
  pub service : Service

pub data Reply : Type 0 where
  attached_to : Session → Reply
  done : Reply
  failed : Error → Reply
  invalid_request : Reply

abbrev pub Outcome : Type 0
Outcome = Daemon × Reply × List Event

or_new : Option Clients → Clients
or_new none = []
or_new (some cs) = cs

-- The client is added to the session's set, which is made if it is missing.
unfoldable pub join : Bytes → Bytes → Map Clients → Map Clients
unfolding or_new
join id client m = insert id (insert client tt (or_new (lookup id m))) m

-- The client is taken out of the session's set, and an empty set out of the map: the Boolean tells
-- whether the session has to be detached.
unfoldable pub leave : Bytes → Bytes → Map Clients → Map Clients × Bool
leave id client m = elim (lookup id m) [
  | none ↦ (m, false)
  | some cs ↦
      if length (delete client cs) == 0
      then (delete id m, true)
      else (insert id (delete client cs) m, false)
]

abbrev attached_event : Bytes → Bytes → Event
attached_event id client = record {
  type = session_attached;
  session_id = id;
  payload = (codes "client_id", text client) ∷ [];
}

abbrev detached_event : Bytes → Event
detached_event id = record { type = session_detached; session_id = id; payload = [] }

-- `sessionSvc.Attach` and what follows it.
attach_found : Bytes → Bytes → Session → Daemon → Service × Result (Unit {0}) → Outcome
unfolding join
attach_found client id info d (s, err e) = (record d { service = s }, failed e, [])
attach_found client id info d (s, ok _) = (
  record {
    attachments = join id client d.attachments;
    client_session = insert client id d.client_session;
    service = s;
  },
  attached_to info,
  attached_event id client ∷ [],
)

attach_known : Bytes → Bytes → Daemon → Result Session → Outcome
unfolding attach_found
attach_known client id d (err e) = (d, failed e, [])
attach_known client id d (ok info) = attach_found client id info d (attach id d.service)

unfoldable pub handle_attach : Bytes → Option Bytes → Daemon → Outcome
unfolding attach_known
handle_attach client none d = (d, invalid_request, [])
handle_attach client (some id) d = attach_known client id d (get id d.service)

-- `if shouldDetach { ... }`, with the maps already changed.
unfoldable pub finish : Bytes → Map Clients × Bool → Map Bytes → Service → Daemon × List Event
finish id (m, true) sessions s = (
  record { attachments = m; client_session = sessions; service = (detach id s).0 },
  detached_event id ∷ [],
)
finish id (m, false) sessions s =
    (record { attachments = m; client_session = sessions; service = s }, [])

unfoldable pub handle_detach : Bytes → Option Bytes → Daemon → Outcome
unfolding finish leave
handle_detach client none d = (d, invalid_request, [])
handle_detach client (some id) d =
    let (e, events) =
      finish id (leave id client d.attachments) (delete client d.client_session) d.service in
    (e, done, events)

-- `detachClient`, when the client has disconnected.
unfoldable pub detach_client : Bytes → Daemon → Daemon × List Event
unfolding finish leave
detach_client client d = elim (lookup client d.client_session) [
  | none ↦ (d, [])
  | some id ↦ finish id (leave id client d.attachments) (delete client d.client_session) d.service
]

-- Whether the client gets the session's output.
unfoldable pub is_attached : Bytes → Bytes → Map Clients → Bool
is_attached id client m = elim (lookup id m) [
  | none ↦ false
  | some cs ↦ elim (lookup client cs) [ none ↦ false | some _ ↦ true ]
]
