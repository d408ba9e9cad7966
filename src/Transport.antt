-- ===== src/Transport.antt =====
-- internal/transport/service.go, entity.go and values.go: the handshake of a connection, the registry
-- of clients and what is broadcast to them; auth.Verify of internal/platform/auth/token.go. A
-- connection is a number, and what arrives on it is a record. Of the process table and of the ids of
-- the process itself the model has what `Host` holds.
pub mod Ancestry
pub mod Registry
pub mod Admission
pub mod Joining
pub mod Vouched
pub mod Heartbeat
use wmux.Prelude.{
  ℕ, zero, suc, ◌+◌, ◌/◌, ◌%◌, ltb, leb, ◌==◌, not, if◌then◌else◌, ◌&&◌, Bool, true, false, List,
  [], ◌∷◌, ◌++◌, Option, none, some, Bytes, bytes_eq, codes, Map, lookup, insert, delete, length,
  take, drop,
}
use wmux.Prelude.Int.{ℤ, pos, negsuc}
use wmux.Protocol.{Frame, protocol_version}

abbrev pub token_size : ℕ
token_size = 32

abbrev pub min_auth_payload_size : ℕ
min_auth_payload_size = 1 + token_size

abbrev pub msg_auth : ℕ
msg_auth = 16

abbrev pub msg_ok : ℕ
msg_ok = 14

abbrev pub msg_error : ℕ
msg_error = 13

abbrev pub channel_control : ℕ
channel_control = 1

abbrev pub channel_stream : ℕ
channel_stream = 2

-- `mode_other` is every value without a name.
pub data AutomationMode : Type 0 where
  mode_open mode_same_user mode_children mode_other : AutomationMode

pub data Error : Type 0 where
  auth_failed client_not_found invalid_channel duplicate_channel no_client_id : Error

unfoldable pub parse_automation_mode : Bytes → Option AutomationMode
parse_automation_mode s =
    if bytes_eq s (codes "open")
    then some mode_open
    else if bytes_eq s (codes "same-user")
    then some mode_same_user
    else if bytes_eq s (codes "children")
    then some mode_children
    else none

-- PeerCredentials, an answer of the operating system.
pub record Creds : Type 0 where
  pub uid : ℕ
  pub pid : ℤ

-- The user and the process of the daemon, and `parentPID`, where `none` is an error.
pub record Host : Type 0 where
  pub uid : ℕ
  pub pid : ℤ
  pub parent_pid : ℤ → Option ℤ

-- The time of connection is left out.
pub record Client : Type 0 where
  pub id : Bytes
  pub control : ℕ
  pub stream : Option ℕ
  pub creds : Creds
  pub missed_heartbeats : ℕ
  pub last_heartbeat_ack : ℕ

pub record Server : Type 0 where
  pub token : Bytes
  pub clients : Map Client
  pub mode : AutomationMode
  pub closed : Bool
  pub has_callback : Bool

-- What happens on a connection: whether its deadline could be set, the credentials of its peer, the
-- first frame, whether the deadline could be cleared, the random bytes drawn for it, and whether the
-- answer could be written.
pub record Incoming : Type 0 where
  pub deadline_set : Bool
  pub creds : Option Creds
  pub frame : Option Frame
  pub deadline_cleared : Bool
  pub random : Option Bytes
  pub answered : Bool

pub data Effect : Type 0 where
  sends : ℕ → Frame → Effect
  closes : ℕ → Effect
  on_client : Bytes → Effect

unfoldable pub new_server : Bytes → AutomationMode → Server
new_server token mode = record {
  token = token;
  clients = [];
  mode = mode;
  closed = false;
  has_callback = false;
}

unfoldable pub on_client_func : Server → Server
on_client_func s = record s { has_callback = true }

-- auth.Verify, where subtle.ConstantTimeCompare tells whether its arguments are equal.
unfoldable pub verify : Bytes → Bytes → Bool
verify stored candidate =
    if length candidate == token_size then bytes_eq stored candidate else false

abbrev pub int_eq : ℤ → ℤ → Bool
int_eq (pos m) (pos n) = m == n
int_eq (negsuc m) (negsuc n) = m == n
int_eq _ _ = false

abbrev pub is_positive : ℤ → Bool
is_positive (pos n) = ltb 0 n
is_positive (negsuc n) = false

-- The loop of `isDescendant`, on the steps that it has left.
unfoldable pub walk_up : (ℤ → Option ℤ) → ℕ → ℤ → ℤ → Bool
walk_up parent_pid zero current ancestor = false
walk_up parent_pid (suc n) current ancestor = elim (parent_pid current) [
  | none ↦ false
  | some ppid ↦
      let rest = walk_up parent_pid n ppid ancestor in
      if is_positive ppid then if int_eq ppid ancestor then true else rest else false
]

abbrev pub max_depth : ℕ
max_depth = 64

unfoldable pub is_descendant : (ℤ → Option ℤ) → ℤ → ℤ → Bool
unfolding walk_up
is_descendant parent_pid child ancestor = walk_up parent_pid max_depth child ancestor

-- Whether `checkAutomationMode` returns nil.
unfoldable pub check_automation_mode : Host → AutomationMode → Creds → Bool
unfolding is_descendant
check_automation_mode host mode_open creds = true
check_automation_mode host mode_same_user creds = creds.uid == host.uid
check_automation_mode host mode_children creds = is_descendant host.parent_pid creds.pid host.pid
check_automation_mode host mode_other creds = false

error_text : Error → Bytes
error_text auth_failed = codes "transport: authentication failed"
error_text client_not_found = codes "transport: client not found"
error_text invalid_channel = codes "transport: invalid channel type"
error_text duplicate_channel = codes "transport: duplicate channel"
error_text no_client_id = codes "internal error generating client ID"

abbrev pub frame : ℕ → Bytes → Frame
frame type payload = record { version = protocol_version; type = type; payload = payload }

-- `sendError` and `Close`.
unfoldable pub refuse : ℕ → Error → List Effect
unfolding error_text
refuse conn e = sends conn (frame msg_error (error_text e)) ∷ closes conn ∷ []

-- What `handleConn` has decided before it looks at the channel.
pub data Verdict : Type 0 where
  drops : Verdict
  refuses : Verdict
  admits : Creds → ℕ → Bytes → Verdict

-- From the first frame on: `admits` has the channel byte and the whole payload.
unfoldable pub judge_payload : Host → Server → Incoming → Creds → Bytes → Verdict
unfolding verify check_automation_mode
judge_payload host s i creds [] = refuses
judge_payload host s i creds (channel ∷ rest) =
    if ltb (length (channel ∷ rest)) min_auth_payload_size
    then refuses
    else if not (verify s.token (take token_size rest))
    then refuses
    else if not (check_automation_mode host s.mode creds)
    then refuses
    else if i.deadline_cleared
    then admits creds channel (channel ∷ rest)
    else drops

unfoldable pub judge : Host → Server → Incoming → Verdict
unfolding judge_payload
judge host s i = if not i.deadline_set then drops else elim i.creds [
  | none ↦ refuses
  | some creds ↦ elim i.frame [
    | none ↦ refuses
    | some f ↦ if f.type == msg_auth then judge_payload host s i creds f.payload else refuses
  ]
]
