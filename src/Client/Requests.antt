-- ===== src/Client/Requests.antt =====
-- pkg/client/session.go, exec.go and metadata.go: the requests of the client. `send` is what
-- `sendRequest` returns for a type and a payload; json is an argument for each shape of value.
use wmux.Prelude.{
  ℕ, ◌==◌, if◌then◌else◌, Bool, true, ◌⊎◌, inl, inr, List, [], ◌∷◌, Option, none, some, Bytes, Map,
}
use wmux.Prelude.Int.{ℤ}
use wmux.Protocol.{Frame}
use wmux.Transport.{msg_error}
use wmux.Daemon.Payload.{encode_data_payload}

abbrev msg_create : ℕ
msg_create = 2

abbrev msg_attach : ℕ
msg_attach = 3

abbrev msg_detach : ℕ
msg_detach = 4

abbrev msg_kill : ℕ
msg_kill = 5

abbrev msg_resize : ℕ
msg_resize = 6

abbrev msg_list : ℕ
msg_list = 7

abbrev msg_info : ℕ
msg_info = 8

abbrev msg_input : ℕ
msg_input = 9

abbrev msg_meta_set : ℕ
msg_meta_set = 18

abbrev msg_meta_get : ℕ
msg_meta_get = 19

abbrev msg_exec : ℕ
msg_exec = 21

abbrev msg_exec_sync : ℕ
msg_exec_sync = 22

abbrev msg_kill_prefix : ℕ
msg_kill_prefix = 27

abbrev msg_update_emulator_scrollback : ℕ
msg_update_emulator_scrollback = 28

pub record CreateParams : Type 0 where
  pub shell : Bytes
  pub args : List Bytes
  pub cols : ℤ
  pub rows : ℤ
  pub cwd : Bytes
  pub env : List Bytes

-- The structs that are marshalled.
pub data Body : Type 0 where
  create_body : Bytes → CreateParams → Body
  session_body : Bytes → Body
  resize_body : Bytes → ℤ → ℤ → Body
  scrollback_body : Bytes → ℤ → Body
  prefix_body : Bytes → Body
  exec_body : Bytes → Bytes → Bool → Body
  exec_sync_body : List Bytes → Bytes → Bool → Body
  exec_prefix_body : Bytes → Bytes → Bool → Body
  meta_set_body : Bytes → Bytes → Bytes → Body
  meta_get_body : Bytes → Bytes → Body

-- `daemon text` is what the daemon says.
pub data Error : Type 0 where
  request_timeout write_failed connection_closed marshal_failed unmarshal_failed unparsable : Error
  daemon : Bytes → Error

pub record SessionInfo : Type 0 where
  pub id : Bytes
  pub state : Bytes
  pub pid : ℤ
  pub cols : ℤ
  pub rows : ℤ
  pub shell : Bytes

-- A command history entry, whose fields the client hands on as they are, is a parameter.
pub record AttachResponse (Entry : Type 0) : Type 0 where
  pub session : SessionInfo
  pub snapshot : Option Bytes
  pub command_history : List Entry
  pub in_flight_command : Option Entry

pub record AttachResult (Entry : Type 0) : Type 0 where
  pub session : SessionInfo
  pub replay : Bytes
  pub command_history : List Entry
  pub in_flight_command : Option Entry

pub record KillPrefixResult : Type 0 where
  pub killed : List Bytes
  pub errors : Map Bytes

pub record ExecResult : Type 0 where
  pub session_id : Bytes
  pub ok : Bool
  pub error : Bytes

module _ (marshal : Body → Option Bytes) (parse_error_text : Bytes → Option Bytes)
    (send : ℕ → Bytes → Error ⊎ Frame) where
  unfoldable pub parse_error : Frame → Error
  parse_error f = elim (parse_error_text f.payload) [ none ↦ unparsable | some t ↦ daemon t ]

  -- A response of the type error is one.
  unfoldable pub checked : Error ⊎ Frame → Error ⊎ Frame
  unfolding parse_error
  checked (inl e) = inl e
  checked (inr f) = if f.type == msg_error then inl (parse_error f) else inr f

  parsed : {A : Type 0} → (Bytes → Option A) → Error ⊎ Frame → Error ⊎ A
  parsed unmarshal (inl e) = inl e
  parsed unmarshal (inr f) = elim (unmarshal f.payload) [
    | none ↦ inl unmarshal_failed
    | some a ↦ inr a
  ]

  done : Error ⊎ Frame → Option Error
  done (inl e) = some e
  done (inr f) = none

  -- A request that reports a failure to marshal.
  unfoldable pub request : ℕ → Body → Error ⊎ Frame
  unfolding checked
  request type body = elim (marshal body) [
    | none ↦ inl marshal_failed
    | some payload ↦ checked (send type payload)
  ]

  or_nil : Option Bytes → Bytes
  or_nil none = []
  or_nil (some b) = b

  -- One that sends no payload then.
  unfoldable pub request_anyway : ℕ → Body → Error ⊎ Frame
  unfolding checked or_nil
  request_anyway type body = checked (send type (or_nil (marshal body)))

  unfoldable pub create : (Bytes → Option SessionInfo) → Bytes → CreateParams → Error ⊎ SessionInfo
  unfolding request parsed
  create unmarshal id params = parsed unmarshal (request msg_create (create_body id params))

  attach_result : {Entry : Type 0} → AttachResponse Entry → AttachResult Entry
  unfolding or_nil
  attach_result r = record {
    session = r.session;
    replay = or_nil r.snapshot;
    command_history = r.command_history;
    in_flight_command = r.in_flight_command;
  }

  unfoldable pub attach :
      {Entry : Type 0}
      → (Bytes → Option (AttachResponse Entry))
      → Bytes
      → Error ⊎ AttachResult Entry
  unfolding request parsed attach_result
  attach unmarshal id = elim (parsed unmarshal (request msg_attach (session_body id))) [
    | inl e ↦ inl e
    | inr r ↦ inr (attach_result r)
  ]

  unfoldable pub detach : Bytes → Option Error
  unfolding request_anyway done
  detach id = done (request_anyway msg_detach (session_body id))

  unfoldable pub kill : Bytes → Option Error
  unfolding request_anyway done
  kill id = done (request_anyway msg_kill (session_body id))

  -- `Write`: the payload is not JSON.
  unfoldable pub write : Bytes → Bytes → Option Error
  unfolding checked done encode_data_payload
  write id text = done (checked (send msg_input (encode_data_payload id text)))

  unfoldable pub resize : Bytes → ℤ → ℤ → Option Error
  unfolding request_anyway done
  resize id cols rows = done (request_anyway msg_resize (resize_body id cols rows))

  unfoldable pub update_emulator_scrollback : Bytes → ℤ → Option Error
  unfolding request_anyway done
  update_emulator_scrollback id lines =
      done (request_anyway msg_update_emulator_scrollback (scrollback_body id lines))

  -- Without a prefix the payload is empty.
  list_request : Bytes → Error ⊎ Frame
  unfolding request checked
  list_request [] = checked (send msg_list [])
  list_request (c ∷ prefix) = request msg_list (prefix_body (c ∷ prefix))

  unfoldable pub list : (Bytes → Option (List SessionInfo)) → Bytes → Error ⊎ List SessionInfo
  unfolding list_request parsed
  list unmarshal prefix = parsed unmarshal (list_request prefix)

  unfoldable pub kill_prefix : (Bytes → Option KillPrefixResult) → Bytes → Error ⊎ KillPrefixResult
  unfolding request parsed
  kill_prefix unmarshal prefix = parsed unmarshal (request msg_kill_prefix (prefix_body prefix))

  unfoldable pub info : (Bytes → Option SessionInfo) → Bytes → Error ⊎ SessionInfo
  unfolding request_anyway parsed
  info unmarshal id = parsed unmarshal (request_anyway msg_info (session_body id))

  unfoldable pub exec : Bytes → Bytes → Bool → Option Error
  unfolding request done
  exec id input newline = done (request msg_exec (exec_body id input newline))

  unfoldable pub exec_sync :
      (Bytes → Option (List ExecResult)) → Bytes → List Bytes → Error ⊎ List ExecResult
  unfolding request parsed
  exec_sync unmarshal input targets =
      parsed unmarshal (request msg_exec_sync (exec_sync_body targets input true))

  unfoldable pub exec_prefix :
      (Bytes → Option (List ExecResult)) → Bytes → Bytes → Error ⊎ List ExecResult
  unfolding request parsed
  exec_prefix unmarshal prefix input =
      parsed unmarshal (request msg_exec_sync (exec_prefix_body prefix input true))

  unfoldable pub meta_set : Bytes → Bytes → Bytes → Option Error
  unfolding request_anyway done
  meta_set id key value = done (request_anyway msg_meta_set (meta_set_body id key value))

  unfoldable pub meta_get : (Bytes → Option Bytes) → Bytes → Bytes → Error ⊎ Bytes
  unfolding request_anyway parsed
  meta_get unmarshal id key = parsed unmarshal (request_anyway msg_meta_get (meta_get_body id key))

  unfoldable pub meta_get_all : (Bytes → Option (Map Bytes)) → Bytes → Error ⊎ Map Bytes
  unfolding request_anyway parsed
  meta_get_all unmarshal id = parsed unmarshal (request_anyway msg_meta_get (meta_get_body id []))
