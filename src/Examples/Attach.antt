-- ===== src/Examples/Attach.antt =====
-- Clients and their sessions on concrete inputs.
use wmux.Prelude.{
  ◌≡◌, refl, true, false, [], ◌∷◌, none, some, Bytes, bytes_eq, codes, lookup, insert, inl,
}
use wmux.Prelude.Int.{pos}
use wmux.Prelude.Search.{contains}
use wmux.Session.Ids.{validate_session_id, is_allowed_id_rune}
use wmux.Session.Defs.{CreateOptions, ok}
use wmux.Session.Service.{new_service, new_session, create, create_locked, get, attach}
use wmux.Session.Invariant.{creates, run, step}
use wmux.Daemon.Attach.{Daemon, handle_attach, detach_client, is_attached, join}
use wmux.Daemon.Attach.Agree.{Gone}
use wmux.Daemon.Attach.Reached.{
  Reached, begins, attaches, sessions_change, disconnected-Gone, switch_leaves_client,
}

abbrev opts : CreateOptions
opts = record {
  shell = codes "sh";
  args = [];
  cols = pos 80;
  rows = pos 24;
  cwd = [];
  env = [];
  high_watermark = pos 0;
  low_watermark = pos 0;
}

abbrev a : Bytes
a = codes "a"

abbrev b : Bytes
b = codes "b"

abbrev client : Bytes
client = codes "client"

-- Two sessions and no client yet.
abbrev start : Daemon
start = record {
  attachments = [];
  client_session = [];
  service = run (creates a opts (some 71) 5 ∷ creates b opts (some 72) 6 ∷ []) (new_service 0);
}

free : lookup client start.client_session ≡ none
unfolding lookup
free = refl

abbrev attached : Daemon
attached = (handle_attach client (some a) start).0

attached-Reached : Reached attached
attached-Reached = attaches client a (begins start.service) (inl free)

-- A session that is created next, to which another client attaches.
abbrev other : Bytes
other = codes "other"

abbrev c : Bytes
c = codes "c"

abbrev created : Daemon
created = record attached { service = run (creates c opts (some 73) 7 ∷ []) attached.service }

other_free : lookup other created.client_session ≡ none
unfolding handle_attach get attach run step new_service new_session create create_locked
    validate_session_id is_allowed_id_rune contains lookup insert bytes_eq
other_free = refl

created-Reached : Reached (handle_attach other (some c) created).0
created-Reached =
    attaches other c (sessions_change created.service attached-Reached) (inl other_free)

disconnected-Gone_example :
    Gone client (detach_client client (handle_attach other (some c) created).0).0
disconnected-Gone_example =
    disconnected-Gone (handle_attach other (some c) created).0 client created-Reached

b_exists : get b attached.service ≡ ok (new_session b opts 72 6)
unfolding handle_attach get attach run step new_service new_session create create_locked
    validate_session_id is_allowed_id_rune contains lookup insert bytes_eq
b_exists = refl

in_a : is_attached a client attached.attachments ≡ true
unfolding handle_attach is_attached join get attach run step new_service new_session create
    create_locked validate_session_id is_allowed_id_rune contains lookup insert bytes_eq
in_a = refl

b_is_other : bytes_eq b a ≡ false
unfolding bytes_eq
b_is_other = refl

switch_leaves_client_example :
    is_attached a client
      (detach_client client (handle_attach client (some b) attached).0).0.attachments
    ≡ true
switch_leaves_client_example =
    switch_leaves_client client a b attached (new_session b opts 72 6) b_exists in_a b_is_other
