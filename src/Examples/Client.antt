-- ===== src/Examples/Client.antt =====
-- The client's side on concrete inputs.
use wmux.Prelude.{
  ℕ, suc, ◌<◌, ◌≤◌, ◌≡◌, refl, Bool, true, false, not, List, [], ◌∷◌, ◌++◌, none, some, Bytes,
  bytes_eq, codes, lookup, length, arith,
}
use wmux.Prelude.Int.{pos}
use wmux.Protocol.{max_payload_size, Frame}
use wmux.Transport.{
  mode_same_user, Creds, Host, Client, Server, Incoming, new_server, sends, frame, msg_ok,
}
use wmux.Transport.Registry.{handle_conn, client, broadcast_to, fine}
use wmux.Daemon.History.{history_frames, cut, chunks}
use wmux.Client.Stream.{auth_frame}
use wmux.Client.History.{open_history, dump, dump_rest}
use wmux.Client.History.Readback.{contents, AllSmall, dump_all, is_empty, history_frames-contents}
use wmux.Prelude.Every.{All}
use wmux.Client.Rpc.{
  idle, Op, passes, locks, receives, times_out, answers, drains, pass, lock, receive, time_out,
  answer, drain, step, run,
}
use wmux.Client.Rpc.Matched.{OneByOne, Matches, run-idle-Matches}
use wmux.Prelude.Atoi.{atoi, atoi_fails}
use wmux.Prelude.Decimal.{decimal}
use wmux.Client.Config.{
  Config, default, new_config, build_daemon_args, parse_daemon_args, is_daemon_mode, value_flag,
  bare_flag,
}
use wmux.Client.Config.Handover.{Fits, handed_over, new_config-build_daemon_args}
use wmux.Client.Connect.{Dials, handle_conn-connects}

abbrev replay : Bytes
replay = codes "hello"

one : 0 < 2
one = omega arith

-- At most four bytes, with a buffer of two.
history_frames-contents_example :
    (contents 2 (suc (length replay)) (open_history (history_frames 4 replay ++ []))
      ≡ some (cut 4 replay))
    × AllSmall (history_frames 4 replay)
    × (dump_all (history_frames 4 replay) ≡ (cut 4 replay, not (is_empty (cut 4 replay))))
history_frames-contents_example = history_frames-contents 4 2 replay [] one

cuts : cut 4 replay ≡ codes "hell"
unfolding cut
cuts = refl

-- Without data the command waits for more frames.
hangs : dump_all (history_frames 4 []) ≡ ([], false)
unfolding history_frames cut chunks dump_all dump dump_rest
hangs = refl

abbrev token : Bytes
token = codes "0123456789abcdef0123456789abcdef"

abbrev creds : Creds
creds = record { uid = 1000; pid = pos 9 }

abbrev host : Host
host = record { uid = 1000; pid = pos 4; parent_pid = λ p. none }

abbrev id : Bytes
id = codes "ab"

abbrev peer : Client
peer = record {
  id = id;
  control = 0;
  stream = none;
  creds = creds;
  missed_heartbeats = 0;
  last_heartbeat_ack = 0;
}

abbrev server : Server
server = record (new_server token mode_same_user) { clients = (id, peer) ∷ [] }

abbrev dialing : Incoming
dialing = record {
  deadline_set = true;
  creds = some creds;
  frame = some (auth_frame token id);
  deadline_cleared = true;
  random = none;
  answered = true;
}

dials : Dials host server id dialing
unfolding new_server
dials = record {
  in_time = (refl, refl);
  peer = (creds, refl, refl);
  writes = refl;
  token = refl;
  id_fits = (omega arith, omega arith);
}

registered : lookup id server.clients ≡ some peer
unfolding lookup bytes_eq
registered = refl

handle_conn-connects_example :
    ((handle_conn host 7 dialing server).1 ≡ sends 7 (frame msg_ok []) ∷ [])
    × ((writable : ℕ → Bool) (f : Frame)
        → writable 7 ≡ true
        → length f.payload ≤ max_payload_size
        → broadcast_to writable id f (handle_conn host 7 dialing server).0 ≡ (sends 7 f ∷ [], fine))
    × ((j : Bytes)
        → bytes_eq id j ≡ false
        → client j (handle_conn host 7 dialing server).0 ≡ client j server)
handle_conn-connects_example =
    handle_conn-connects host 7 dialing server id peer dials refl registered refl

-- A call gives up, its response comes late, and the next call is given its own.
abbrev one_by_one : List Op
one_by_one =
    passes ∷ locks ∷ times_out ∷ answers ∷ drains ∷ passes ∷ locks ∷ answers ∷ receives ∷ []

returns_second : run one_by_one idle ≡ (1, 1) ∷ []
unfolding run step pass lock receive time_out answer drain
returns_second = refl

one_by_one-OneByOne : OneByOne one_by_one idle
unfolding step pass lock receive time_out answer drain
one_by_one-OneByOne = (refl, refl, (refl, refl, tt))

run-idle-Matches_example : All Matches (run one_by_one idle)
run-idle-Matches_example = run-idle-Matches one_by_one one_by_one-OneByOne

-- A client with two settings of its own.
abbrev own_config : Config
own_config = record default {
  namespace = codes "work";
  base_dir = codes "/b";
  socket = codes "--cold-restore";
  cold_restore = true;
  max_scrollback_size = pos 4096;
}

hands_over :
    (new_config
      (parse_daemon_args (codes "wmux" ∷ build_daemon_args own_config))).max_scrollback_size
    ≡ pos 4096
unfolding new_config parse_daemon_args build_daemon_args bytes_eq decimal atoi atoi_fails
hands_over = refl

no_value : value_flag (codes "wmux") ≡ none
unfolding value_flag bytes_eq
no_value = refl

no_flag : bare_flag (codes "wmux") ≡ []
unfolding bare_flag bytes_eq
no_flag = refl

size-Fits : Fits (pos 4096)
size-Fits = omega arith

new_config-build_daemon_args_example :
    (is_daemon_mode (codes "wmux" ∷ build_daemon_args own_config) ≡ true)
    × (new_config (parse_daemon_args (codes "wmux" ∷ build_daemon_args own_config))
        ≡ handed_over own_config)
new_config-build_daemon_args_example =
    new_config-build_daemon_args (codes "wmux") own_config no_value no_flag size-Fits
