-- ===== src/Examples/Transport.antt =====
-- The server and the heartbeats on concrete inputs.
use wmux.Prelude.{
  ◌==◌, if◌then◌else◌, Bool, ◌≡◌, refl, ◌++◌, true, false, [], ◌∷◌, List, Option, none, some, ℕ,
  Bytes, bytes_eq, codes, lookup, insert, delete,
}
use wmux.Prelude.Int.{ℤ, pos}
use wmux.Prelude.Keys.{listed}
use wmux.Transport.{
  int_eq, mode_children, Host, Client, Incoming, msg_auth, channel_control, channel_stream, verify,
  check_automation_mode, is_descendant, walk_up, judge, judge_payload, new_server,
}
use wmux.Transport.Registry.{
  encode_to_string, open_control, set_stream, open_stream_at, open_stream, register, accept, kick,
  client,
}
use wmux.Transport.Joining.{Vouched}
use wmux.Transport.Vouched.{Op, accepts, kicks, run, step, run-new_server-Vouched}
use wmux.Transport.Heartbeat.{new_heartbeat_manager, track}
use wmux.Transport.Heartbeat.Silence

abbrev token : Bytes
token = codes "0123456789abcdef0123456789abcdef"

-- The process 9 is a grandchild of the daemon, 4.
abbrev parents : ℤ → Option ℤ
parents p =
    if int_eq p (pos 9) then some (pos 7) else if int_eq p (pos 7) then some (pos 4) else none

abbrev host : Host
host = record { uid = 1000; pid = pos 4; parent_pid = parents }

abbrev arrival : ℕ → Bytes → Incoming
arrival channel rest = record {
  deadline_set = true;
  creds = some (record { uid = 1000; pid = pos 9 });
  frame = some (record { version = 1; type = msg_auth; payload = channel ∷ token ++ rest });
  deadline_cleared = true;
  random = some (171 ∷ []);
  answered = true;
}

-- The second connection asks for the stream of the client of the first, and the third has no token.
abbrev incoming : ℕ → Incoming
incoming conn =
    if conn == 0
    then arrival channel_control []
    else if conn == 1
    then arrival channel_stream (2 ∷ codes "ab")
    else record (arrival channel_control []) {
      frame = some (record { version = 1; type = msg_auth; payload = channel_control ∷ [] });
    }

abbrev history : List Op
history = accepts 0 ∷ accepts 1 ∷ accepts 2 ∷ kicks (codes "zz") ∷ []

abbrev both : Client
both = record {
  id = codes "ab";
  control = 0;
  stream = some 1;
  creds = record { uid = 1000; pid = pos 9 };
  missed_heartbeats = 0;
  last_heartbeat_ack = 0;
}

registered :
    client (codes "ab") (run host incoming history (new_server token mode_children)) ≡ some both
unfolding client run step new_server accept register judge judge_payload verify
    check_automation_mode is_descendant walk_up open_control open_stream open_stream_at set_stream
    encode_to_string kick lookup insert delete bytes_eq
registered = refl

run-new_server-Vouched_example : Vouched host incoming token mode_children (codes "ab") both
run-new_server-Vouched_example =
    run-new_server-Vouched host incoming token mode_children history (codes "ab") both registered

abbrev always : ℕ → Bool
always conn = true

-- One acknowledgment, and then three ticks in a row with a limit of two.
abbrev beats : List Silence.Op
beats =
    Silence.ticks always
    ∷ Silence.acks 5 (codes "ab")
    ∷ Silence.ticks always
    ∷ Silence.ticks always
    ∷ Silence.ticks always
    ∷ []

steady : Silence.Steady (codes "ab") 1 beats
steady = (refl, (refl, (refl, (refl, tt))))

run-overdue-track_example :
    listed
      (codes "ab")
      (Silence.run beats (track both (Silence.run [] (new_heartbeat_manager 2)).0)).1
    ≡ Silence.overdue (codes "ab") 2 0 beats
run-overdue-track_example = Silence.run-overdue-track 2 1 [] beats both refl refl steady

reports : Silence.overdue (codes "ab") 2 0 beats ≡ true
unfolding Silence.overdue bytes_eq
reports = refl

spares : Silence.overdue (codes "ab") 3 0 beats ≡ false
unfolding Silence.overdue bytes_eq
spares = refl
