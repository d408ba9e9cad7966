-- ===== src/Examples/Output.antt =====
-- Waiters and the delivery of output on concrete inputs.
use mathlib.Core.List.{Memᴰ}
use mathlib.Core.List.Memᴰ.{head}
use wmux.Prelude.{
  ◌≡◌, refl, ◌++◌, true, false, [], ◌∷◌, List, none, some, Bytes, bytes_eq, codes, lookup, insert,
  length, inl, arith, Returns,
}
use wmux.Prelude.Int.{pos}
use wmux.Prelude.Search.{contains}
use wmux.Session.Ids.{validate_session_id, is_allowed_id_rune}
use wmux.Session.Defs.{CreateOptions, Service}
use wmux.Session.Service.{new_service, create, create_locked}
use wmux.Session.Invariant.{creates, step, run, run-IsWellformed, new_service-IsWellformed}
use wmux.Transport.{Client, mode_open, new_server}
use wmux.Daemon.Waiters.{WaitResponse, Waiter, Waiters, wait_match, waiters_of, wake, receives}
use wmux.Daemon.Waiters.Steps.{Op, outputs, exits}
use wmux.Daemon.Waiters.Steps
use wmux.Daemon.Waiters.Answers
use wmux.Daemon.Attach.{Clients}
use wmux.Daemon.Output.{World, State}
use wmux.Daemon.Output.Receipt.{received, Handed}
use wmux.Daemon.Output.Delivery
use wmux.Daemon.Output.Pipeline
use wmux.Session.Batcher.{new_batcher, by_tick}

abbrev a : Bytes
a = codes "a"

abbrev opts : CreateOptions
opts = record {
  shell = codes "sh";
  args = [];
  cols = pos 80;
  rows = pos 24;
  cwd = [];
  env = [];
  high_watermark = pos 0;
  low_watermark = pos 0;
}

-- Waits for "ok" in the output.
abbrev waiter : Waiter
waiter = record {
  handle = 3;
  mode = wait_match;
  pattern = codes "ok";
  idle_for = 0;
  resets = 0;
  done = none;
}

abbrev waiting : Waiters
waiting = (a, waiter ∷ []) ∷ []

waiter_waits : Memᴰ waiter (waiters_of a waiting)
unfolding waiters_of lookup bytes_eq
waiter_waits = head refl

-- The pattern is split between two chunks, and then the session exits.
abbrev before : List Op
before = outputs a (codes "o") ∷ outputs a (codes "k") ∷ []

exit-answers_example :
    (r : WaitResponse) × (v : Waiter) × (Answers.first_answer a wait_match
        (codes "ok")
        (before ++ exits a (pos 7) ∷ [])
      ≡ some r)
    × Memᴰ v (waiters_of a (Steps.run (before ++ exits a (pos 7) ∷ []) waiting))
    × (v.handle ≡ 3)
    × (wake a 0 receives v ≡ some r)
exit-answers_example =
    Answers.exit-answers a waiter waiting (pos 7) before [] 0 refl waiter_waits (tt, (tt, (tt, tt)))

-- A client that is attached to the session, which has been created.
abbrev client : Bytes
client = codes "client"

abbrev peer : Client
peer = record {
  id = client;
  control = 0;
  stream = some 1;
  creds = record { uid = 0; pid = pos 9 };
  missed_heartbeats = 0;
  last_heartbeat_ack = 0;
}

abbrev world : World
world = record {
  parse_url = λ v. none;
  file = λ p. (length p, true);
  line = λ p. some p;
  writable = λ conn. true;
}

abbrev service : Service
service = run (creates a opts (some 71) 5 ∷ []) (new_service 0)

abbrev start : State
start = record {
  daemon = record {
    attachments = (a, (client, tt) ∷ []) ∷ [];
    client_session = (client, a) ∷ [];
    service = service;
  };
  server = record (new_server [] mode_open) { clients = (client, peer) ∷ [] };
  waiters = waiting;
  line_counters = (a, 0) ∷ [];
  scrollback_writers = [];
  recordings = [];
}

has_session : lookup a service.sessions ≡ some 0
unfolding run step new_service create create_locked validate_session_id is_allowed_id_rune contains
    lookup insert bytes_eq
has_session = refl

has_client : lookup client ((client, peer) ∷ []) ≡ some peer
unfolding lookup bytes_eq
has_client = refl

abbrev clients : Clients
clients = (client, tt) ∷ []

abbrev nobody : Clients
nobody = []

in_set : lookup client clients ≡ some tt
unfolding lookup bytes_eq
in_set = refl

no_other : lookup client nobody ≡ none
unfolding lookup
no_other = refl

has_set : lookup a start.daemon.attachments ≡ some ((client, tt) ∷ [])
unfolding lookup bytes_eq
has_set = refl

serves : Delivery.Serves world client a 0 start
serves = record {
  ready = record {
    peer = peer;
    conn = 1;
    known = has_client;
    streaming = refl;
    writes = refl;
    session = has_session;
    wellformed =
        run-IsWellformed (creates a opts (some 71) 5 ∷ []) (new_service 0)
          (new_service-IsWellformed 0);
  };
  sets = ((inl (omega arith), λ same. (in_set, (no_other, tt))), tt);
  attached = ((client, tt) ∷ [], has_set);
}

-- The batchers are new, and two of their turns hand something over.
abbrev pipe : Pipeline.Pipe
pipe = record { batchers = λ k. new_batcher 16000000; state = start }

abbrev steps : List Pipeline.Op
steps =
    Pipeline.adds 0 (codes "hel")
    ∷ Pipeline.turns by_tick 0 false
    ∷ Pipeline.signals a
    ∷ Pipeline.adds 0 (codes "lo")
    ∷ Pipeline.turns by_tick 0 true
    ∷ Pipeline.ticks
    ∷ Pipeline.adds 0 (codes "!")
    ∷ []

run-delivers_example :
    Returns
      (λ r.
        Handed a
          (Pipeline.chunks world 0 steps pipe)
          (received client a r.1)
          (Pipeline.pending 0 pipe ++ Pipeline.read_from_pty 0 steps)
          (Pipeline.pending 0 r.0))
      (Pipeline.run world steps pipe)
run-delivers_example = Pipeline.run-delivers world client a 0 steps pipe serves
