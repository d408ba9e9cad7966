-- ===== src/Daemon/Output/Delivery.antt =====
-- What an attached client gets of the output of its session.
use wmux.Prelude.{
  ℕ, ◌≡◌, refl, sym, ap, ◌∙◌, subst, ◌==◌, ==_iff, if◌then◌else◌, Bool, Bool-cases, inl, inr, List,
  [], ◌∷◌, ◌++◌, append-nil, some, Option-cases, Bytes, bytes_eq, bytes_eq_iff, Map, lookup,
  Returns, Returns-bind, Returns-imp, arith,
}
use mathlib.Core.Path.{subst₂}
use wmux.Session.Buffer.{write}
use wmux.Session.Buffer.Fifo.{content-write}
use wmux.Session.Defs.{Service, Managed, update}
use wmux.Session.Service.{flush}
use wmux.Session.Invariant.{IsWellformed, step, step-IsWellformed, flushes}
use wmux.Daemon.Attach.{Clients}
use wmux.Daemon.Waiters.{Waiters}
use wmux.Daemon.Output.{
  World, State, Effect, Outcome, with_service, flush_each, waiter_sessions, flush_output, nobody,
  no_waiters, flush_session_output,
}
use wmux.Daemon.Output.Receipt.{received, Cut}
use wmux.Daemon.Output.Passes.{
  held, Fine, AllFine, Ready, Passes, Passes-trans, Passes-Ready, flush_one-Passes,
  flush_each-Passes,
}

-- The client is connected and in the set of the session, every id that has clients fits the payload
-- of a frame, and the buffer of the session is under the handle.
pub record Serves (w : World) (client id : Bytes) (h : ℕ) (st : State) : Type 0 where
  pub ready : Ready w client id h st
  pub sets : AllFine client id st.daemon.attachments
  pub attached : (cs : Clients) × (lookup id st.daemon.attachments ≡ some cs)

pub data Op : Type 0 where
  feeds : Bool → ℕ → Bytes → Op
  flushes_session : Bytes → Op
  flushes_all : Op

-- The batcher's callback for the session under the handle, and the two cases of broadcastOutput.
unfoldable pub apply : World → Op → State → Outcome
unfolding with_service flush flush_session_output flush_output
apply w (feeds grow k p) st = some (with_service (flush grow k p st.daemon.service) st, [])
apply w (flushes_session j) st = flush_session_output w j st
apply w flushes_all st = flush_output w st

-- What is written to the buffer under the handle.
abbrev pub fed_one : ℕ → Op → Bytes
fed_one h (feeds grow k p) = if k == h then p else []
fed_one h _ = []

waiter_sessions-AllFine :
    (client id : Bytes) (cs : Clients) (sessions : Map Clients) (ws : Waiters)
    → lookup id sessions ≡ some cs
    → AllFine client id (waiter_sessions sessions ws)
unfolding waiter_sessions
waiter_sessions-AllFine client id cs sessions [] e = tt
waiter_sessions-AllFine client id cs sessions ((j, l) ∷ ws) e = elim (Bool-cases (no_waiters l)) [
  | inl none_left ↦ rw none_left (waiter_sessions-AllFine client id cs sessions ws e)
  | inr some_left ↦ elim (Option-cases (lookup j sessions)) [
    | inr (ds, g) ↦ rw (some_left, g) (waiter_sessions-AllFine client id cs sessions ws e)
    | inl g ↦
        rw (some_left, g)
          ((
            (inr refl, λ same. cc (ap (λ i. lookup i sessions) ((bytes_eq_iff j id).0 same))),
            waiter_sessions-AllFine client id cs sessions ws e,
          ))
  ]
]

flush_output-Passes :
    (w : World) (client id : Bytes) (h : ℕ) (st : State)
    → Serves w client id h st
    → Returns (Passes client id h st) (flush_output w st)
unfolding flush_output
flush_output-Passes w client id h st v =
    Returns-bind (Passes client id h st) (flush_each w st.daemon.attachments st) _
      (flush_each-Passes w client id h st.daemon.attachments st v.ready v.sets)
      λ (s, es) p.
        let m = waiter_sessions st.daemon.attachments s.waiters in
        Returns-bind (Passes client id h st) (flush_each w m s) _
          (flush_each-Passes w client id h m s (Passes-Ready v.ready p) (
            waiter_sessions-AllFine client id v.attached.0 st.daemon.attachments s.waiters
              v.attached.1))
          λ (t, fs) q. Passes-trans p q

unsome : {a b : Clients} → some a ≡ some b → a ≡ b
unsome e = cc

lookup-Fine :
    (client id j : Bytes) (cs : Clients) (m : Map Clients)
    → AllFine client id m
    → lookup j m ≡ some cs
    → Fine client id j cs
unfolding lookup
lookup-Fine client id j cs [] f e = cc
lookup-Fine client id j cs ((k, ds) ∷ m) f e = elim (Bool-cases (bytes_eq k j)) [
  | inl same ↦
      let found : ds ≡ cs = unsome (sym (rw same refl) ∙ e) in
      subst₂ (λ i c. Fine client id i c) ((bytes_eq_iff k j).0 same) found f.0
  | inr other ↦ lookup-Fine client id j cs m f.1 (ground arith)
]

flush_session_output-Passes :
    (w : World) (client id j : Bytes) (h : ℕ) (st : State)
    → Serves w client id h st
    → Returns (Passes client id h st) (flush_session_output w j st)
unfolding flush_session_output
flush_session_output-Passes w client id j h st v =
    elim (Option-cases (lookup j st.daemon.attachments)) [
      | inl e ↦ rw (e, flush_session_output) (flush_output-Passes w client id h st v)
      | inr (cs, e) ↦ elim (Bool-cases (nobody cs)) [
        | inl empty ↦ rw (e, flush_session_output, empty) (flush_output-Passes w client id h st v)
        | inr full ↦
            rw (e, flush_session_output, full)
              (flush_one-Passes w client id j h cs st v.ready
                (lookup-Fine client id j cs st.daemon.attachments v.sets e))
      ]
    ]

-- A step of the run, in which `p` is written to the buffer.
pub record Moves (client id : Bytes) (h : ℕ) (p : Bytes) (st : State) (r : State × List Effect)
    : Type 0 where
  pub bytes : Cut id (received client id r.1) (held h st ++ p) (held h r.0)
  pub attachments : r.0.daemon.attachments ≡ st.daemon.attachments
  pub server : r.0.server ≡ st.server
  pub sessions : r.0.daemon.service.sessions ≡ st.daemon.service.sessions
  pub wellformed : IsWellformed r.0.daemon.service

Passes-Moves :
    {client id : Bytes} {h : ℕ} {st : State} (r : State × List Effect)
    → Passes client id h st r
    → Moves client id h [] st r
Passes-Moves {client} {id} {h} {st} r a = record {
  bytes =
      subst (λ b. Cut id (received client id r.1) b (held h r.0)) (sym (append-nil (held h st)))
        a.bytes;
  attachments = a.attachments;
  server = a.server;
  sessions = a.sessions;
  wellformed = a.wellformed;
}

flush-IsWellformed :
    (grow : Bool) (k : ℕ) (p : Bytes) (s : Service)
    → IsWellformed s
    → IsWellformed (flush grow k p s)
unfolding step
flush-IsWellformed grow k p s v = step-IsWellformed (flushes grow k p) s v

pub fed-content :
    (grow : Bool) (k h : ℕ) (p : Bytes) (f : ℕ → Managed)
    → (update f k (record (f k) { buffer = write grow p (f k).buffer }) h).buffer.content
      ≡ (f h).buffer.content ++ (if k == h then p else [])
fed-content grow k h p f = elim (Bool-cases (k == h)) [
  | inl same ↦ rw same (
      content-write grow p (f k).buffer ∙ ap (λ i. (f i).buffer.content ++ p) ((==_iff k h).0 same))
  | inr other ↦ rw other (sym (append-nil (f h).buffer.content))
]

pub apply-Moves :
    (w : World) (client id : Bytes) (h : ℕ) (o : Op) (st : State)
    → Serves w client id h st
    → Returns (Moves client id h (fed_one h o) st) (apply w o st)
unfolding apply with_service flush
apply-Moves w client id h (feeds grow k p) st v = record {
  bytes = inl (refl, fed-content grow k h p st.daemon.service.cell);
  attachments = refl;
  server = refl;
  sessions = refl;
  wellformed = flush-IsWellformed grow k p st.daemon.service v.ready.wellformed;
}
apply-Moves w client id h (flushes_session j) st v =
    Returns-imp (flush_session_output w j st) Passes-Moves
      (flush_session_output-Passes w client id j h st v)
apply-Moves w client id h flushes_all st v =
    Returns-imp (flush_output w st) Passes-Moves (flush_output-Passes w client id h st v)

pub Moves-Serves :
    (w : World) (client id : Bytes) (h : ℕ) (p : Bytes) (st : State) (r : State × List Effect)
    → Serves w client id h st
    → Moves client id h p st r
    → Serves w client id h r.0
Moves-Serves w client id h p st r v a = record {
  ready = record {
    peer = v.ready.peer;
    conn = v.ready.conn;
    known = ap (λ x. lookup client x.clients) a.server ∙ v.ready.known;
    streaming = v.ready.streaming;
    writes = v.ready.writes;
    session = ap (lookup id) a.sessions ∙ v.ready.session;
    wellformed = a.wellformed;
  };
  sets = subst (AllFine client id) (sym a.attachments) v.sets;
  attached = (v.attached.0, ap (lookup id) a.attachments ∙ v.attached.1);
}
