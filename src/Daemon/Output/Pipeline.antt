-- ===== src/Daemon/Output/Pipeline.antt =====
-- The way of the output from the PTY of a session to its clients: the batcher, the buffer, and the
-- flushes of the daemon. Each session that is created has a batcher and a buffer under its handle.
use wmux.Prelude.{
  ℕ, ◌≡◌, refl, sym, ap, subst, ◌∙◌, ◌==◌, if◌then◌else◌, Bool, inl, inr, List, [], ◌∷◌, ◌++◌,
  append-nil, append_assoc, Option, Option-cases, none, some, Bytes, ◌>>=◌, Returns, Returns-bind,
}
use mathlib.Core.Path.{subst₂}
use wmux.Session.Batcher.{Batcher, Woken, add, turn}
use wmux.Session.Service.{flush}
use wmux.Daemon.Output.{World, State, Effect, with_service}
use wmux.Daemon.Output.Receipt.{
  received, received-append, Handed, Handed-trans, Handed-behind, Cut, cut, Cut-Handed,
}
use wmux.Daemon.Output.Batches.{
  set_batcher, handed, turn-bytes, kept-set_batcher, handed-set_batcher, added-set_batcher,
}
use wmux.Daemon.Output.Passes.{held}
use wmux.Daemon.Output.Delivery.{
  fed-content, Serves, feeds, flushes_session, flushes_all, fed_one, apply, Moves, apply-Moves,
  Moves-Serves,
}
use wmux.Daemon.Output.Delivery

pub record Pipe : Type 0 where
  pub batchers : ℕ → Batcher
  pub state : State

-- A read from the PTY of the session under a handle, a turn of its batcher's loop, and the two cases
-- of broadcastOutput.
pub data Op : Type 0 where
  adds : ℕ → Bytes → Op
  turns : Woken → ℕ → Bool → Op
  signals : Bytes → Op
  ticks : Op

-- The callback `onFlush`, if the turn has something for it.
pass : World → Bool → ℕ → Pipe → Batcher × Option Bytes → Option (Pipe × List Effect)
unfolding apply
pass w grow k pp (b, none) = some (record pp { batchers = set_batcher k b pp.batchers }, [])
pass w grow k pp (b, some out) = do
  (s, effects) ← apply w (feeds grow k out) pp.state
  some (record { batchers = set_batcher k b pp.batchers; state = s }, effects)

-- A step of the daemon, beside the batchers.
beside : World → Delivery.Op → Pipe → Option (Pipe × List Effect)
unfolding apply
beside w o pp = do (s, effects) ← apply w o pp.state; some (record pp { state = s }, effects)

unfoldable pub step : World → Op → Pipe → Option (Pipe × List Effect)
unfolding pass beside add turn
step w (adds k p) pp =
    some (record pp { batchers = set_batcher k (add p (pp.batchers k)) pp.batchers }, [])
step w (turns woken k grow) pp = pass w grow k pp (turn woken (pp.batchers k))
step w (signals j) pp = beside w (flushes_session j) pp
step w ticks pp = beside w flushes_all pp

unfoldable pub run : World → List Op → Pipe → Option (Pipe × List Effect)
unfolding step
run w [] pp = some (pp, [])
run w (o ∷ os) pp = do (s, effects) ← step w o pp; (t, more) ← run w os s; some (t, effects ++ more)

-- What is on its way for the session under the handle: in its buffer, and then in its batcher.
abbrev pub pending : ℕ → Pipe → Bytes
pending h pp = held h pp.state ++ (pp.batchers h).buf

abbrev pub read_one : ℕ → Op → Bytes
read_one h (adds k p) = if k == h then p else []
read_one h _ = []

-- What was read from the PTY.
abbrev pub read_from_pty : ℕ → List Op → Bytes
read_from_pty h [] = []
read_from_pty h (o ∷ os) = read_one h o ++ read_from_pty h os

-- The chunk that a step takes from the session's buffer: a flush that empties it takes all of it.
abbrev pub taken : ℕ → Op → Pipe → Pipe → List Bytes
taken h (adds k p) pp qq = []
taken h (turns woken k grow) pp qq = []
taken h (signals j) pp qq = cut (held h pp.state) (held h qq.state)
taken h ticks pp qq = cut (held h pp.state) (held h qq.state)

-- The chunks that the steps take from the session's buffer.
abbrev pub chunks : World → ℕ → List Op → Pipe → List Bytes
chunks w h [] pp = []
chunks w h (o ∷ os) pp = elim (step w o pp) [
  | none ↦ []
  | some r ↦ taken h o pp r.0 ++ chunks w h os r.0
]

record Advances (w : World) (client id : Bytes) (h : ℕ) (gone : Pipe → List Bytes) (p : Bytes)
    (pp : Pipe) (r : Pipe × List Effect) : Type 0 where
  bytes : Handed id (gone r.0) (received client id r.1) (pending h pp ++ p) (pending h r.0)
  serves : Serves w client id h r.0.state

beside-Advances :
    (w : World) (client id : Bytes) (h : ℕ) (o : Delivery.Op) (pp : Pipe)
    → fed_one h o ≡ []
    → Serves w client id h pp.state
    → Returns
        (Advances w client id h (λ qq. cut (held h pp.state) (held h qq.state)) [] pp)
        (beside w o pp)
unfolding beside
beside-Advances w client id h o pp nothing v =
    let before = held h pp.state in
    let batch = (pp.batchers h).buf in
    Returns-bind (Advances w client id h (λ qq. cut before (held h qq.state)) [] pp)
      (apply w o pp.state) _ (apply-Moves w client id h o pp.state v)
      λ (s, es) a.
        let moved : Cut id (received client id es) before (held h s) =
          subst (λ x. Cut id (received client id es) x (held h s))
            (ap (λ x. before ++ x) nothing ∙ append-nil before) a.bytes in
        record {
          bytes =
              subst
                (λ x.
                  Handed id (cut before (held h s)) (received client id es) x (held h s ++ batch))
                (sym (append-nil (before ++ batch)))
                (Handed-behind id (cut before (held h s)) (received client id es) before (held h s)
                  batch (Cut-Handed id (received client id es) before (held h s) moved));
          serves = Moves-Serves w client id h (fed_one h o) pp.state (s, es) v a;
        }

pass-Advances :
    (w : World) (client id : Bytes) (h : ℕ) (grow : Bool) (k : ℕ) (pp : Pipe)
    (r : Batcher × Option Bytes)
    → handed r.1 ++ r.0.buf ≡ (pp.batchers k).buf
    → Serves w client id h pp.state
    → Returns (Advances w client id h (λ qq. []) [] pp) (pass w grow k pp r)
unfolding pass handed apply with_service flush
pass-Advances w client id h grow k pp (b, none) e v = record {
  bytes = (
    append-nil (pending h pp)
        ∙ ap (λ x. held h pp.state ++ x) (sym (kept-set_batcher k h b pp.batchers e)),
    refl,
  );
  serves = v;
}
pass-Advances w client id h grow k pp (b, some out) e v = record {
  bytes = (
    append-nil (pending h pp)
        ∙ ap (λ x. held h pp.state ++ x) (sym (handed-set_batcher k h b out pp.batchers e))
        ∙ sym (
            append_assoc (held h pp.state) (if k == h then out else [])
              (set_batcher k b pp.batchers h).buf)
        ∙ ap (λ x. x ++ (set_batcher k b pp.batchers h).buf)
            (sym (fed-content grow k h out pp.state.daemon.service.cell)),
    refl,
  );
  serves =
      Moves-Serves w client id h (fed_one h (feeds grow k out)) pp.state _ v
        (apply-Moves w client id h (feeds grow k out) pp.state v);
}

step-Advances :
    (w : World) (client id : Bytes) (h : ℕ) (o : Op) (pp : Pipe)
    → Serves w client id h pp.state
    → Returns (Advances w client id h (taken h o pp) (read_one h o) pp) (step w o pp)
unfolding step
step-Advances w client id h (adds k p) pp v = record {
  bytes = (
    append_assoc (held h pp.state) (pp.batchers h).buf (if k == h then p else [])
        ∙ ap (λ x. held h pp.state ++ x) (sym (added-set_batcher k h p pp.batchers)),
    refl,
  );
  serves = v;
}
step-Advances w client id h (turns woken k grow) pp v =
    pass-Advances w client id h grow k pp (turn woken (pp.batchers k))
      (turn-bytes woken (pp.batchers k)) v
step-Advances w client id h (signals j) pp v =
    beside-Advances w client id h (flushes_session j) pp refl v
step-Advances w client id h ticks pp v = beside-Advances w client id h flushes_all pp refl v

-- While a client is connected and attached to a session, whatever the shells print and however the
-- turns of the batchers and the flushes come in between, for this session and for others, the daemon
-- does not panic. What the session's buffer and its batcher held, and then what was read from the PTY,
-- is, in order and without loss, the chunks that the flushes took from the buffer, each of which
-- empties it, and then what is still in the buffer and in the batcher. The client reads from the data
-- frames of the session exactly these chunks, in order and each whole, but for a chunk that makes more
-- than 4 MiB with the id and its length: its frame is refused, and the client never gets it. That is
-- for ids of attached sessions with less than 256 bytes, and as long as the connection takes the frames
-- that are within the limit.
pub run-delivers :
    (w : World) (client id : Bytes) (h : ℕ) (os : List Op) (pp : Pipe)
    → Serves w client id h pp.state
    → Returns
        (λ r.
          Handed id
            (chunks w h os pp)
            (received client id r.1)
            (pending h pp ++ read_from_pty h os)
            (pending h r.0))
        (run w os pp)
unfolding run
run-delivers w client id h [] pp v = (append-nil (pending h pp), refl)
run-delivers w client id h (o ∷ os) pp v = elim (Option-cases (step w o pp)) [
  | inl e ↦ absurd (
      subst (Returns (Advances w client id h (taken h o pp) (read_one h o) pp)) e
        (step-Advances w client id h o pp v))
  | inr ((s, es), e) ↦
      let a : Advances w client id h (taken h o pp) (read_one h o) pp (s, es) =
        subst (Returns (Advances w client id h (taken h o pp) (read_one h o) pp)) e
          (step-Advances w client id h o pp v) in
      rw (run, e, chunks)
        (Returns-bind _ (run w os s) _ (run-delivers w client id h os s a.serves) λ (t, fs) f.
          subst₂ (λ x y. Handed id (taken h o pp s ++ chunks w h os s) x y (pending h t))
            (sym (received-append client id es fs))
            (append_assoc (pending h pp) (read_one h o) (read_from_pty h os))
            (Handed-trans id (taken h o pp s) (chunks w h os s) (received client id es)
              (received client id fs) (pending h pp ++ read_one h o ++ read_from_pty h os)
              (pending h s ++ read_from_pty h os) (pending h t)
              (Handed-behind id (taken h o pp s) (received client id es)
                (pending h pp ++ read_one h o) (pending h s) (read_from_pty h os) a.bytes)
              f))
]
