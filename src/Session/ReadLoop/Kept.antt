-- ===== src/Session/ReadLoop/Kept.antt =====
-- What becomes of the output that readLoop takes.
use mathlib.Core.List.{Sublistᴰ}
use mathlib.Core.List.Sublistᴰ
use mathlib.Core.List.Sublistᴰ.{slnil, cons, cons-cons}
use wmux.Prelude.{
  ℕ, ◌≡◌, ◌≤◌, refl, sym, ap, subst, ◌∙◌, inl, inr, ltb, if◌then◌else◌, Bool, true, false,
  Bool-cases, List, [], ◌∷◌, ◌++◌, append-nil, append_assoc, length-append, Option, none, some,
  Bytes, length, arith,
}
use wmux.Session.Buffer as Buffer
use wmux.Session.Buffer.{new_buffer}
use wmux.Session.Buffer.Fifo.{content-write, content-read}
use wmux.Session.Batcher.{
  Batcher, new_batcher, Woken, by_done, by_flush, by_tick, add, stop, turn, do_flush, flush_now,
}
use wmux.Session.ReadLoop.{
  emulator_chan_size, Reading, Step, reads, emulates, turns, stops, hands_out, send, take_chunk,
  read_round, emulate, batch_turn, step, run, flushed, written, new_reading,
}

abbrev pub joined : List Bytes → Bytes
joined [] = []
joined (c ∷ cs) = c ++ joined cs

joined-snoc : (cs : List Bytes) (c : Bytes) → joined (cs ++ c ∷ []) ≡ joined cs ++ c
joined-snoc [] c = append-nil c
joined-snoc (d ∷ cs) c = ap (λ x. d ++ x) (joined-snoc cs c) ∙ sym (append_assoc d (joined cs) c)

buf-add : (c : Bytes) (b : Batcher) → (add c b).buf ≡ b.buf ++ c
unfolding add flush_now
buf-add c b = ground arith

abbrev bytes_of : Option Bytes → Bytes
bytes_of none = []
bytes_of (some p) = p

buf-turn : (w : Woken) (b : Batcher) → bytes_of (turn w b).1 ++ (turn w b).0.buf ≡ b.buf
unfolding turn do_flush
buf-turn by_done b = ground arith
buf-turn by_flush b = ground (arith, append-nil b.buf)
buf-turn by_tick b = ground (arith, append-nil b.buf)

content-flushed :
    (grow : Bool) (p : Option Bytes) (b : Buffer.Buffer)
    → (flushed grow p b).content ≡ b.content ++ bytes_of p
unfolding flushed
content-flushed grow none b = sym (append-nil b.content)
content-flushed grow (some p) b = content-write grow p b

module _ {E : Type 0} where
  -- The chunk that a step takes from the PTY, if it takes one.
  abbrev pub taken : Step → Reading E → List Bytes
  taken (reads [] failed now) r = []
  taken (reads (b ∷ bs) failed now) r =
      if r.ended then [] else if r.buffer.paused then [] else (b ∷ bs) ∷ []
  taken _ r = []

  abbrev pub all_taken : (Bytes → E → E) → List Step → Reading E → List Bytes
  all_taken process [] r = []
  all_taken process (o ∷ os) r = taken o r ++ all_taken process os (step process o r).0

  abbrev pub replay : (Bytes → E → E) → List Bytes → E → E
  replay process [] e = e
  replay process (c ∷ cs) e = replay process cs (process c e)

  replay-snoc :
      (process : Bytes → E → E) (cs : List Bytes) (c : Bytes) (e : E)
      → replay process (cs ++ c ∷ []) e ≡ process c (replay process cs e)
  replay-snoc process [] c e = refl
  replay-snoc process (d ∷ cs) c e = replay-snoc process cs c (process d e)

  module _ (process : Bytes → E → E) (start : E) where
    -- The chunks that were taken, what was handed out, and the state behind it. The bytes that are
    -- handed out, buffered or batched are those of the chunks. The emulator has been through some of the
    -- chunks in order, those that wait in its channel come behind them, and at most 64 wait. The
    -- history has all chunks, if there is a writer.
    pub record Kept (logging : Bool) (cs : List Bytes) (out : Bytes) (r : Reading E) : Type 0 where
      pub output : out ++ r.buffer.content ++ r.batcher.buf ≡ joined cs
      pub seen : List Bytes
      pub screen : r.emulator ≡ replay process seen start
      pub shown : Sublistᴰ (seen ++ r.emulator_ch) cs
      pub bounded : length r.emulator_ch ≤ emulator_chan_size
      pub logged : r.history ≡ (if logging then some cs else none)

    taken-Kept :
        (logging : Bool) (cs : List Bytes) (out : Bytes) (r : Reading E) (b : ℕ) (bs : Bytes)
        (now : ℕ)
        → Kept logging cs out r
        → Kept logging (cs ++ (b ∷ bs) ∷ []) out (take_chunk (b ∷ bs) now r)
    unfolding take_chunk send written
    taken-Kept logging cs out r b bs now k =
        elim (Bool-cases (ltb (length r.emulator_ch) emulator_chan_size)) [
          | inl room ↦
              rw (send, room)
                (record {
                  output = grows;
                  seen = k.seen;
                  screen = k.screen;
                  shown =
                      subst (λ l. Sublistᴰ l (cs ++ (b ∷ bs) ∷ []))
                        (append_assoc k.seen r.emulator_ch ((b ∷ bs) ∷ []))
                        (Sublistᴰ.append k.shown (cons-cons refl slnil));
                  bounded = ground (arith, length-append r.emulator_ch ((b ∷ bs) ∷ []));
                  logged = logs;
                })
          | inr full ↦
              rw (send, full)
                (record {
                  output = grows;
                  seen = k.seen;
                  screen = k.screen;
                  shown =
                      subst (λ l. Sublistᴰ l (cs ++ (b ∷ bs) ∷ []))
                        (append-nil (k.seen ++ r.emulator_ch))
                        (Sublistᴰ.append k.shown (cons slnil));
                  bounded = k.bounded;
                  logged = logs;
                })
        ]
      where
        grows :
            out ++ r.buffer.content ++ (add (b ∷ bs) r.batcher).buf ≡ joined (cs ++ (b ∷ bs) ∷ [])
        grows =
            ap (λ x. out ++ r.buffer.content ++ x) (buf-add (b ∷ bs) r.batcher)
            ∙ sym (append_assoc (out ++ r.buffer.content) r.batcher.buf (b ∷ bs))
            ∙ ap (λ x. x ++ b ∷ bs) k.output
            ∙ sym (joined-snoc cs (b ∷ bs))

        logs : written (b ∷ bs) r.history ≡ (if logging then some (cs ++ (b ∷ bs) ∷ []) else none)
        logs = elim (Bool-cases logging) [
          | inl e ↦ rw e (ap (written (b ∷ bs)) (rw e at k.logged))
          | inr e ↦ rw e (ap (written (b ∷ bs)) (rw e at k.logged))
        ]

    emulate-Kept :
        (logging : Bool) (cs : List Bytes) (out : Bytes) (r : Reading E)
        → Kept logging cs out r
        → Kept logging cs out (emulate process r)
    unfolding emulate
    emulate-Kept logging cs out r k = go r.emulator_ch refl
      where
        go :
            (q : List Bytes)
            → r.emulator_ch ≡ q
            → Kept logging cs out (elim q [
              | [] ↦ r
              | c ∷ q' ↦ record r { emulator = process c r.emulator; emulator_ch = q' }
            ])
        go [] e = k
        go (c ∷ q) e = record {
          output = k.output;
          seen = k.seen ++ c ∷ [];
          screen = ap (process c) k.screen ∙ sym (replay-snoc process k.seen c start);
          shown =
              subst (λ l. Sublistᴰ l cs)
                (ap (λ l. k.seen ++ l) e ∙ sym (append_assoc k.seen (c ∷ []) q)) k.shown;
          bounded = omega (arith, ap length e, k.bounded);
          logged = k.logged;
        }

    batch_turn-Kept :
        (logging : Bool) (cs : List Bytes) (out : Bytes) (r : Reading E) (w : Woken) (grow : Bool)
        → Kept logging cs out r
        → Kept logging cs out (batch_turn w grow r)
    unfolding batch_turn
    batch_turn-Kept logging cs out r w grow k = record {
      output =
          ap (λ x. out ++ x ++ (turn w r.batcher).0.buf)
            (content-flushed grow (turn w r.batcher).1 r.buffer)
          ∙ ap (λ x. x ++ (turn w r.batcher).0.buf)
              (sym (append_assoc out r.buffer.content (bytes_of (turn w r.batcher).1)))
          ∙ append_assoc (out ++ r.buffer.content) (bytes_of (turn w r.batcher).1)
              (turn w r.batcher).0.buf
          ∙ ap (λ x. out ++ r.buffer.content ++ x) (buf-turn w r.batcher)
          ∙ k.output;
      seen = k.seen;
      screen = k.screen;
      shown = k.shown;
      bounded = k.bounded;
      logged = k.logged;
    }

    ended-Kept :
        (logging : Bool) (cs : List Bytes) (out : Bytes) (r : Reading E) (failed : Bool)
        → Kept logging cs out r
        → Kept logging cs out (if failed then record r { ended = true } else r)
    ended-Kept logging cs out r false k = k
    ended-Kept logging cs out r true k = record {
      output = k.output;
      seen = k.seen;
      screen = k.screen;
      shown = k.shown;
      bounded = k.bounded;
      logged = k.logged;
    }

    -- A round that takes nothing, and one that takes chunks unless it sleeps or is over.
    idle :
        {logging : Bool} {cs : List Bytes} {out : Bytes} {r s : Reading E} (over paused : Bool)
        → Kept logging cs out r
        → Kept logging cs out s
        → Kept logging cs out (if over then r else if paused then r else s)
    idle true paused k l = k
    idle false true k l = k
    idle false false k l = l

    busy :
        {logging : Bool} {cs : List Bytes} {out : Bytes} {r s : Reading E} (ds : List Bytes)
        (over paused : Bool)
        → Kept logging cs out r
        → Kept logging (cs ++ ds) out s
        → Kept logging
            (cs ++ (if over then [] else if paused then [] else ds))
            out
            (if over then r else if paused then r else s)
    busy {cs = cs} ds true paused k l = rw (append-nil cs) k
    busy {cs = cs} ds false true k l = rw (append-nil cs) k
    busy ds false false k l = l

    read_round-Kept :
        (logging : Bool) (cs : List Bytes) (out : Bytes) (r : Reading E) (c : Bytes) (failed : Bool)
        (now : ℕ)
        → Kept logging cs out r
        → Kept logging (cs ++ taken (reads c failed now) r) out (read_round c failed now r)
    unfolding read_round take_chunk
    read_round-Kept logging cs out r [] failed now k =
        rw (append-nil cs) (idle r.ended r.buffer.paused k (ended-Kept logging cs out r failed k))
    read_round-Kept logging cs out r (b ∷ bs) failed now k =
        busy ((b ∷ bs) ∷ []) r.ended r.buffer.paused k (
          ended-Kept logging (cs ++ (b ∷ bs) ∷ []) out (take_chunk (b ∷ bs) now r) failed
            (taken-Kept logging cs out r b bs now k))

    step-Kept :
        (logging : Bool) (cs : List Bytes) (out : Bytes) (r : Reading E) (o : Step)
        → Kept logging cs out r
        → Kept logging (cs ++ taken o r) (out ++ (step process o r).1) (step process o r).0
    unfolding step stop
    step-Kept logging cs out r (reads c failed now) k =
        rw (append-nil out) (read_round-Kept logging cs out r c failed now k)
    step-Kept logging cs out r emulates k =
        rw (append-nil out, append-nil cs) (emulate-Kept logging cs out r k)
    step-Kept logging cs out r (turns w grow) k =
        rw (append-nil out, append-nil cs) (batch_turn-Kept logging cs out r w grow k)
    step-Kept logging cs out r stops k =
        rw (append-nil out, append-nil cs)
          (record {
            output = k.output;
            seen = k.seen;
            screen = k.screen;
            shown = k.shown;
            bounded = k.bounded;
            logged = k.logged;
          })
    step-Kept logging cs out r hands_out k = rw (append-nil cs) (record {
      output =
          ap (λ x. x ++ r.batcher.buf)
            (append_assoc out (Buffer.read r.buffer).0.bytes (Buffer.read r.buffer).1.content
              ∙ ap (λ x. out ++ x) (content-read r.buffer))
          ∙ k.output;
      seen = k.seen;
      screen = k.screen;
      shown = k.shown;
      bounded = k.bounded;
      logged = k.logged;
    })

    run-Kept :
        (logging : Bool) (cs : List Bytes) (out : Bytes) (os : List Step) (r : Reading E)
        → Kept logging cs out r
        → Kept logging
            (cs ++ all_taken process os r)
            (out ++ (run process os r).1)
            (run process os r).0
    unfolding run
    run-Kept logging cs out [] r k = rw (append-nil cs, append-nil out) k
    run-Kept logging cs out (o ∷ os) r k =
        rw
          (
            ← append_assoc cs (taken o r) (all_taken process os (step process o r).0),
            ← append_assoc out (step process o r).1 (run process os (step process o r).0).1,
          )
          (run-Kept logging (cs ++ taken o r) (out ++ (step process o r).1) os (step process o r).0
            (step-Kept logging cs out r o k))

    -- From a new session, whatever the shell prints, whatever the emulator does with it, and however
    -- the rounds of the two loops, the turns of the batcher and the reads of the buffer come in between:
    -- what is handed out, then buffered, then batched is exactly what readLoop took from the PTY, in
    -- order; the emulator has been through some of the chunks in order, those that wait for it follow
    -- them, and at most 64 wait; and the history writer, if there is one, was given every chunk.
    pub run-new_reading-Kept :
        (high low interval now : ℕ) (logging : Bool) (os : List Step)
        → let r = new_reading high low interval now start logging in
          Kept logging (all_taken process os r) (run process os r).1 (run process os r).0
    unfolding new_reading new_buffer new_batcher
    run-new_reading-Kept high low interval now logging os =
        run-Kept logging [] [] os (new_reading high low interval now start logging) (record {
          output = refl;
          seen = [];
          screen = refl;
          shown = slnil;
          bounded = omega arith;
          logged = refl;
        })
