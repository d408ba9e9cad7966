-- ===== src/Client/History/Readback.antt =====
-- What the client reads is what the daemon cut into chunks.
use wmux.Prelude.{
  ℕ, zero, suc, ◌+◌, ◌≤◌, ◌<◌, ◌≡◌, refl, sym, ap, ◌∙◌, ltb, not, Bool, true, false, Bool-cases,
  inl, inr, List, [], ◌∷◌, ◌++◌, append_assoc, map, Option, none, some, Bytes, length, take, drop,
  length-take, length-drop, take-append-drop, length-append, arith, lt→ltb,
}
use wmux.Protocol.{Frame, max_payload_size}
use wmux.Platform.Scrollback.{concat}
use wmux.Daemon.History.{chunk_size, cut, chunks, history_frame, end_frame, history_frames}
use wmux.Client.History.{
  HistoryReader, End, more, eof, unexpected_type, load, receive, read_loaded, read, Opened, reads,
  no_history, open_history, dump_rest, dump,
}

-- Every chunk has a byte, and none is larger than the size.
abbrev pub Sized : ℕ → List Bytes → Type 0
Sized size [] = Unit
Sized size (c ∷ cs) = (0 < length c) × (length c ≤ size) × Sized size cs

chunks-Sized : (size fuel : ℕ) (s : Bytes) → 0 < size → Sized size (chunks size fuel s)
unfolding chunks
chunks-Sized size zero s p = tt
chunks-Sized size (suc fuel) [] p = tt
chunks-Sized size (suc fuel) (c ∷ s) p = (
  omega (arith, length-take size (c ∷ s)),
  omega (arith, length-take size (c ∷ s)),
  chunks-Sized size fuel (drop size (c ∷ s)) p,
)

concat-chunks :
    (size fuel : ℕ) (s : Bytes) → 0 < size → length s ≤ fuel → concat (chunks size fuel s) ≡ s
unfolding chunks
concat-chunks size zero [] p h = refl
concat-chunks size zero (c ∷ s) p h = ground arith
concat-chunks size (suc fuel) [] p h = refl
concat-chunks size (suc fuel) (c ∷ s) p h =
    ap (λ x. take size (c ∷ s) ++ x)
      (concat-chunks size fuel (drop size (c ∷ s)) p (omega (arith, length-drop size (c ∷ s))))
    ∙ take-append-drop size (c ∷ s)

-- Reading with a buffer of `n` bytes until the end; `none` if the fuel is too small or the read fails.
after_read : (HistoryReader → Option Bytes) → HistoryReader × Bytes × End → Option Bytes
after_read next (r, out, more) = elim (next r) [ none ↦ none | some rest ↦ some (out ++ rest) ]
after_read next (r, out, eof) = some out
after_read next (r, out, unexpected_type) = none

unfoldable pub read_all : ℕ → ℕ → HistoryReader → Option Bytes
unfolding after_read
read_all n zero r = none
read_all n (suc fuel) r = after_read (read_all n fuel) (read n r)

abbrev streaming : List Bytes → List Frame → Bytes → HistoryReader
streaming cs later buf = record {
  frames = map history_frame cs ++ end_frame ∷ later;
  buf = buf;
  done = false;
  initial = [];
  used_init = true;
}

read_all-streaming :
    (n fuel : ℕ) (initial buf : Bytes) (cs : List Bytes) (later : List Frame)
    → 0 < n
    → Sized chunk_size cs
    → length buf + length (concat cs) < fuel
    → read_all n fuel (record (streaming cs later buf) { initial = initial })
      ≡ some (buf ++ concat cs)
unfolding read_all read load after_read read_loaded receive
read_all-streaming n zero initial buf cs later p s h = ground arith
read_all-streaming n (suc fuel) initial (b ∷ bs) cs later p s h =
    let e : read n (record (streaming cs later (b ∷ bs)) { initial = initial }) ≡ (
      record (streaming cs later (drop n (b ∷ bs))) { initial = initial },
      take n (b ∷ bs),
      more,
    ) =
      ground arith in
    let rest =
      read_all-streaming n fuel initial (drop n (b ∷ bs)) cs later p s
        (omega (arith, length-drop n (b ∷ bs))) in
    rw (e, rest)
      (ap some (
        sym (append_assoc (take n (b ∷ bs)) (drop n (b ∷ bs)) (concat cs))
        ∙ ap (λ x. x ++ concat cs) (take-append-drop n (b ∷ bs))))
read_all-streaming n (suc fuel) initial [] [] later p s h = refl
read_all-streaming n (suc fuel) initial [] (c ∷ cs) later p s h =
    elim (Bool-cases (ltb n (length c))) [
      | inl part ↦
          let rest =
            read_all-streaming n fuel initial (drop n c) cs later p s.2
              (omega (arith, length-drop n c, length-append c (concat cs), s.0)) in
          rw (part, rest)
            (ap some (
              sym (append_assoc (take n c) (drop n c) (concat cs))
              ∙ ap (λ x. x ++ concat cs) (take-append-drop n c)))
      | inr whole ↦
          let rest =
            read_all-streaming n fuel initial [] cs later p s.2
              (omega (arith, length-append c (concat cs), s.0)) in
          rw (whole, rest) refl
    ]

-- What the client gets of the history, with buffers of `n` bytes.
unfoldable pub contents : ℕ → ℕ → Opened → Option Bytes
unfolding read_all
contents n fuel (reads r) = read_all n fuel r
contents n fuel no_history = some []
contents n fuel _ = none

abbrev first_reader : Bytes → List Bytes → List Frame → HistoryReader
first_reader c cs later = record {
  frames = map history_frame cs ++ end_frame ∷ later;
  buf = [];
  done = false;
  initial = c;
  used_init = false;
}

load-first :
    (c : Bytes) (cs : List Bytes) (later : List Frame)
    → 0 < length c
    → load (first_reader c cs later) ≡ record (streaming cs later c) { initial = c }
unfolding load
load-first c cs later h = let e = lt→ltb 0 (length c) h in rw e refl

contents-open :
    (n fuel : ℕ) (cs : List Bytes) (later : List Frame)
    → 0 < n
    → Sized chunk_size cs
    → length (concat cs) < fuel
    → contents n fuel (open_history (map history_frame cs ++ end_frame ∷ later)) ≡ some (concat cs)
unfolding contents open_history read_all read load
contents-open n fuel [] later p s h = refl
contents-open n zero (c ∷ cs) later p s h = ground arith
contents-open n (suc fuel) (c ∷ cs) later p s h =
    let e : load (first_reader c cs later) ≡ record (streaming cs later c) { initial = c } =
      load-first c cs later s.0 in
    ap (λ r. after_read (read_all n fuel) (read_loaded n r)) e
    ∙ read_all-streaming n (suc fuel) c c cs later p s.2
        (omega (arith, length-append c (concat cs)))

dump_rest-chunks :
    (cs : List Bytes) (later : List Frame)
    → dump_rest (map history_frame cs ++ end_frame ∷ later) ≡ (concat cs, true)
unfolding dump_rest
dump_rest-chunks [] later = refl
dump_rest-chunks (c ∷ cs) later = rw (dump_rest-chunks cs later) refl

-- The payloads are within the limit of the protocol.
abbrev pub AllSmall : List Frame → Type 0
AllSmall [] = Unit
AllSmall (f ∷ fs) = (length f.payload ≤ max_payload_size) × AllSmall fs

-- The history command on the frames that come, when no more than these do.
unfoldable pub dump_all : List Frame → Bytes × Bool
unfolding dump
dump_all [] = ([], false)
dump_all (f ∷ fs) = dump f fs

abbrev pub is_empty : Bytes → Bool
is_empty [] = true
is_empty (c ∷ s) = false

chunks-AllSmall :
    (cs : List Bytes) → Sized chunk_size cs → AllSmall (map history_frame cs ++ end_frame ∷ [])
chunks-AllSmall [] h = (omega arith, tt)
chunks-AllSmall (c ∷ cs) h = (omega (arith, h.1), chunks-AllSmall cs h.2)

dump_all-chunks :
    (cs : List Bytes)
    → Sized chunk_size cs
    → dump_all (map history_frame cs ++ end_frame ∷ []) ≡ (concat cs, not (is_empty (concat cs)))
unfolding dump_all dump dump_rest
dump_all-chunks [] h = refl
dump_all-chunks ([] ∷ cs) h = ground (arith, h.0)
dump_all-chunks ((b ∷ c) ∷ cs) h = rw (dump_rest-chunks cs []) refl

length-cut : (max_dump : ℕ) (s : Bytes) → length (cut max_dump s) ≤ length s
unfolding cut
length-cut max_dump s = ground (arith, length-take max_dump s)

-- The frames that the daemon sends for a history, whatever the size of the client's buffer, come out
-- of the client's reader as the data, cut to the limit of the daemon, within one more read than it
-- has bytes. Every frame is small enough for the codec. The history command prints the same
-- data, and ends by itself exactly if there is some.
pub history_frames-contents :
    (max_dump n : ℕ) (s : Bytes) (later : List Frame)
    → 0 < n
    → (contents n (suc (length s)) (open_history (history_frames max_dump s ++ later))
        ≡ some (cut max_dump s))
      × AllSmall (history_frames max_dump s)
      × (dump_all (history_frames max_dump s) ≡ (cut max_dump s, not (is_empty (cut max_dump s))))
unfolding history_frames
history_frames-contents max_dump n s later p =
    let body = cut max_dump s in
    let cs = chunks chunk_size (length body) body in
    let sized = chunks-Sized chunk_size (length body) body (omega arith) in
    let whole : concat cs ≡ body =
      concat-chunks chunk_size (length body) body (omega arith) (omega arith) in
    let size : length (concat cs) ≡ length body = ap length whole in
    (
      ap (λ fs. contents n (suc (length s)) (open_history fs))
            (append_assoc (map history_frame cs) (end_frame ∷ []) later)
          ∙ contents-open n (suc (length s)) cs later p sized
              (omega (arith, size, length-cut max_dump s))
          ∙ ap some whole,
      chunks-AllSmall cs sized,
      dump_all-chunks cs sized ∙ ap (λ x. (x, not (is_empty x))) whole,
    )
