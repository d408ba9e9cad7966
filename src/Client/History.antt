-- ===== src/Client/History.antt =====
-- The history of a session as the client reads it: History and historyReader of
-- pkg/client/recording.go, and the loop of the history command in cmd/wmux/main.go. A channel
-- is the list of the frames that it will give, and its end is the closed channel.
pub mod Readback
use wmux.Prelude.{
  ℕ, zero, suc, ◌+◌, ltb, ◌==◌, not, ◌&&◌, if◌then◌else◌, Bool, true, false, List, [], ◌∷◌, ◌++◌,
  Option, none, some, Bytes, length, take, drop,
}
use wmux.Protocol.{Frame}
use wmux.Transport.{msg_error}
use wmux.Daemon.History.{msg_history, msg_history_end}

pub record HistoryReader : Type 0 where
  pub frames : List Frame
  pub buf : Bytes
  pub done : Bool
  pub initial : Bytes
  pub used_init : Bool

-- What a Read reports beside its bytes: nil, io.EOF, or the error.
pub data End : Type 0 where
  more eof unexpected_type : End

-- The first step of `Read`.
unfoldable pub load : HistoryReader → HistoryReader
load r =
    if not r.used_init && ltb 0 (length r.initial)
    then record r { used_init = true; buf = r.initial }
    else r

-- With a frame from the channel, for a buffer of `n` bytes.
receive : ℕ → HistoryReader → List Frame → HistoryReader × Bytes × End
receive n r [] = (record r { done = true }, [], eof)
receive n r (f ∷ fs) =
    if f.type == msg_history_end
    then (record r { frames = fs; done = true }, [], eof)
    else if f.type == msg_history
    then if ltb n (length f.payload)
      then (record r { frames = fs; buf = drop n f.payload }, take n f.payload, more)
      else (record r { frames = fs }, f.payload, more)
    else (record r { frames = fs; done = true }, [], unexpected_type)

read_loaded : ℕ → HistoryReader → HistoryReader × Bytes × End
unfolding receive
read_loaded n r =
    if ltb 0 (length r.buf)
    then (record r { buf = drop n r.buf }, take n r.buf, more)
    else if r.done
    then (r, [], eof)
    else receive n r r.frames

-- `Read` into a buffer of `n` bytes.
unfoldable pub read : ℕ → HistoryReader → HistoryReader × Bytes × End
unfolding load read_loaded
read n r = read_loaded n (load r)

unfoldable pub close : HistoryReader → HistoryReader
close r = record r { done = true }

pub data Opened : Type 0 where
  connection_closed no_history refused unexpected : Opened
  reads : HistoryReader → Opened

-- `History`, when the history channel is the one that is ready first.
unfoldable pub open_history : List Frame → Opened
open_history [] = connection_closed
open_history (f ∷ fs) =
    if f.type == msg_history_end
    then no_history
    else reads
        (record { frames = fs; buf = []; done = false; initial = f.payload; used_init = false })

-- And when the response channel is.
unfoldable pub open_refused : List Frame → Opened
open_refused [] = connection_closed
open_refused (f ∷ fs) = if f.type == msg_error then refused else unexpected

-- The history command, once the first response is no error: what it prints, and whether it ends when
-- no more frames come. Frames of other types are passed over.
unfoldable pub dump_rest : List Frame → Bytes × Bool
dump_rest [] = ([], false)
dump_rest (f ∷ fs) =
    let (out, ended) = dump_rest fs in
    if f.type == msg_history_end
    then ([], true)
    else if f.type == msg_history
    then (f.payload ++ out, ended)
    else (out, ended)

unfoldable pub dump : Frame → List Frame → Bytes × Bool
unfolding dump_rest
dump resp fs =
    let (out, ended) = dump_rest fs in
    if resp.type == msg_history then (resp.payload ++ out, ended) else (out, ended)
