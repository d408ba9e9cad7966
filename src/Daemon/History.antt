-- ===== src/Daemon/History.antt =====
-- handleHistory of internal/daemon/service.go: the frames that carry the scrollback of a session to a
-- client. The emulator's replay is an argument, and so is ansi.ToHTML.
use wmux.Prelude.{
  ℕ, zero, suc, ltb, ◌&&◌, if◌then◌else◌, List, [], ◌∷◌, ◌++◌, map, Option, none, some, ◌*◌, Bytes,
  bytes_eq, codes, length, take, drop,
}
use wmux.Session.Defs.{Error, Result, ok, err}
use wmux.Protocol.{Frame}
use wmux.Transport.{frame}
use wmux.Platform.Ansi.{strip}

abbrev pub msg_history : ℕ
msg_history = 25

abbrev pub msg_history_end : ℕ
msg_history_end = 26

abbrev pub chunk_size : ℕ
chunk_size = 1024 * 1024

-- `if maxHistoryDumpSize > 0 && len(data) > maxHistoryDumpSize`; 0 is no limit.
unfoldable pub cut : ℕ → Bytes → Bytes
cut max_dump s = if ltb 0 max_dump && ltb max_dump (length s) then take max_dump s else s

-- The loop over the chunks; the first argument is the size of one, the second the fuel.
unfoldable pub chunks : ℕ → ℕ → Bytes → List Bytes
chunks size zero s = []
chunks size (suc fuel) [] = []
chunks size (suc fuel) (c ∷ s) = take size (c ∷ s) ∷ chunks size fuel (drop size (c ∷ s))

abbrev pub history_frame : Bytes → Frame
history_frame chunk = frame msg_history chunk

abbrev pub end_frame : Frame
end_frame = frame msg_history_end []

unfoldable pub history_frames : ℕ → Bytes → List Frame
unfolding chunks cut
history_frames max_dump s =
    let body = cut max_dump s in
    map history_frame (chunks chunk_size (length body) body) ++ end_frame ∷ []

-- The data in the format of the request; `none` is an invalid format.
unfoldable pub format_data : (Bytes → Bytes) → Bytes → Bytes → Option Bytes
unfolding strip
format_data to_html format replay =
    if bytes_eq format (codes "ansi")
    then some replay
    else if bytes_eq format (codes "text")
    then some (strip replay)
    else if bytes_eq format (codes "html")
    then some (to_html replay)
    else none

pub data Reply : Type 0 where
  invalid_request invalid_format : Reply
  failed : Error → Reply
  streams : List Frame → Reply

-- With what Snapshot returned; the format is tested before the session is looked up.
unfoldable pub handle_history : (Bytes → Bytes) → ℕ → Option Bytes → Result Bytes → Reply
unfolding format_data history_frames
handle_history to_html max_dump none snap = invalid_request
handle_history to_html max_dump (some format) (err e) = elim (format_data to_html format []) [
  | none ↦ invalid_format
  | some _ ↦ failed e
]
handle_history to_html max_dump (some format) (ok replay) =
    elim (format_data to_html format replay) [
      | none ↦ invalid_format
      | some s ↦ streams (history_frames max_dump s)
    ]
