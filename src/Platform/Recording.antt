-- ===== src/Platform/Recording.antt =====
-- internal/platform/recording/writer.go: a recording in asciinema format. `line` is the JSON of an
-- output event with its newline, where `none` is an error of json.Marshal, and `file` tells what
-- `os.File.Write` does, as in Platform/Scrollback.antt.
use wmux.Prelude.{
  ℕ, ◌+◌, ltb, leb, ◌&&◌, if◌then◌else◌, Bool, true, false, ◌++◌, Option, none, some, Bytes, length,
  take,
}

pub data Error : Type 0 where
  recording_closed size_limit_reached marshal_event write_event close_file : Error

-- `content` is what has been written to the file, and `max_size` is 0 for no limit.
pub record Writer : Type 0 where
  pub content : Bytes
  pub written : ℕ
  pub max_size : ℕ
  pub closed : Bool
  pub file_closed : Bool

-- `NewWriter`, when the header could be written.
unfoldable pub new_writer : Bytes → ℕ → Writer
new_writer header max_size = record {
  content = header;
  written = length header;
  max_size = max_size;
  closed = false;
  file_closed = false;
}

append : Bytes → Bytes → ℕ × Bool → Writer → Writer × ℕ × Option Error
append p event (n, fine) w =
    let v = record w { content = w.content ++ take n event; written = w.written + n } in
    if fine then (v, length p, none) else (v, 0, some write_event)

-- `Write`: the count and the error that it returns.
unfoldable pub write :
    (Bytes → Option Bytes) → (Bytes → ℕ × Bool) → Bytes → Writer → Writer × ℕ × Option Error
unfolding append
write line file p w =
    if w.closed
    then (w, 0, some recording_closed)
    else if ltb 0 w.max_size && leb w.max_size w.written
    then (w, 0, some size_limit_reached)
    else elim (line p) [
      | none ↦ (w, 0, some marshal_event)
      | some event ↦
          if ltb 0 w.max_size && ltb w.max_size (w.written + length event)
          then (record w { closed = true; file_closed = true }, 0, some size_limit_reached)
          else append p event (file event) w
    ]

-- `Close`; `fine` is what closing the file reports.
unfoldable pub close : Bool → Writer → Writer × Option Error
close fine w =
    if w.closed
    then (w, none)
    else (record w { closed = true; file_closed = true }, (if fine then none else some close_file))
