-- ===== src/Session/Defs.antt =====
-- internal/session/entity.go and the records of service.go. `Managed` is a managedSession: a
-- pointer to one is a handle, a number, under which `cell` holds it, for a goroutine keeps the
-- pointer when the map has lost it. Of the resources the model keeps the output buffer and whether
-- each was closed or stopped; the emulator, the pools and the tracer are not part of it.
use wmux.Prelude.{ℕ, zero, suc, Bool, true, false, List, Bytes, Map, ◌==◌, if◌then◌else◌}
use wmux.Prelude.Int.{ℤ, pos, negsuc}
use wmux.Session.Buffer.{Buffer}

pub data State : Type 0 where
  alive detached exited removed : State

unfoldable pub is_terminal : State → Bool
is_terminal exited = true
is_terminal removed = true
is_terminal _ = false

pub record Session : Type 0 where
  pub id : Bytes
  pub prefix : Bytes
  pub state : State
  pub pid : ℕ
  pub cols : ℤ
  pub rows : ℤ
  pub shell : Bytes
  pub cwd : Bytes
  pub exit_code : ℤ
  pub started_at : ℕ
  pub ended_at : ℕ
  pub metadata : Map Bytes

pub record CreateOptions : Type 0 where
  pub shell : Bytes
  pub args : List Bytes
  pub cols : ℤ
  pub rows : ℤ
  pub cwd : Bytes
  pub env : List Bytes
  pub high_watermark : ℤ
  pub low_watermark : ℤ

-- `last_activity` is 0 if the field was never stored.
pub record Managed : Type 0 where
  pub session : Session
  pub buffer : Buffer
  pub last_activity : ℕ
  pub batcher_stopped : Bool
  pub pty_closed : Bool

pub data Error : Type 0 where
  invalid_session_id session_exists max_sessions spawn_failed session_not_found resize_failed :
      Error

pub data Result {ℓ} (A : Type ℓ) : Type ℓ where
  ok : A → Result A
  err : Error → Result A

-- `sessions` maps ids to handles; `next` is the first handle not yet used. `max_sessions` is 0 for
-- no limit.
pub record Service : Type 0 where
  pub sessions : Map ℕ
  pub cell : ℕ → Managed
  pub next : ℕ
  pub max_sessions : ℕ

abbrev pub update : (ℕ → Managed) → ℕ → Managed → ℕ → Managed
update f h m j = if h == j then m else f j

-- `if v <= 0 { v = d }`, for the sizes of `Create`.
abbrev pub positive_or : ℕ → ℤ → ℕ
positive_or d (pos zero) = d
positive_or d (pos (suc n)) = suc n
positive_or d (negsuc n) = d
