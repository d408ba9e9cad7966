-- ===== src/Daemon/Waiters.antt =====
-- The waiters of internal/daemon/service.go: addWaiter and removeWaiter, the three ways in which
-- waiters are notified, and handleWait. A pointer to a waiter is a handle, a number. `done` is its
-- channel, which holds one response. Of an idle waiter's timer the model counts the resets; that
-- a timer fires is a step.
pub mod Steps
pub mod Answers
use wmux.Prelude.{
  ℕ, zero, suc, ◌+◌, ltb, ◌==◌, ◌&&◌, if◌then◌else◌, Bool, true, false, List, [], ◌∷◌, ◌++◌, Option,
  none, some, Bytes, bytes_eq, codes, Map, map, lookup, insert,
}
use wmux.Prelude.Int.{ℤ, pos}
use wmux.Prelude.Search.{contains}
use wmux.Session.Defs.{Error, Result, ok, err, Service}
use wmux.Session.Service.{get}

pub data Mode : Type 0 where
  wait_exit wait_idle wait_match : Mode

pub record WaitResponse : Type 0 where
  pub session_id : Bytes
  pub mode : Mode
  pub exit_code : Option ℤ
  pub matched : Bool
  pub timed_out : Bool

pub record Waiter : Type 0 where
  pub handle : ℕ
  pub mode : Mode
  pub pattern : Bytes
  pub idle_for : ℕ
  pub resets : ℕ
  pub done : Option WaitResponse

abbrev pub Waiters : Type 0
Waiters = Map (List Waiter)

or_empty : Option (List Waiter) → List Waiter
or_empty none = []
or_empty (some ws) = ws

-- `d.waiters[sessionID]`
unfoldable pub waiters_of : Bytes → Waiters → List Waiter
unfolding or_empty
waiters_of id m = or_empty (lookup id m)

unfoldable pub add_waiter : Bytes → Waiter → Waiters → Waiters
unfolding waiters_of
add_waiter id w m = insert id (waiters_of id m ++ w ∷ []) m

unfoldable pub remove_first : ℕ → List Waiter → List Waiter
remove_first handle [] = []
remove_first handle (w ∷ ws) = if w.handle == handle then ws else w ∷ remove_first handle ws

unfoldable pub remove_waiter : Bytes → ℕ → Waiters → Waiters
unfolding remove_first
remove_waiter id handle m = elim (lookup id m) [
  | none ↦ m
  | some ws ↦ insert id (remove_first handle ws) m
]

-- `select { case w.done <- r: default: }`
unfoldable pub send : WaitResponse → Waiter → Waiter
send r w = elim w.done [ none ↦ record w { done = some r } | some _ ↦ w ]

unfoldable pub notify : Bytes → (Waiter → Waiter) → Waiters → Waiters
notify id f m = elim (lookup id m) [ none ↦ m | some ws ↦ insert id (map f ws) m ]

abbrev exit_response : Bytes → Mode → ℤ → WaitResponse
exit_response id mode code = record {
  session_id = id;
  mode = mode;
  exit_code = some code;
  matched = false;
  timed_out = false;
}

abbrev match_response : Bytes → WaitResponse
match_response id = record {
  session_id = id;
  mode = wait_match;
  exit_code = none;
  matched = true;
  timed_out = false;
}

-- What one waiter gets of an exit, in the two passes, and of output.
unfoldable pub exit_one : Bytes → ℤ → Waiter → Waiter
unfolding send
exit_one id code w = elim w.mode [ wait_exit ↦ send (exit_response id wait_exit code) w | _ ↦ w ]

unfoldable pub non_exit_one : Bytes → ℤ → Waiter → Waiter
unfolding send
non_exit_one id code w = elim w.mode [
  | wait_exit ↦ w
  | wait_idle ↦ send (exit_response id wait_idle code) w
  | wait_match ↦ send (exit_response id wait_match code) w
]

unfoldable pub output_one : Bytes → Bytes → Waiter → Waiter
unfolding send
output_one id output w = elim w.mode [
  | wait_exit ↦ w
  | wait_match ↦ if contains output w.pattern then send (match_response id) w else w
  | wait_idle ↦ record w { resets = suc w.resets }
]

unfoldable pub notify_exit_waiters : Bytes → ℤ → Waiters → Waiters
unfolding notify exit_one
notify_exit_waiters id code m = notify id (exit_one id code) m

unfoldable pub notify_exit_on_non_exit_waiters : Bytes → ℤ → Waiters → Waiters
unfolding notify non_exit_one
notify_exit_on_non_exit_waiters id code m = notify id (non_exit_one id code) m

unfoldable pub notify_output_waiters : Bytes → Bytes → Waiters → Waiters
unfolding notify output_one
notify_output_waiters id output m = notify id (output_one id output) m

-- The first two calls of the callback that `Start` gives to `OnExit`.
unfoldable pub on_exit : Bytes → ℤ → Waiters → Waiters
unfolding notify_exit_waiters notify_exit_on_non_exit_waiters
on_exit id code m = notify_exit_on_non_exit_waiters id code (notify_exit_waiters id code m)

-- A timeout, or an idle time, that is not positive is 0.
pub record WaitRequest : Type 0 where
  pub session_id : Bytes
  pub mode : Bytes
  pub pattern : Bytes
  pub timeout : ℕ
  pub idle_for : ℕ

abbrev new_waiter : ℕ → Mode → WaitRequest → Waiter
new_waiter handle wait_exit req = record {
  handle = handle;
  mode = wait_exit;
  pattern = [];
  idle_for = 0;
  resets = 0;
  done = none;
}
new_waiter handle wait_idle req = record {
  handle = handle;
  mode = wait_idle;
  pattern = [];
  idle_for = req.idle_for;
  resets = 0;
  done = none;
}
new_waiter handle wait_match req = record {
  handle = handle;
  mode = wait_match;
  pattern = req.pattern;
  idle_for = 0;
  resets = 0;
  done = none;
}

mode_of : Bytes → Option Mode
mode_of s =
    if bytes_eq s (codes "exit")
    then some wait_exit
    else if bytes_eq s (codes "idle")
    then some wait_idle
    else if bytes_eq s (codes "match")
    then some wait_match
    else none

pub data Begun : Type 0 where
  refused : Error → Begun
  invalid_request invalid_mode : Begun
  waits : Waiter → Begun

-- `handleWait` up to where it blocks. `none` is a request whose JSON is not valid.
unfoldable pub handle_wait : ℕ → Option WaitRequest → Service → Waiters → Waiters × Begun
unfolding add_waiter mode_of
handle_wait handle none s m = (m, invalid_request)
handle_wait handle (some req) s m = elim (get req.session_id s) [
  | err e ↦ (m, refused e)
  | ok _ ↦ elim (mode_of req.mode) [
    | none ↦ (m, invalid_mode)
    | some mode ↦ let w = new_waiter handle mode req in (add_waiter req.session_id w m, waits w)
  ]
]

-- What ends the wait: the channel, the idle timer or the timeout.
pub data Wake : Type 0 where
  receives idles times_out : Wake

timer_response : Bytes → Mode → Bool → WaitResponse
timer_response id mode timed_out = record {
  session_id = id;
  mode = mode;
  exit_code = none;
  matched = false;
  timed_out = timed_out;
}

-- The response that the client then gets; `none` if this cannot happen.
unfoldable pub wake : Bytes → ℕ → Wake → Waiter → Option WaitResponse
unfolding timer_response
wake id timeout receives w = w.done
wake id timeout idles w = elim w.mode [
  | wait_idle ↦ some (timer_response id wait_idle false)
  | _ ↦ none
]
wake id timeout times_out w = if ltb 0 timeout then some (timer_response id w.mode true) else none
