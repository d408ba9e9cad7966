-- ===== src/Examples/Session.antt =====
-- The session service and its buffer on concrete inputs.
use wmux.Prelude.{
  ℕ, ◌≡◌, refl, ◌==◌, Bool, true, false, List, [], ◌∷◌, none, some, Bytes, codes, lookup, insert,
  delete, length, ◌≢◌, bytes_eq, ◌↔◌,
}
use wmux.Prelude.Int.{pos, negsuc}
use wmux.Prelude.Search.{contains, AllBytes}
use wmux.Session.Ids.{validate_session_id, is_allowed_id_rune, validate_session_id_iff}
use wmux.Session.Defs.{exited, is_terminal, CreateOptions, Service, err, session_not_found}
use wmux.Session.Service.{
  new_service, new_session, create, create_locked, get, kill, wait_loop, list, last_activity,
  detach, detach_at,
}
use wmux.Session.Invariant.{
  IsWellformed, Op, creates, kills, detaches, step, run, new_service-IsWellformed, run-IsWellformed,
}
use wmux.Session.Reaper.{reap_one, reap_all, reaper_tick, watchdog_tick}
use wmux.Session.Reaper.Sweep.{Swept, is_idle, is_dead, reaper_tick-Swept, watchdog_tick-Swept}
use wmux.Session.Restart.{wait_loop_own, stale_exit_removes_successor}

abbrev a : Bytes
a = codes "team/a"

abbrev b : Bytes
b = codes "b"

abbrev opts : CreateOptions
opts = record {
  shell = codes "/bin/sh";
  args = [];
  cols = pos 120;
  rows = negsuc 0;
  cwd = [];
  env = [];
  high_watermark = pos 0;
  low_watermark = pos 0;
}

-- Session a is killed and created again before its first process has ended.
abbrev calls : List Op
calls =
    creates a opts (some 71) 5
    ∷ creates b opts (some 72) 6
    ∷ kills a
    ∷ creates a opts (some 73) 7
    ∷ []

abbrev limited : Service
limited = new_service 2

abbrev busy : Service
busy = run calls limited

busy-IsWellformed : IsWellformed busy
busy-IsWellformed = run-IsWellformed calls limited (new_service-IsWellformed 2)

run-IsWellformed_example : IsWellformed busy
run-IsWellformed_example = run-IsWellformed calls limited (new_service-IsWellformed 2)

found : lookup a busy.sessions ≡ some 2
unfolding run step new_service create create_locked new_session kill validate_session_id
    is_allowed_id_rune contains lookup insert delete bytes_eq
found = refl

found_b : lookup b busy.sessions ≡ some 1
unfolding run step new_service create create_locked new_session kill validate_session_id
    is_allowed_id_rune contains lookup insert delete bytes_eq
found_b = refl

first : (busy.cell 0).session.id ≡ a
unfolding run step new_service create create_locked new_session kill validate_session_id
    is_allowed_id_rune contains lookup insert delete bytes_eq
first = refl

full : length busy.sessions ≡ 2
unfolding run step new_service create create_locked new_session kill validate_session_id
    is_allowed_id_rune contains lookup insert delete bytes_eq
full = refl

other_handle : (0 == 2) ≡ false
other_handle = refl

wait_loop_own_example :
    (lookup b (wait_loop 1 (pos 3) 9 busy).0.sessions ≡ none)
    × ((j : Bytes)
        → bytes_eq b j ≡ false
        → lookup j (wait_loop 1 (pos 3) 9 busy).0.sessions ≡ lookup j busy.sessions)
    × (((wait_loop 1 (pos 3) 9 busy).0.cell 1).session.state ≡ exited)
    × (((wait_loop 1 (pos 3) 9 busy).0.cell 1).session.exit_code ≡ pos 3)
wait_loop_own_example = wait_loop_own busy b 1 (pos 3) 9 busy-IsWellformed found_b

stale_exit_removes_successor_example :
    (get a (wait_loop 0 (pos 0) 9 busy).0 ≡ err session_not_found)
    × (is_terminal ((wait_loop 0 (pos 0) 9 busy).0.cell 2).session.state ≡ false)
    × (((wait_loop 0 (pos 0) 9 busy).0.cell 2).pty_closed ≡ (busy.cell 2).pty_closed)
stale_exit_removes_successor_example =
    stale_exit_removes_successor busy a 0 2 (pos 0) 9 busy-IsWellformed found first other_handle

validate_session_id_iff_example :
    (validate_session_id (codes "a.b") ≡ true)
    ↔ ((codes "a.b" ≢ []) × AllBytes is_allowed_id_rune (codes "a.b"))
validate_session_id_iff_example = validate_session_id_iff (codes "a.b")

-- Session b was detached; its process is gone.
abbrev left : Service
left = step (detaches b) busy

reaper_tick-Swept_example : Swept (is_idle 100 10) (list left) left (reaper_tick 100 10 left)
reaper_tick-Swept_example = reaper_tick-Swept 100 10 left

reaps_b : (reaper_tick 100 10 left).1 ≡ b ∷ []
unfolding reaper_tick reap_all reap_one list last_activity detach detach_at run step new_service
    create create_locked new_session kill validate_session_id is_allowed_id_rune contains lookup
    insert delete bytes_eq
reaps_b = refl

abbrev only_73 : ℕ → Bool
only_73 pid = pid == 73

watchdog_tick-Swept_example : Swept (is_dead only_73) (list busy) busy (watchdog_tick only_73 busy)
watchdog_tick-Swept_example = watchdog_tick-Swept only_73 busy
